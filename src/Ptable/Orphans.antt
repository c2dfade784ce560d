-- ===== src/Ptable/Orphans.antt =====
-- `exit` leaves no child behind, and no process ever has an exited or freed parent.
use os_lab_course_project.Prelude.{
  ℕ, ◌<◌, ◌≡◌, refl, inl, inr, ◌≢◌, ◌==◌, Bool, true, false, if◌then◌else◌, Option, none, some,
  arith, Bool-cases, ap, ◌∙◌, sym, ok,
}
use os_lab_course_project.Ptable.{
  unused, sleeping, runnable, running, zombie, is_unused, is_runnable, is_proc, parent_chan,
  no_chan, proc_chan, Chan, Table, set_proc, nproc, allocproc, fork_child, wakeup1, kill, kill_proc,
  reap, sleep, wait, yield, awake, schedule, reparent, exit,
}
use mathlib.Core.Path.{subst}
use os_lab_course_project.Ptable.Steps.{
  Step, run_allocproc, run_fork_child, run_wakeup, run_kill, run_yield, run_sleep, run_awake,
  run_schedule, run_wait, run_exit, Reach, here, later, IsRunning,
}
use os_lab_course_project.Ptable.Wake.{kill_lem, wait-cases, scan_lem}
use os_lab_course_project.Ptable.Family.{
  is_live, live, parent_of, IsFamily, IsFamily-Keeps, Keeps, Keeps-refl, Keeps-set, live-wakeup1,
  parent-wakeup1, live-reparent, parent-reparent, pass_on,
}

-- The table that `exit` leaves.
exit-eq :
    (ini me : ℕ) (t : Table) {t' : Table}
    → exit ini me t ≡ ok t'
    → let t1 = wakeup1 (parent_chan (parent_of t me)) nproc 0 t in
      let t2 = reparent me ini nproc 0 t1 in
      (me ≢ ini) × (t' ≡ set_proc t2 me (record (t2.proc me) { state = zombie }))
unfolding exit
exit-eq ini me t e = (ground arith, ground arith)

module _ (ini me : ℕ) (t : Table) {t' : Table} (e : exit ini me t ≡ ok t') where
  woken : Table
  woken = wakeup1 (parent_chan (parent_of t me)) nproc 0 t

  passed : Table
  passed = reparent me ini nproc 0 woken

  exited : t' ≡ set_proc passed me (record (passed.proc me) { state = zombie })
  unfolding passed woken
  exited = (exit-eq ini me t e).1

  exit-parent : (i : ℕ) → i < nproc → parent_of t' i ≡ pass_on me ini (parent_of t i)
  unfolding passed woken
  exit-parent i h =
      ap (λ (u : Table). parent_of u i) exited
      ∙ ground (arith, ap (parent_of passed) {x = i} {y = me})
      ∙ parent-reparent me ini nproc 0 woken i
      ∙ ground (arith, parent-wakeup1 (parent_chan (parent_of t me)) nproc 0 t i)

  exit-live : (i : ℕ) → live t' i ≡ (if i == me then false else live t i)
  unfolding passed woken
  exit-live i =
      ap (λ (u : Table). live u i) exited
      ∙ ground (
        arith,
        live-reparent me ini nproc 0 woken i,
        live-wakeup1 (parent_chan (parent_of t me)) nproc 0 t i,
      )

-- After `exit` of a process no slot names it as its parent, and each slot that did names
-- `initproc`; the other parents stay; the process is no longer live, and the others are as live as
-- they were.
pub exit-adopts :
    (ini me i : ℕ) (t t' : Table)
    → exit ini me t ≡ ok t'
    → i < nproc
    → (parent_of t' i ≡ (if is_proc me (parent_of t i) then some ini else parent_of t i))
      × (parent_of t' i ≢ some me)
      × (live t' i ≡ (if i == me then false else live t i))
exit-adopts ini me i t t' e h =
    let q = exit-parent ini me t e i h in
    (q, ground (arith, (exit-eq ini me t e).0), exit-live ini me t e i)

exit-IsFamily :
    (ini me : ℕ) (t : Table) {t' : Table} → exit ini me t ≡ ok t' → IsFamily ini t → IsFamily ini t'
exit-IsFamily ini me t {t'} e f = record {
  init_live = ground (arith, exit-live ini me t e ini, f.init_live, (exit-eq ini me t e).0);
  parent_live = λ i p h q. ground (
    arith,
    exit-parent ini me t e i h,
    exit-live ini me t e p,
    exit-live ini me t e ini,
    f.init_live,
    f.parent_live i p h,
    (exit-eq ini me t e).0,
  );
}

Keeps-child :
    (t : Table) (me i : ℕ)
    → live t me ≡ true
    → Keeps t (set_proc t i (record (t.proc i) { parent = some me; state = runnable }))
Keeps-child t me i l = record {
  lives = λ p h. ground arith;
  parents = λ j p h. ground (arith, ap (live t) {x = me} {y = p});
}

fork_child-Keeps :
    (copied : Bool) (me : ℕ) (found : Option ℕ) (t : Table)
    → live t me ≡ true
    → ((i : ℕ) → found ≡ some i → live t i ≡ false)
    → Keeps t (fork_child copied me found t).1
unfolding fork_child
fork_child-Keeps copied me none t l n = Keeps-refl t
fork_child-Keeps true me (some i) t l n = Keeps-child t me i l
fork_child-Keeps false me (some i) t l n =
    Keeps-set t i (record (t.proc i) { kstack = false; state = unused })
      (λ h. absurd (ground (arith, n i refl))) refl

-- The slot that `allocproc` finds is not live, before or after.
allocproc-Keeps :
    (page : Bool) (t : Table)
    → Keeps t (allocproc page t).1
      × ((i : ℕ) → (allocproc page t).0 ≡ some i → live (allocproc page t).1 i ≡ false)
unfolding allocproc
allocproc-Keeps page t = elim (scan_lem (λ i. is_unused (t.proc i).state)) [
  | inr (s, _) ↦ rw (s, allocproc) (Keeps-refl t, λ i e. absurd (cc e))
  | inl (k, s, first) ↦ elim (Bool-cases page) [
    | inl y ↦
        rw (s, allocproc, y)
          (
            record {
              lives = λ p h. ground (arith, first.1, ap (live t) {x = p} {y = k});
              parents = λ j p h. inl (ground (arith, ap (parent_of t) {x = j} {y = k}));
            },
            λ i e. ground arith,
          )
    | inr y ↦
        rw (s, allocproc, y)
          (
            record {
              lives = λ p h. ground (arith, first.1, ap (live t) {x = p} {y = k});
              parents = λ j p h. inl (ground (arith, ap (parent_of t) {x = j} {y = k}));
            },
            λ i e. absurd (cc e),
          )
  ]
]

kill-Keeps : (pid : ℕ) (t : Table) → Keeps t (kill pid t).1
unfolding kill_proc
kill-Keeps pid t = elim (kill_lem pid t) [
  | inl (i, _, e) ↦ rw e (Keeps-set t i (kill_proc (t.proc i)) (λ h. ground arith) refl)
  | inr (_, e) ↦ rw e (Keeps-refl t)
]

wakeup1-Keeps : (c : Chan) (r i : ℕ) (t : Table) → Keeps t (wakeup1 c r i t)
wakeup1-Keeps c r i t = record {
  lives = λ p h. live-wakeup1 c r i t p ∙ h;
  parents = λ j p h. inl (sym (parent-wakeup1 c r i t j) ∙ h);
}

-- The slot that `wait` frees is a zombie, which is no live parent.
wait-Keeps : (me : ℕ) (t : Table) → IsRunning t me → Keeps t (wait me t).1
unfolding reap sleep
wait-Keeps me t run = elim (wait-cases me t) [
  | inl (k, first, e) ↦ rw e (record {
    lives = λ p h. ground (arith, first.1, ap (live t) {x = p} {y = k});
    parents = λ j p h. ground (arith, ap (parent_of t) {x = j} {y = k});
  })
  | inr (inl (_, _, e)) ↦ rw e (Keeps-refl t)
  | inr (inr (_, _, _, e)) ↦ rw e (
      Keeps-set t me (record (t.proc me) { chan = proc_chan me; state = sleeping }) (λ _. refl)
        refl)
]

-- Every step keeps `initproc` alive and every parent a live process.
pub Step-IsFamily : {ini : ℕ} {t t' : Table} → Step ini t t' → IsFamily ini t → IsFamily ini t'
unfolding yield sleep awake schedule
Step-IsFamily {t = t} (run_allocproc page me run) f = IsFamily-Keeps (allocproc-Keeps page t).0 f
Step-IsFamily {t = t} (run_fork_child copied me i run making) f =
    let not_live : (j : ℕ) → some i ≡ some j → live t j ≡ false =
      λ j e. subst (λ k. live t k ≡ false) {x = i} {y = j} (cc) (ap is_live making) in
    IsFamily-Keeps (fork_child-Keeps copied me (some i) t (ap is_live run.1) not_live) f
Step-IsFamily {t = t} (run_wakeup c) f = IsFamily-Keeps (wakeup1-Keeps c nproc 0 t) f
Step-IsFamily {t = t} (run_kill pid) f = IsFamily-Keeps (kill-Keeps pid t) f
Step-IsFamily {t = t} (run_yield me _) f =
    IsFamily-Keeps (Keeps-set t me (record (t.proc me) { state = runnable }) (λ _. refl) refl) f
Step-IsFamily {t = t} (run_sleep me c _) f =
    IsFamily-Keeps
      (Keeps-set t me (record (t.proc me) { chan = c; state = sleeping }) (λ _. refl) refl) f
Step-IsFamily {t = t} (run_awake me _) f =
    IsFamily-Keeps (Keeps-set t me (record (t.proc me) { chan = no_chan }) (λ h. h) refl) f
Step-IsFamily {t = t} (run_schedule i) f = elim (Bool-cases (is_runnable (t.proc i).state)) [
  | inl y ↦
      rw (y, schedule)
        (IsFamily-Keeps (Keeps-set t i (record (t.proc i) { state = running }) (λ _. refl) refl) f)
  | inr y ↦ rw (y, schedule) f
]
Step-IsFamily {t = t} (run_wait me run) f = IsFamily-Keeps (wait-Keeps me t run) f
Step-IsFamily {ini} {t} (run_exit me _ e) f = exit-IsFamily ini me t e f

-- From a table in which `initproc` can run and every parent named by a slot can, any sequence of
-- steps leads to such a table: no process is orphaned, and `initproc` does not go away.
pub Reach-IsFamily : {ini : ℕ} {t t' : Table} → Reach ini t t' → IsFamily ini t → IsFamily ini t'
Reach-IsFamily here f = f
Reach-IsFamily (later r st) f = Step-IsFamily st (Reach-IsFamily r f)
