-- ===== src/Ptable/Numbers.antt =====
-- Process ids: no two slots share one.
use os_lab_course_project.Prelude.{
  ℕ, zero, suc, ◌+◌, ◌^◌, ◌≤◌, ◌<◌, ◌≡◌, refl, ◌⊎◌, inl, inr, Bool, true, false, Option, none, some,
  arith, Bool-cases, ap, update, ◌∙◌, ok, add32,
}
use os_lab_course_project.Ptable.{
  unused, embryo, runnable, is_unused, Chan, Proc, Table, set_proc, nproc, allocproc, fork_child,
  adopt, is_child, is_zombie, zombie, sleeping, running, is_runnable, parent_chan, proc_chan,
  no_chan, wake_proc, wakeup1, kill, kill_proc, reap, sleep, wait, yield, awake, schedule, reparent,
  exit,
}
use os_lab_course_project.Ptable.Steps.{
  run_allocproc, run_fork_child, run_wakeup, run_kill, run_yield, run_sleep, run_awake,
  run_schedule, run_wait, run_exit, Reach, here, later, allocations,
}
use os_lab_course_project.Ptable.Wake.{
  proc-wakeup1, nextpid-wakeup1, kill_lem, wait-cases, scan_lem,
}

-- Every pid in the table is below the next one, and two slots with one pid have the pid 0.
pub record IsNumbered (t : Table) : Type 0 where
  pub positive : 0 < t.nextpid
  pub below : (i : ℕ) → (t.proc i).pid < t.nextpid
  pub distinct : (i j : ℕ) → (t.proc i).pid ≡ (t.proc j).pid → (i ≡ j) ⊎ ((t.proc i).pid ≡ 0)

-- A table with the same pids is numbered if the old one is.
record SamePids (t t' : Table) : Type 0 where
  next : t'.nextpid ≡ t.nextpid
  pids : (i : ℕ) → (t'.proc i).pid ≡ (t.proc i).pid

IsNumbered-same : {t t' : Table} → SamePids t t' → IsNumbered t → IsNumbered t'
IsNumbered-same s n = record {
  positive = omega (arith, s.next, n.positive);
  below = λ i. omega (arith, s.next, s.pids i, n.below i);
  distinct = λ i j e. ground (arith, s.pids i, s.pids j, n.distinct i j);
}

SamePids-trans : {t u v : Table} → SamePids t u → SamePids u v → SamePids t v
SamePids-trans p q = record { next = q.next ∙ p.next; pids = λ i. q.pids i ∙ p.pids i }

SamePids-set : (t : Table) (k : ℕ) (p : Proc) → p.pid ≡ (t.proc k).pid → SamePids t (set_proc t k p)
SamePids-set t k p e = record { next = refl; pids = λ i. ground (arith, ap t.proc {x = i} {y = k}) }

wakeup1-SamePids : (c : Chan) (r i : ℕ) (t : Table) → SamePids t (wakeup1 c r i t)
unfolding wake_proc
wakeup1-SamePids c r i t = record {
  next = nextpid-wakeup1 c r i t;
  pids = λ j. ground (arith, proc-wakeup1 c r i t j);
}

-- A slot gets the next pid.
IsNumbered-next :
    (t : Table) (k : ℕ) (p : Proc)
    → IsNumbered t
    → p.pid ≡ t.nextpid
    → t.nextpid + 1 < 2 ^ 31
    → IsNumbered (record { proc = update t.proc k p; nextpid = add32 t.nextpid 1 })
IsNumbered-next t k p n e h = record {
  positive = omega arith;
  below = λ i. ground (arith, n.below i);
  distinct = λ i j s. ground (arith, n.distinct i j, n.below i, n.below j);
}

-- `allocproc` changes nothing, or gives one slot the next pid.
allocproc-IsNumbered :
    (page : Bool) (t : Table)
    → IsNumbered t
    → t.nextpid + 1 < 2 ^ 31
    → IsNumbered (allocproc page t).1
unfolding allocproc
allocproc-IsNumbered page t n h = elim (scan_lem (λ i. is_unused (t.proc i).state)) [
  | inr (s, _) ↦ rw (s, allocproc) n
  | inl (k, s, _) ↦ elim (Bool-cases page) [
    | inl y ↦
        rw (s, allocproc, y)
          (IsNumbered-next t k
            (record (t.proc k) { state = embryo; pid = t.nextpid; kstack = true }) n refl h)
    | inr y ↦
        rw (s, allocproc, y)
          (IsNumbered-next t k
            (record (t.proc k) { state = unused; pid = t.nextpid; kstack = false }) n refl h)
  ]
]

fork_child-SamePids :
    (copied : Bool) (me : ℕ) (found : Option ℕ) (t : Table)
    → SamePids t (fork_child copied me found t).1
unfolding fork_child
fork_child-SamePids copied me none t = record { next = refl; pids = λ j. refl }
fork_child-SamePids true me (some i) t =
    SamePids-set t i (record (t.proc i) { parent = some me; state = runnable }) refl
fork_child-SamePids false me (some i) t =
    SamePids-set t i (record (t.proc i) { kstack = false; state = unused }) refl

adopt-SamePids : (me ini i : ℕ) (t : Table) → SamePids t (adopt me ini i t)
unfolding adopt
adopt-SamePids me ini i t =
    let p = record (t.proc i) { parent = some ini } in
    let s = SamePids-set t i p refl in
    elim (Bool-cases (is_child me (t.proc i))) [
      | inr no_child ↦ rw (no_child, adopt) (record { next = refl; pids = λ j. refl })
      | inl child ↦ elim (Bool-cases (is_zombie (t.proc i).state)) [
        | inl z ↦
            rw (child, adopt, z)
              (SamePids-trans s (wakeup1-SamePids (proc_chan ini) nproc 0 (set_proc t i p)))
        | inr z ↦ rw (child, adopt, z) s
      ]
    ]

reparent-SamePids : (me ini r i : ℕ) (t : Table) → SamePids t (reparent me ini r i t)
unfolding reparent
reparent-SamePids me ini zero i t = record { next = refl; pids = λ j. refl }
reparent-SamePids me ini (suc r) i t =
    SamePids-trans (adopt-SamePids me ini i t)
      (reparent-SamePids me ini r (i + 1) (adopt me ini i t))

exit-SamePids : (ini me : ℕ) (t : Table) {t' : Table} → exit ini me t ≡ ok t' → SamePids t t'
unfolding exit
exit-SamePids ini me t {t'} e =
    let c = parent_chan (t.proc me).parent in
    let t1 = wakeup1 c nproc 0 t in
    let t2 = reparent me ini nproc 0 t1 in
    let p = record (t2.proc me) { state = zombie } in
    let eq : t' ≡ set_proc t2 me p = ground arith in
    rw eq (
      SamePids-trans (wakeup1-SamePids c nproc 0 t)
        (SamePids-trans (reparent-SamePids me ini nproc 0 t1) (SamePids-set t2 me p refl)))

kill-SamePids : (pid : ℕ) (t : Table) → SamePids t (kill pid t).1
unfolding kill_proc
kill-SamePids pid t = elim (kill_lem pid t) [
  | inl (i, _, e) ↦ rw e (SamePids-set t i (kill_proc (t.proc i)) refl)
  | inr (_, e) ↦ rw e (record { next = refl; pids = λ j. refl })
]

reap-IsNumbered : (t : Table) (k : ℕ) → IsNumbered t → IsNumbered (set_proc t k (reap (t.proc k)))
unfolding reap
reap-IsNumbered t k n = record {
  positive = n.positive;
  below = λ i. ground (arith, n.below i, n.positive);
  distinct = λ i j e. ground (arith, n.distinct i j);
}

wait-IsNumbered : (me : ℕ) (t : Table) → IsNumbered t → IsNumbered (wait me t).1
unfolding sleep
wait-IsNumbered me t n = elim (wait-cases me t) [
  | inl (k, _, e) ↦ rw e (reap-IsNumbered t k n)
  | inr (inl (_, _, e)) ↦ rw e n
  | inr (inr (_, _, _, e)) ↦ rw e (
      IsNumbered-same
        (SamePids-set t me (record (t.proc me) { chan = proc_chan me; state = sleeping }) refl) n)
]

-- The table after a step, with at most `c` more pids given.
record After (c : ℕ) (t t' : Table) : Type 0 where
  numbered : IsNumbered t'
  given : t'.nextpid ≤ t.nextpid + c

After-same : {t t' : Table} → SamePids t t' → IsNumbered t → After 0 t t'
After-same s n = record { numbered = IsNumbered-same s n; given = omega (arith, s.next) }

nextpid-allocproc :
    (page : Bool) (t : Table)
    → t.nextpid + 1 < 2 ^ 31
    → (allocproc page t).1.nextpid ≤ t.nextpid + 1
unfolding allocproc
nextpid-allocproc page t h = elim (scan_lem (λ i. is_unused (t.proc i).state)) [
  | inr (s, _) ↦ rw (s, allocproc) (omega arith)
  | inl (k, s, _) ↦ elim (Bool-cases page) [
    | inl y ↦ rw (s, allocproc, y) (omega arith)
    | inr y ↦ rw (s, allocproc, y) (omega arith)
  ]
]

nextpid-wait : (me : ℕ) (t : Table) → (wait me t).1.nextpid ≤ t.nextpid + 0
unfolding sleep
nextpid-wait me t = elim (wait-cases me t) [
  | inl (k, _, e) ↦ rw e (omega arith)
  | inr (inl (_, _, e)) ↦ rw e (omega arith)
  | inr (inr (_, _, _, e)) ↦ rw e (omega arith)
]

After-then : {c : ℕ} {t u v : Table} → After c t u → (IsNumbered u → After 0 u v) → After c t v
After-then a f =
    let b = f a.numbered in
    record { numbered = b.numbered; given = omega (arith, a.given, b.given) }

schedule-After : (i : ℕ) (t : Table) → IsNumbered t → After 0 t (schedule i t).1
unfolding schedule
schedule-After i t n = elim (Bool-cases (is_runnable (t.proc i).state)) [
  | inl y ↦
      rw (y, schedule)
        (After-same (SamePids-set t i (record (t.proc i) { state = running }) refl) n)
  | inr y ↦ rw (y, schedule) (record { numbered = n; given = omega arith })
]

Reach-After :
    {ini : ℕ} {t u : Table} (r : Reach ini t u)
    → IsNumbered t
    → t.nextpid + allocations r < 2 ^ 31
    → After (allocations r) t u
unfolding yield sleep awake
Reach-After here n h = record { numbered = n; given = omega arith }
Reach-After (later {u = u} r (run_allocproc page me _)) n h =
    let a = Reach-After r n (omega arith) in
    let few : u.nextpid + 1 < 2 ^ 31 = omega (arith, a.given) in
    record {
      numbered = allocproc-IsNumbered page u a.numbered few;
      given = omega (arith, a.given, nextpid-allocproc page u few);
    }
Reach-After (later {u = u} r (run_fork_child copied me i _ _)) n h =
    After-then (Reach-After r n h) (After-same (fork_child-SamePids copied me (some i) u))
Reach-After (later {u = u} r (run_wakeup c)) n h =
    After-then (Reach-After r n h) (After-same (wakeup1-SamePids c nproc 0 u))
Reach-After (later {u = u} r (run_kill pid)) n h =
    After-then (Reach-After r n h) (After-same (kill-SamePids pid u))
Reach-After (later {u = u} r (run_yield me _)) n h =
    After-then (Reach-After r n h)
      (After-same (SamePids-set u me (record (u.proc me) { state = runnable }) refl))
Reach-After (later {u = u} r (run_sleep me c _)) n h =
    After-then (Reach-After r n h)
      (After-same (SamePids-set u me (record (u.proc me) { chan = c; state = sleeping }) refl))
Reach-After (later {u = u} r (run_awake me _)) n h =
    After-then (Reach-After r n h)
      (After-same (SamePids-set u me (record (u.proc me) { chan = no_chan }) refl))
Reach-After (later {u = u} r (run_schedule i)) n h =
    After-then (Reach-After r n h) (schedule-After i u)
Reach-After (later {u = u} r (run_wait me _)) n h =
    After-then (Reach-After r n h)
      (λ m. record { numbered = wait-IsNumbered me u m; given = nextpid-wait me u })
Reach-After {ini} (later {u = u} r (run_exit me _ e)) n h =
    After-then (Reach-After r n h) (After-same (exit-SamePids ini me u e))

-- In every table reached from a numbered one, by any sequence of steps in which `nextpid` has not come
-- to 2 ^ 31, two slots that hold the same pid other than 0 are the same slot, and every pid is below the
-- next one to be given.
pub Reach-IsNumbered :
    {ini : ℕ} {t t' : Table} (r : Reach ini t t')
    → IsNumbered t
    → t.nextpid + allocations r < 2 ^ 31
    → IsNumbered t'
Reach-IsNumbered r n h = (Reach-After r n h).numbered
