-- ===== src/Ptable/Wake.antt =====
-- `wakeup1`, `kill` and `wait`: what they do to every slot.
use os_lab_course_project.Prelude.{
  ℕ, zero, suc, ◌+◌, ◌<◌, ◌≡◌, ◌≢◌, refl, ◌⊎◌, inl, inr, ◌==◌, ltb, leb, ◌&&◌, Bool, true, false,
  if◌then◌else◌, none, some, arith, Bool-cases, ap, ◌∙◌, range-step, range-none,
}
use os_lab_course_project.Ptable.{
  unused, sleeping, runnable, parent_chan, is_unused, allocproc, is_zombie, is_child, Chan,
  proc_chan, Table, set_proc, nproc, wake_proc, wakeup1, kill, kill_proc, reaped, failed, waiting,
  reap, sleep, wait,
}
use os_lab_course_project.Ptable.Scan.{scan, scan-cases}

-- `wakeup1` on a channel applies the loop body to each slot of its range, and to no other.
pub proc-wakeup1 :
    (chan : Chan) (r i : ℕ) (t : Table) (j : ℕ)
    → (wakeup1 chan r i t).proc j
      ≡ (if leb i j && ltb j (i + r) then wake_proc chan (t.proc j) else t.proc j)
unfolding wakeup1
proc-wakeup1 chan zero i t j = range-none (wake_proc chan) t.proc i j
proc-wakeup1 chan (suc r) i t j =
    proc-wakeup1 chan r (i + 1) (set_proc t i (wake_proc chan (t.proc i))) j
    ∙ range-step (wake_proc chan) t.proc i r j

pub nextpid-wakeup1 : (chan : Chan) (r i : ℕ) (t : Table) → (wakeup1 chan r i t).nextpid ≡ t.nextpid
unfolding wakeup1
nextpid-wakeup1 chan zero i t = refl
nextpid-wakeup1 chan (suc r) i t =
    nextpid-wakeup1 chan r (i + 1) (set_proc t i (wake_proc chan (t.proc i)))

-- The slot `i` below NPROC is the first that passes the test.
abbrev pub IsFirst : (ℕ → Bool) → ℕ → Type 0
IsFirst test i = (i < nproc) × (test i ≡ true) × ((j : ℕ) → j < i → test j ≡ false)

abbrev pub NoSlot : (ℕ → Bool) → Type 0
NoSlot test = (j : ℕ) → j < nproc → test j ≡ false

pub scan_lem :
    (test : ℕ → Bool)
    → ((i : ℕ) × (scan test nproc 0 ≡ some i) × IsFirst test i)
      ⊎ ((scan test nproc 0 ≡ none) × NoSlot test)
scan_lem test = elim (scan-cases test nproc 0) [
  | inl (i, s, p, q, hit, out) ↦ inl (i, s, (omega arith, hit, λ j h. out j (omega arith) h))
  | inr (s, out) ↦ inr (s, λ j h. out j (omega arith) (omega arith))
]

-- `kill` acts on the first slot with the pid, makes it runnable if it sleeps and changes no other
-- slot; without such a slot it fails and changes nothing.
pub kill_lem :
    (pid : ℕ) (t : Table)
    → ((i : ℕ) × IsFirst (λ j. (t.proc j).pid == pid) i
        × (kill pid t ≡ (true, set_proc t i (kill_proc (t.proc i)))))
      ⊎ (NoSlot (λ j. (t.proc j).pid == pid) × (kill pid t ≡ (false, t)))
unfolding kill
kill_lem pid t = elim (scan_lem (λ i. (t.proc i).pid == pid)) [
  | inl (i, s, first) ↦ inl (i, first, rw (s, kill))
  | inr (s, out) ↦ inr (out, rw (s, kill))
]

abbrev pub zombie_child : ℕ → Table → ℕ → Bool
zombie_child me t i = is_child me (t.proc i) && is_zombie (t.proc i).state

pub wait-cases :
    (me : ℕ) (t : Table)
    → ((k : ℕ) × IsFirst (zombie_child me t) k
        × (wait me t ≡ (reaped (t.proc k).pid, set_proc t k (reap (t.proc k)))))
      ⊎ (NoSlot (zombie_child me t)
          × (NoSlot (λ i. is_child me (t.proc i)) ⊎ ((t.proc me).killed ≡ true))
          × (wait me t ≡ (failed, t)))
      ⊎ (NoSlot (zombie_child me t)
          × ((k : ℕ) × IsFirst (λ i. is_child me (t.proc i)) k)
          × ((t.proc me).killed ≡ false)
          × (wait me t ≡ (waiting, sleep me (proc_chan me) t)))
unfolding wait
wait-cases me t = elim (scan_lem (zombie_child me t)) [
  | inl (k, s, first) ↦ inl (k, first, rw (s, wait))
  | inr (s, none_exited) ↦ elim (scan_lem (λ i. is_child me (t.proc i))) [
    | inr (c, childless) ↦ inr (inl (none_exited, inl childless, rw (s, wait, c)))
    | inl (k, c, first) ↦ elim (Bool-cases (t.proc me).killed) [
      | inl dead ↦ inr (inl (none_exited, inr dead, rw (s, wait, c, dead)))
      | inr alive ↦ inr (inr (none_exited, (k, first), alive, rw (s, wait, c, alive)))
    ]
  ]
]

-- Slot `k` is free, with nothing left of its process, and no other slot has changed.
pub record Freed (k : ℕ) (t t' : Table) : Type 0 where
  pub state : (t'.proc k).state ≡ unused
  pub pid : (t'.proc k).pid ≡ 0
  pub parent : (t'.proc k).parent ≡ none
  pub alive : (t'.proc k).killed ≡ false
  pub stack : (t'.proc k).kstack ≡ false
  pub others : (j : ℕ) → j ≢ k → t'.proc j ≡ t.proc j
  pub next : t'.nextpid ≡ t.nextpid

-- `me` sleeps on its own slot, which `exit` of any child wakes up, and no other slot has changed.
pub record Waits (me : ℕ) (t t' : Table) : Type 0 where
  pub asleep : (t'.proc me).state ≡ sleeping
  pub woken :
      (child : ℕ)
      → (t.proc child).parent ≡ some me
      → me < nproc
      → ((wakeup1 (parent_chan (t.proc child).parent) nproc 0 t').proc me).state ≡ runnable
  pub others : (j : ℕ) → j ≢ me → t'.proc j ≡ t.proc j
  pub next : t'.nextpid ≡ t.nextpid

pub scan-first : (test : ℕ → Bool) (i : ℕ) → IsFirst test i → scan test nproc 0 ≡ some i
scan-first test i f = elim (scan_lem test) [
  | inl (k, s, g) ↦ s ∙ ap some (first_unique k i g f)
  | inr (s, out) ↦ absurd (ground (arith, out i f.0, f.1))
]
  where
    first_unique : (j k : ℕ) → IsFirst test j → IsFirst test k → j ≡ k
    first_unique j k p q = ground (arith, p.1, q.1, p.2 k, q.2 j)

kill-first :
    (pid : ℕ) (t : Table) (i : ℕ)
    → IsFirst (λ j. (t.proc j).pid == pid) i
    → kill pid t ≡ (true, set_proc t i (kill_proc (t.proc i)))
unfolding kill
kill-first pid t i f = rw (scan-first (λ j. (t.proc j).pid == pid) i f, kill)

allocproc-first :
    (t : Table) (i : ℕ)
    → IsFirst (λ j. is_unused (t.proc j).state) i
    → (allocproc true t).0 ≡ some i
      × (((allocproc true t).1.proc i).killed ≡ (t.proc i).killed)
      × (((allocproc true t).1.proc i).pid ≡ t.nextpid)
unfolding allocproc
allocproc-first t i f =
    rw (scan-first (λ j. is_unused (t.proc j).state) i f, allocproc)
      (refl, ground arith, ground arith)

-- `kill` of pid 0 acts on a free slot: where the first slot with pid 0 is also the first free one,
-- it returns 0, and the next process that `allocproc` makes is in that slot and is born killed.
pub kill_zero-allocproc :
    (t : Table) (i : ℕ)
    → IsFirst (λ j. (t.proc j).pid == 0) i
    → IsFirst (λ j. is_unused (t.proc j).state) i
    → let (done, t') = kill 0 t in
      let (found, t'') = allocproc true t' in
      (done ≡ true)
      × (found ≡ some i)
      × ((t''.proc i).killed ≡ true)
      × ((t''.proc i).pid ≡ t.nextpid)
unfolding kill_proc
kill_zero-allocproc t i z u =
    let t' = set_proc t i (kill_proc (t.proc i)) in
    let first : IsFirst (λ j. is_unused (t'.proc j).state) i =
      (u.0, ground (arith, u.1), λ j h. ground (arith, u.2 j h)) in
    let (a, b, c) = allocproc-first t' i first in
    rw (kill-first 0 t i z) (refl, a, ground (arith, b), c)
