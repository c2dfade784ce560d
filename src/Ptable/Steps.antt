-- ===== src/Ptable/Steps.antt =====
-- The critical sections of xv6/proc.c under `ptable.lock`, in the order in which they are run.
use os_lab_course_project.Prelude.{ℕ, ◌+◌, ◌<◌, ◌≡◌, Bool, ok, some}
use os_lab_course_project.Ptable.{
  running, embryo, allocproc, fork_child, Chan, Table, nproc, wakeup1, kill, sleep, wait, yield,
  awake, schedule, exit,
}

-- Process `me` is in the kernel, on some CPU.
abbrev pub IsRunning : Table → ℕ → Type 0
IsRunning t me = (me < nproc) × ((t.proc me).state ≡ running)

-- `ini` is the slot of `initproc`. `fork` takes the lock twice: in `allocproc`, and for the slot in the
-- making at its end. Between the two any other step can come, also a `kill` of that slot.
pub data Step (ini : ℕ) (t : Table) : Table → Type 0 where
  run_allocproc : (page : Bool) (me : ℕ) → IsRunning t me → Step ini t (allocproc page t).1
  run_fork_child :
      (copied : Bool) (me i : ℕ)
      → IsRunning t me
      → (t.proc i).state ≡ embryo
      → Step ini t (fork_child copied me (some i) t).1
  run_wakeup : (chan : Chan) → Step ini t (wakeup1 chan nproc 0 t)
  run_kill : (pid : ℕ) → Step ini t (kill pid t).1
  run_yield : (me : ℕ) → IsRunning t me → Step ini t (yield me t)
  run_sleep : (me : ℕ) (chan : Chan) → IsRunning t me → Step ini t (sleep me chan t)
  run_awake : (me : ℕ) → IsRunning t me → Step ini t (awake me t)
  run_schedule : (i : ℕ) → Step ini t (schedule i t).1
  run_wait : (me : ℕ) → IsRunning t me → Step ini t (wait me t).1
  run_exit : (me : ℕ) {t' : Table} → IsRunning t me → exit ini me t ≡ ok t' → Step ini t t'

pub data Reach (ini : ℕ) (t : Table) : Table → Type 0 where
  here : Reach ini t t
  later : {u v : Table} → Reach ini t u → Step ini u v → Reach ini t v

-- How many times `allocproc` has been called.
abbrev pub allocations : {ini : ℕ} {t u : Table} → Reach ini t u → ℕ
allocations here = 0
allocations (later r (run_allocproc page me h)) = allocations r + 1
allocations (later r (run_fork_child copied me i h e)) = allocations r
allocations (later r (run_wakeup chan)) = allocations r
allocations (later r (run_kill pid)) = allocations r
allocations (later r (run_yield me h)) = allocations r
allocations (later r (run_sleep me chan h)) = allocations r
allocations (later r (run_awake me h)) = allocations r
allocations (later r (run_schedule i)) = allocations r
allocations (later r (run_wait me h)) = allocations r
allocations (later r (run_exit me h e)) = allocations r
