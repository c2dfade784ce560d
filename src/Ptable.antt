-- ===== src/Ptable.antt =====
-- xv6/proc.c: the process table, as its functions change it while they hold `ptable.lock`.
pub mod Scan
pub mod Wake
pub mod Steps
pub mod Numbers
pub mod Family
pub mod Orphans
mod Tests
use os_lab_course_project.Prelude.{
  ℕ, zero, suc, ◌+◌, Bool, true, false, not, ◌&&◌, ◌||◌, ◌==◌, ltb, leb, if◌then◌else◌, update,
  Option, none, some, add32, Result, ok, panic,
}
use os_lab_course_project.Ptable.Scan.{scan}

pub data State : Type 0 where
  unused embryo sleeping runnable running zombie : State

abbrev pub is_unused : State → Bool
is_unused unused = true
is_unused _ = false

abbrev pub is_sleeping : State → Bool
is_sleeping sleeping = true
is_sleeping _ = false

abbrev pub is_zombie : State → Bool
is_zombie zombie = true
is_zombie _ = false

abbrev pub is_runnable : State → Bool
is_runnable runnable = true
is_runnable _ = false

abbrev pub nproc : ℕ
nproc = 64

-- A `void *chan`: null, the address of a slot of the table, or that of another object.
pub data Chan : Type 0 where
  no_chan : Chan
  proc_chan : ℕ → Chan
  other_chan : ℕ → Chan

abbrev pub chan_eq : Chan → Chan → Bool
chan_eq no_chan no_chan = true
chan_eq (proc_chan i) (proc_chan j) = i == j
chan_eq (other_chan a) (other_chan b) = a == b
chan_eq _ _ = false

-- `struct proc`, as far as these functions use it. A process is the index of its slot; `parent` is
-- `none` for a null pointer. `kstack` says whether it is set.
pub record Proc : Type 0 where
  pub state : State
  pub pid : ℕ
  pub parent : Option ℕ
  pub chan : Chan
  pub killed : Bool
  pub kstack : Bool

pub record Table : Type 0 where
  pub proc : ℕ → Proc
  pub nextpid : ℕ

abbrev pub set_proc : Table → ℕ → Proc → Table
set_proc t i p = record t { proc = update t.proc i p }

-- `allocproc`: `page` says whether `kalloc` finds a page for the stack. What it writes to that page
-- is not modelled.
pub allocproc : Bool → Table → Option ℕ × Table
allocproc page t = elim (scan (λ i. is_unused (t.proc i).state) nproc 0) [
  | none ↦ (none, t)
  | some i ↦
      let pid = t.nextpid in
      let next = add32 pid 1 in
      if page
      then (
        some i,
        record {
          proc = update t.proc i (record (t.proc i) { state = embryo; pid = pid; kstack = true });
          nextpid = next;
        },
      )
      else (
        none,
        record {
          proc = update t.proc i (record (t.proc i) { state = unused; pid = pid; kstack = false });
          nextpid = next;
        },
      )
]

-- `fork` by process `me` after `allocproc`; `copied` says whether `copyuvm` succeeds. `none` is -1.
pub fork_child : Bool → ℕ → Option ℕ → Table → Option ℕ × Table
fork_child copied me none t = (none, t)
fork_child copied me (some i) t =
    if copied
    then (
      some (t.proc i).pid,
      set_proc t i (record (t.proc i) { parent = some me; state = runnable }),
    )
    else (none, set_proc t i (record (t.proc i) { kstack = false; state = unused }))

-- `wakeup1`: the loop body, for each slot below NPROC.
pub wake_proc : Chan → Proc → Proc
wake_proc chan p =
    if is_sleeping p.state && chan_eq p.chan chan then record p { state = runnable } else p

pub wakeup1 : Chan → ℕ → ℕ → Table → Table
unfolding wake_proc
wakeup1 chan zero i t = t
wakeup1 chan (suc r) i t = wakeup1 chan r (i + 1) (set_proc t i (wake_proc chan (t.proc i)))

-- The body of the loop of `kill`, for the slot that it finds.
pub kill_proc : Proc → Proc
kill_proc p = record p { killed = true; state = if is_sleeping p.state then runnable else p.state }

-- `kill`: whether it returns 0.
pub kill : ℕ → Table → Bool × Table
unfolding kill_proc
kill pid t = elim (scan (λ i. (t.proc i).pid == pid) nproc 0) [
  | none ↦ (false, t)
  | some i ↦ (true, set_proc t i (kill_proc (t.proc i)))
]

-- `yield`, and `sleep` on `chan`, up to `sched`.
pub yield : ℕ → Table → Table
yield me t = set_proc t me (record (t.proc me) { state = runnable })

pub sleep : ℕ → Chan → Table → Table
sleep me chan t = set_proc t me (record (t.proc me) { chan = chan; state = sleeping })

-- `sleep` after `sched`.
pub awake : ℕ → Table → Table
awake me t = set_proc t me (record (t.proc me) { chan = no_chan })

-- The loop body of `scheduler`, up to `swtch`: whether slot `i` is chosen.
pub schedule : ℕ → Table → Bool × Table
schedule i t =
    if is_runnable (t.proc i).state
    then (true, set_proc t i (record (t.proc i) { state = running }))
    else (false, t)

abbrev pub is_proc : ℕ → Option ℕ → Bool
is_proc me none = false
is_proc me (some q) = q == me

abbrev pub is_child : ℕ → Proc → Bool
is_child me p = is_proc me p.parent

abbrev pub parent_chan : Option ℕ → Chan
parent_chan none = no_chan
parent_chan (some q) = proc_chan q

-- The loop body of `exit` that passes a child of `me` to `initproc`.
pub adopt : ℕ → ℕ → ℕ → Table → Table
unfolding wakeup1
adopt me ini i t =
    let t' = set_proc t i (record (t.proc i) { parent = some ini }) in
    if is_child me (t.proc i)
    then (if is_zombie (t.proc i).state then wakeup1 (proc_chan ini) nproc 0 t' else t')
    else t

pub reparent : ℕ → ℕ → ℕ → ℕ → Table → Table
unfolding adopt
reparent me ini zero i t = t
reparent me ini (suc r) i t = reparent me ini r (i + 1) (adopt me ini i t)

-- `exit` of process `me` from the `acquire` of `ptable.lock` to `sched`, and its first test.
pub exit : ℕ → ℕ → Table → Result Table
unfolding reparent
exit ini me t =
    if me == ini
    then panic "init exiting"
    else (let t' = reparent me ini nproc 0 (wakeup1 (parent_chan (t.proc me).parent) nproc 0 t) in
        ok (set_proc t' me (record (t'.proc me) { state = zombie })))

-- How one round of `wait` ends: with a pid, with -1, or asleep.
pub data Wait : Type 0 where
  reaped : ℕ → Wait
  failed : Wait
  waiting : Wait

-- `freevm` and the name are not modelled.
pub reap : Proc → Proc
reap p = record p { kstack = false; pid = 0; parent = none; killed = false; state = unused }

-- One round of the outer loop of `wait`.
pub wait : ℕ → Table → Wait × Table
unfolding reap sleep
wait me t = elim (scan (λ i. is_child me (t.proc i) && is_zombie (t.proc i).state) nproc 0) [
  | some k ↦ (reaped (t.proc k).pid, set_proc t k (reap (t.proc k)))
  | none ↦ elim (scan (λ i. is_child me (t.proc i)) nproc 0) [
    | none ↦ (failed, t)
    | some _ ↦ if (t.proc me).killed then (failed, t) else (waiting, sleep me (proc_chan me) t)
  ]
]
