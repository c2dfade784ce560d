-- ===== src/Priority/Steps.antt =====
-- `prior_acquire` and `p_release` of any number of processes on one lock, interleaved. Not here: the
-- `pushcli` and the test `holding` at the start of `prior_acquire`, the test `holding` of `release`,
-- and the fields `cpu` and `pcs` of the lock, which only that test and the debugger read.
use os_lab_course_project.Prelude.{
  ℕ, ◌≡◌, ◌==◌, Bool, true, false, not, ◌&&◌, if◌then◌else◌, List, [], ◌∷◌, update, Result, ok,
  panic, ◌>>=◌,
}
use os_lab_course_project.Priority.Queue.{add_queue, rm_queue}

-- Where a process stands: not in `prior_acquire`, in its loop, or past it.
pub data Place : Type 0 where
  outside waiting inside : Place

-- `struct prioritylock`, less `queue_lock`, under which every access to `head` is made, so that what
-- stands between its `acquire` and its `release` is one step; and the place of each pid.
pub record Sys : Type 0 where
  pub locked : Bool
  pub queue : List ℕ
  pub place : ℕ → Place

-- One round of the loop: whether the process got the lock, and the new `locked` and `head`. With an
-- empty queue the code reads through a null pointer.
unfoldable pub attempt : Bool → List ℕ → ℕ → Result (Bool × Bool × List ℕ)
attempt locked [] pid = panic "read through a null head"
attempt locked (x ∷ xs) pid =
    if x == pid && not locked
    then (rm_queue (x ∷ xs) pid >>= λ q. ok (true, true, q))
    else ok (false, locked, x ∷ xs)

pub data Step (s : Sys) : Sys → Type 0 where
  enqueue :
      (pid : ℕ)
      → s.place pid ≡ outside
      → Step s (record s { queue = add_queue s.queue pid; place = update s.place pid waiting })
  try_lock :
      (pid : ℕ) {won locked : Bool} {queue : List ℕ}
      → s.place pid ≡ waiting
      → attempt s.locked s.queue pid ≡ ok (won, locked, queue)
      → Step s (record {
        locked = locked;
        queue = queue;
        place = update s.place pid (if won then inside else waiting);
      })
  unlock :
      (pid : ℕ)
      → s.place pid ≡ inside
      → Step s (record s { locked = false; place = update s.place pid outside })

-- After `p_initlock`.
abbrev pub init : Sys
init = record { locked = false; queue = []; place = λ _. outside }

pub data Reach : Sys → Type 0 where
  start : Reach init
  later : {s t : Sys} → Reach s → Step s t → Reach t
