-- ===== src/Sleeplock.antt =====
-- xv6/sleeplock.c. The spin lock in a sleep lock makes each function one step, except that `acquiresleep`
-- gives it up in `sleep`.
pub mod Exclusion
mod Tests
use os_lab_course_project.Prelude.{
  ℕ, Bool, true, false, ◌&&◌, ◌==◌, if◌then◌else◌, Option, none, some,
}

-- `struct sleeplock`, less its spin lock and its name.
pub record Sleeplock : Type 0 where
  pub locked : Bool
  pub pid : ℕ

unfoldable pub initsleeplock : Sleeplock
initsleeplock = record { locked = false; pid = 0 }

-- One round of the loop of `acquiresleep`: `none` if it sleeps, and tests again when it wakes up.
unfoldable pub acquiresleep : ℕ → Sleeplock → Option Sleeplock
acquiresleep me lk = if lk.locked then none else some (record { locked = true; pid = me })

-- The lock, and whether the sleepers on it are woken.
unfoldable pub releasesleep : ℕ → Sleeplock → Sleeplock × Bool
releasesleep me lk =
    if lk.pid == me then (record { locked = false; pid = 0 }, true) else (lk, false)

unfoldable pub holdingsleep : ℕ → Sleeplock → Bool
holdingsleep me lk = lk.locked && lk.pid == me
