-- ===== src/Sleeplock/Tests.antt =====
-- Process 1 has the lock, 2 sleeps on it, and a `releasesleep` by 3 changes nothing.
use os_lab_course_project.Prelude.{ℕ, ◌≡◌, refl, true, false, none, some}
use os_lab_course_project.Sleeplock.{
  Sleeplock, initsleeplock, acquiresleep, releasesleep, holdingsleep,
}
use os_lab_course_project.Sleeplock.Exclusion.{
  asleep, inside, Sys, call, round, misuse, Reach, begin, later, one_holder, is_inside,
}

abbrev lock_1 : Sleeplock
lock_1 = record { locked = true; pid = 1 }

reached : (s : Sys) × Reach s × (s.lock ≡ lock_1) × (s.place 1 ≡ inside) × (s.place 2 ≡ asleep)
unfolding initsleeplock acquiresleep releasesleep
reached =
    let r1 = later begin (call 1 refl) in
    let r2 = later r1 (round 1 (some lock_1) refl refl) in
    let r3 = later r2 (call 2 refl) in
    let r4 = later r3 (round 2 none refl refl) in
    (_, later r4 (misuse 3 {lk = lock_1} {w = false} refl refl), refl, refl, refl)

abbrev two : Sys
two = reached.0

one_holder_example :
    ((a b : ℕ) → two.place a ≡ inside → two.place b ≡ inside → a ≡ b)
    × ((a : ℕ) → is_inside (two.place a) ≡ holdingsleep a two.lock)
    × ((a : ℕ) → two.place a ≡ asleep → two.lock.locked ≡ true)
one_holder_example = one_holder reached.1
