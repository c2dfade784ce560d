-- ===== src/Sleeplock/Exclusion.antt =====
-- Any number of processes on one sleep lock, interleaved; each may call `releasesleep` also if it does not
-- have the lock.
use os_lab_course_project.Prelude.{
  ℕ, ◌≡◌, refl, ◌⊎◌, inl, ap, Bool, true, false, Option, none, some, update, arith,
}
use os_lab_course_project.Sleeplock.{
  Sleeplock, initsleeplock, acquiresleep, releasesleep, holdingsleep,
}

-- Where a process stands: not in `acquiresleep`, before the test of its loop, in `sleep`, or past it.
pub data Place : Type 0 where
  outside trying asleep inside : Place

pub record Sys : Type 0 where
  pub lock : Sleeplock
  pub place : ℕ → Place

-- `wakeup` on the lock.
abbrev pub wake : Bool → Place → Place
wake true asleep = trying
wake _ p = p

abbrev pub after_round : ℕ → Sys → Option Sleeplock → Sys
after_round pid s none = record s { place = update s.place pid asleep }
after_round pid s (some lk) = record { lock = lk; place = update s.place pid inside }

pub data Step (s : Sys) : Sys → Type 0 where
  call : (pid : ℕ) → s.place pid ≡ outside → Step s (record s { place = update s.place pid trying })
  round :
      (pid : ℕ) (r : Option Sleeplock)
      → s.place pid ≡ trying
      → acquiresleep pid s.lock ≡ r
      → Step s (after_round pid s r)
  woken : (pid : ℕ) → s.place pid ≡ asleep → Step s (record s { place = update s.place pid trying })
  leave :
      (pid : ℕ) {lk : Sleeplock} {w : Bool}
      → s.place pid ≡ inside
      → releasesleep pid s.lock ≡ (lk, w)
      → Step s (record { lock = lk; place = λ a. wake w (update s.place pid outside a) })
  misuse :
      (pid : ℕ) {lk : Sleeplock} {w : Bool}
      → s.place pid ≡ outside
      → releasesleep pid s.lock ≡ (lk, w)
      → Step s (record { lock = lk; place = λ a. wake w (s.place a) })

abbrev pub init : Sys
init = record { lock = initsleeplock; place = λ _. outside }

pub data Reach : Sys → Type 0 where
  begin : Reach init
  later : {s t : Sys} → Reach s → Step s t → Reach t

abbrev pub is_inside : Place → Bool
is_inside inside = true
is_inside _ = false

abbrev pub is_asleep : Place → Bool
is_asleep asleep = true
is_asleep _ = false

pub record Inv (s : Sys) : Type 0 where
  pub held : (a : ℕ) → is_inside (s.place a) ≡ holdingsleep a s.lock
  pub no_lost_wakeup : (a : ℕ) → (is_asleep (s.place a) ≡ false) ⊎ (s.lock.locked ≡ true)

init-Inv : Inv init
unfolding initsleeplock holdingsleep
init-Inv = record { held = λ a. refl; no_lost_wakeup = λ a. inl refl }

step-Inv : {s t : Sys} → Inv s → Step s t → Inv t
unfolding acquiresleep releasesleep holdingsleep
step-Inv {s} v (call pid e) = record {
  held = λ a. ground (arith, e, v.held a, v.held pid, ap s.place {x = a} {y = pid});
  no_lost_wakeup = λ a.
      ground (arith, e, v.held a, v.held pid, v.no_lost_wakeup a, ap s.place {x = a} {y = pid});
}
step-Inv {s} v (round pid none e q) = record {
  held = λ a. ground (arith, e, v.held a, v.held pid, q, ap s.place {x = a} {y = pid});
  no_lost_wakeup = λ a.
      ground (arith, e, v.held a, v.held pid, v.no_lost_wakeup a, q, ap s.place {x = a} {y = pid});
}
step-Inv {s} v (round pid (some lk) e q) = record {
  held = λ a. ground (arith, e, v.held a, v.held pid, q, ap s.place {x = a} {y = pid});
  no_lost_wakeup = λ a.
      ground (arith, e, v.held a, v.held pid, v.no_lost_wakeup a, q, ap s.place {x = a} {y = pid});
}
step-Inv {s} v (woken pid e) = record {
  held = λ a. ground (arith, e, v.held a, v.held pid, ap s.place {x = a} {y = pid});
  no_lost_wakeup = λ a.
      ground (arith, e, v.held a, v.held pid, v.no_lost_wakeup a, ap s.place {x = a} {y = pid});
}
step-Inv {s} v (leave pid e q) = record {
  held = λ a. ground (arith, e, v.held a, v.held pid, q, ap s.place {x = a} {y = pid});
  no_lost_wakeup = λ a.
      ground (arith, e, v.held a, v.held pid, v.no_lost_wakeup a, q, ap s.place {x = a} {y = pid});
}
step-Inv {s} v (misuse pid e q) = record {
  held = λ a. ground (arith, e, v.held a, v.held pid, q, ap s.place {x = a} {y = pid});
  no_lost_wakeup = λ a.
      ground (arith, e, v.held a, v.held pid, v.no_lost_wakeup a, q, ap s.place {x = a} {y = pid});
}

pub Reach-Inv : {s : Sys} → Reach s → Inv s
Reach-Inv begin = init-Inv
Reach-Inv (later r st) = step-Inv (Reach-Inv r) st

-- In every reachable state, where calls of `releasesleep` by processes without the lock are among the steps:
-- two processes past `acquiresleep` are one, `holdingsleep` is true exactly for such a process, and while a
-- process sleeps on the lock it is taken, so no wakeup is lost.
pub one_holder :
    {s : Sys}
    → Reach s
    → ((a b : ℕ) → s.place a ≡ inside → s.place b ≡ inside → a ≡ b)
      × ((a : ℕ) → is_inside (s.place a) ≡ holdingsleep a s.lock)
      × ((a : ℕ) → s.place a ≡ asleep → s.lock.locked ≡ true)
unfolding holdingsleep
one_holder {s} r =
    let v = Reach-Inv r in
    (
      λ a b p q. ground (arith, p, q, v.held a, v.held b),
      v.held,
      λ a p. ground (arith, p, v.no_lost_wakeup a),
    )
