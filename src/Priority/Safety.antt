-- ===== src/Priority/Safety.antt =====
-- Mutual exclusion, priority and progress of the priority lock.
use os_lab_course_project.Prelude.{
  ℕ, ◌≤◌, ◌<◌, ◌≡◌, refl, ◌==◌, if◌then◌else◌, List, [], ◌∷◌, ok, arith, inl, inr, Bool-cases, ◌⊎◌,
  ap, Bool, true, false, update,
}
use os_lab_course_project.Priority.Queue.{add_queue}
use os_lab_course_project.Priority.Order.{count, IsSorted, add_queue_lem, rm_queue-head}
use os_lab_course_project.Priority.Steps.{
  Place, outside, waiting, inside, Sys, attempt, Step, enqueue, try_lock, unlock, Reach, start,
  later,
}

abbrev waits : Place → ℕ
waits waiting = 1
waits _ = 0

pub record Inv (s : Sys) : Type 0 where
  pub sorted : IsSorted s.queue
  pub queued : (a : ℕ) → count a s.queue ≡ waits (s.place a)
  pub held : (a : ℕ) → s.place a ≡ inside → s.locked ≡ true
  pub unique : (a b : ℕ) → s.place a ≡ inside → s.place b ≡ inside → a ≡ b
  pub owned : s.locked ≡ true → (a : ℕ) × (s.place a ≡ inside)

-- What a round of the loop does, for a process that is in the queue.
attempt-cases :
    (locked : Bool) (q : List ℕ) (pid : ℕ)
    → 0 < count pid q
    → ((xs : List ℕ) × (q ≡ pid ∷ xs)
        × (locked ≡ false)
        × (attempt locked q pid ≡ ok (true, true, xs)))
      ⊎ (attempt locked q pid ≡ ok (false, locked, q))
unfolding attempt
attempt-cases locked [] pid h = absurd (omega arith)
attempt-cases locked (x ∷ xs) pid h = ground (arith, rm_queue-head x xs pid)

enqueue-Inv :
    (s : Sys) (pid : ℕ)
    → Inv s
    → s.place pid ≡ outside
    → Inv (record s { queue = add_queue s.queue pid; place = update s.place pid waiting })
enqueue-Inv s pid v e = record {
  sorted = (add_queue_lem s.queue pid pid v.sorted).0;
  queued = λ a. ground (arith, (add_queue_lem s.queue pid a v.sorted).1, v.queued a);
  held = λ a h. ground (arith, v.held a);
  unique = λ a b p q. ground (arith, v.unique a b);
  owned = λ l. let (a, h) = v.owned l in (a, ground arith);
}

unlock-Inv :
    (s : Sys) (pid : ℕ)
    → Inv s
    → s.place pid ≡ inside
    → Inv (record s { locked = false; place = update s.place pid outside })
unlock-Inv s pid v e = record {
  sorted = v.sorted;
  queued = λ a. ground (arith, v.queued a);
  held = λ a h. ground (arith, v.unique a pid);
  unique = λ a b p q. ground (arith, v.unique a b);
  owned = λ l. absurd (cc l);
}

won-Inv :
    (s : Sys) (pid : ℕ) (xs : List ℕ)
    → Inv s
    → s.place pid ≡ waiting
    → s.queue ≡ pid ∷ xs
    → s.locked ≡ false
    → Inv (record { locked = true; queue = xs; place = update s.place pid inside })
won-Inv s pid xs v e q l = record {
  sorted = (rw q at v.sorted).1;
  queued = λ a. ground (arith, rw q at (v.queued a), v.queued pid);
  held = λ a h. refl;
  unique = λ a b h k. ground (arith, v.held a, v.held b);
  owned = λ _. (pid, ground arith);
}

missed-Inv :
    (s : Sys) (pid : ℕ)
    → Inv s
    → s.place pid ≡ waiting
    → Inv (record s { place = update s.place pid waiting })
missed-Inv s pid v e = record {
  sorted = v.sorted;
  queued = λ a. ground (arith, v.queued a, ap s.place {x = a} {y = pid});
  held = λ a h. ground (arith, v.held a);
  unique = λ a b h k. ground (arith, v.unique a b);
  owned = λ l. let (a, h) = v.owned l in (a, ground (arith, ap s.place {x = a} {y = pid}));
}

try_lock-Inv :
    (s : Sys) (pid : ℕ) {won locked : Bool} {queue : List ℕ}
    → Inv s
    → s.place pid ≡ waiting
    → attempt s.locked s.queue pid ≡ ok (won, locked, queue)
    → Inv (record {
      locked = locked;
      queue = queue;
      place = update s.place pid (if won then inside else waiting);
    })
try_lock-Inv s pid {won} {locked} {queue} v e a =
    elim (attempt-cases s.locked s.queue pid (ground (arith, v.queued pid))) [
      | inl (xs, q, l, w) ↦
          let e0 : won ≡ true = ground arith in
          let e1 : locked ≡ true = ground arith in
          let e2 : queue ≡ xs = ground arith in rw (e0, e1, e2) (won-Inv s pid xs v e q l)
      | inr w ↦
          let e0 : won ≡ false = ground arith in
          let e1 : locked ≡ s.locked = ground arith in
          let e2 : queue ≡ s.queue = ground arith in rw (e0, e1, e2) (missed-Inv s pid v e)
    ]

pub Step-Inv : {s t : Sys} → Step s t → Inv s → Inv t
Step-Inv {s} (enqueue pid e) v = enqueue-Inv s pid v e
Step-Inv {s} (try_lock pid e a) v = try_lock-Inv s pid v e a
Step-Inv {s} (unlock pid e) v = unlock-Inv s pid v e

-- Every reachable state keeps the invariant.
pub Reach-Inv : {s : Sys} → Reach s → Inv s
Reach-Inv start = record {
  sorted = tt;
  queued = λ a. refl;
  held = λ a h. cc h;
  unique = λ a b h k. cc h;
  owned = λ l. absurd (cc l);
}
Reach-Inv (later r st) = Step-Inv st (Reach-Inv r)

-- At most one process is past `prior_acquire` in any reachable state, and then the lock is taken;
-- and the queue is sorted, and holds exactly the processes in the loop, each once.
pub one_inside : {s : Sys} (a b : ℕ) → Reach s → s.place a ≡ inside → s.place b ≡ inside → a ≡ b
one_inside a b r p q = (Reach-Inv r).unique a b p q

sorted-head : (a x : ℕ) (xs : List ℕ) → IsSorted (x ∷ xs) → 0 < count a (x ∷ xs) → a ≤ x
sorted-head a x [] s h = ground arith
sorted-head a x (y ∷ ys) s h = elim (Bool-cases (x == a)) [
  | inl e ↦ ground arith
  | inr ne ↦ omega (arith, s.0.0, sorted-head a y ys s.1 (ground arith))
]

-- A process that gets the lock in a reachable state has the largest pid of those in the loop.
pub largest_first :
    {s : Sys} (pid other : ℕ) {locked : Bool} {queue : List ℕ}
    → Reach s
    → s.place pid ≡ waiting
    → attempt s.locked s.queue pid ≡ ok (true, locked, queue)
    → s.place other ≡ waiting
    → other ≤ pid
largest_first {s} pid other r e a o =
    let v = Reach-Inv r in
    elim (attempt-cases s.locked s.queue pid (ground (arith, v.queued pid))) [
      | inl (xs, q, l, w) ↦
          sorted-head other pid xs (rw q at v.sorted) (ground (arith, rw q at (v.queued other)))
      | inr w ↦ absurd (ground arith)
    ]

queue-head : (a : ℕ) (q : List ℕ) → 0 < count a q → (x : ℕ) × (xs : List ℕ) × (q ≡ x ∷ xs)
queue-head a [] h = absurd (omega arith)
queue-head a (x ∷ xs) h = (x, xs, refl)

attempt-head : (x : ℕ) (xs : List ℕ) → attempt false (x ∷ xs) x ≡ ok (true, true, xs)
unfolding attempt
attempt-head x xs = ground (arith, rm_queue-head x xs x)

-- While the lock is free, the process with the largest pid in the loop gets it in its next round:
-- there is such a process in the loop whenever there is one at all.
pub no_deadlock :
    {s : Sys} (pid : ℕ)
    → Reach s
    → s.place pid ≡ waiting
    → s.locked ≡ false
    → (top : ℕ) × (s.place top ≡ waiting)
      × (pid ≤ top)
      × ((xs : List ℕ) × (attempt s.locked s.queue top ≡ ok (true, true, xs)))
no_deadlock {s} pid r e l =
    let v = Reach-Inv r in
    let (x, xs, q) = queue-head pid s.queue (ground (arith, v.queued pid)) in
    let top : 0 < waits (s.place x) = ground (arith, v.queued x, ap (count x) q) in
    (
      x,
      ground arith,
      sorted-head pid x xs (rw q at v.sorted) (ground (arith, rw q at (v.queued pid))),
      (xs, rw (q, l) (attempt-head x xs)),
    )

-- A round of the loop neither reads through a null head nor panics in `rm_queue`.
pub attempt-ok :
    {s : Sys} (pid : ℕ)
    → Reach s
    → s.place pid ≡ waiting
    → (won : Bool) × (locked : Bool) × (queue : List ℕ) × (attempt s.locked s.queue pid
        ≡ ok (won, locked, queue))
attempt-ok {s} pid r e =
    let v = Reach-Inv r in
    elim (attempt-cases s.locked s.queue pid (ground (arith, v.queued pid))) [
      | inl (xs, q, l, w) ↦ (true, true, xs, w)
      | inr w ↦ (false, s.locked, s.queue, w)
    ]
