-- ===== src/Priority/Order.antt =====
-- The queue is kept from the largest pid to the smallest, and loses none.
use os_lab_course_project.Prelude.{
  ℕ, ◌+◌, ◌≤◌, ◌<◌, ◌≡◌, refl, ◌==◌, ltb, if◌then◌else◌, List, [], ◌∷◌, ok, panic, All, arith, inl,
  inr, Bool-cases, ◌≢◌,
}
use os_lab_course_project.Priority.Queue.{add_after, add_queue, rm_after, rm_queue}

abbrev pub count : ℕ → List ℕ → ℕ
count a [] = 0
count a (x ∷ xs) = (if x == a then 1 else 0) + count a xs

abbrev pub IsSorted : List ℕ → Type 0
IsSorted [] = Unit
IsSorted (x ∷ xs) = All (λ y. y ≤ x) xs × IsSorted xs

All-add_after :
    (m : ℕ) (xs : List ℕ) (pid : ℕ)
    → All (λ y. y ≤ m) xs
    → pid ≤ m
    → All (λ y. y ≤ m) (add_after xs pid)
unfolding add_after
All-add_after m [] pid a h = (h, tt)
All-add_after m (x ∷ xs) pid a h = ground (arith, All-add_after m xs pid a.1 h)

All-le : (m n : ℕ) (xs : List ℕ) → m ≤ n → All (λ y. y ≤ m) xs → All (λ y. y ≤ n) xs
All-le m n [] h a = tt
All-le m n (x ∷ xs) h a = (omega arith, All-le m n xs h a.1)

add_after-IsSorted : (xs : List ℕ) (pid : ℕ) → IsSorted xs → IsSorted (add_after xs pid)
unfolding add_after
add_after-IsSorted [] pid s = (tt, tt)
add_after-IsSorted (x ∷ xs) pid s = elim (Bool-cases (ltb pid x)) [
  | inl e ↦ rw e (All-add_after x xs pid s.0 (ground arith), add_after-IsSorted xs pid s.1)
  | inr e ↦ rw e ((ground arith, All-le x pid xs (ground arith) s.0), s)
]

count-add_after :
    (xs : List ℕ) (pid a : ℕ)
    → count a (add_after xs pid) ≡ (if pid == a then 1 else 0) + count a xs
unfolding add_after
count-add_after [] pid a = refl
count-add_after (x ∷ xs) pid a = ground (arith, count-add_after xs pid a)

-- Whatever pid is added to a sorted queue, the queue stays sorted, and holds that pid once more and
-- every other as often as before.
pub add_queue_lem :
    (xs : List ℕ) (pid a : ℕ)
    → IsSorted xs
    → IsSorted (add_queue xs pid)
      × (count a (add_queue xs pid) ≡ (if pid == a then 1 else 0) + count a xs)
unfolding add_queue
add_queue_lem [] pid a s = ((tt, tt), refl)
add_queue_lem (x ∷ xs) pid a s = elim (Bool-cases (ltb x pid)) [
  | inl e ↦ rw e (((ground arith, All-le x pid xs (ground arith) s.0), s), refl)
  | inr e ↦ rw e (
    (All-add_after x xs pid s.0 (ground arith), add_after-IsSorted xs pid s.1),
    ground (arith, count-add_after xs pid a),
  )
]

pub record Removed (xs ys : List ℕ) (pid : ℕ) : Type 0 where
  pub counts : (a : ℕ) → count a ys + (if pid == a then 1 else 0) ≡ count a xs
  pub below : (m : ℕ) → All (λ y. y ≤ m) xs → All (λ y. y ≤ m) ys
  pub sorted : IsSorted xs → IsSorted ys

Removed-head : (x : ℕ) (xs : List ℕ) (pid : ℕ) → x ≡ pid → Removed (x ∷ xs) xs pid
Removed-head x xs pid e = record {
  counts = λ a. ground arith;
  below = λ m h. h.1;
  sorted = λ h. h.1;
}

Removed-cons :
    (x : ℕ) {xs ys : List ℕ} {pid : ℕ} → Removed xs ys pid → Removed (x ∷ xs) (x ∷ ys) pid
Removed-cons x r = record {
  counts = λ a. omega (arith, r.counts a);
  below = λ m h. (h.0, r.below m h.1);
  sorted = λ h. (r.below x h.0, r.sorted h.1);
}

rm_after-Removed :
    (xs : List ℕ) (pid : ℕ)
    → 0 < count pid xs
    → (ys : List ℕ) × (rm_after xs pid ≡ ok ys) × Removed xs ys pid
unfolding rm_after
rm_after-Removed [] pid h = absurd (omega arith)
rm_after-Removed (x ∷ xs) pid h = elim (Bool-cases (x == pid)) [
  | inl e ↦ (xs, ground arith, Removed-head x xs pid (ground arith))
  | inr ne ↦
      let (ys, e, r) = rm_after-Removed xs pid (ground arith) in
      (x ∷ ys, ground arith, Removed-cons x r)
]

-- If a pid is in the queue, then `rm_queue` of it does not panic, takes it out once, leaves every
-- other as often as it was, and leaves a sorted queue sorted.
pub rm_queue_lem :
    (xs : List ℕ) (pid : ℕ)
    → 0 < count pid xs
    → (ys : List ℕ) × (rm_queue xs pid ≡ ok ys) × Removed xs ys pid
unfolding rm_queue rm_after
rm_queue_lem [] pid h = absurd (omega arith)
rm_queue_lem (x ∷ xs) pid h = rm_after-Removed (x ∷ xs) pid h

rm_after-absent :
    (xs : List ℕ) (pid : ℕ) → count pid xs ≡ 0 → rm_after xs pid ≡ panic "not found in queu!\n"
unfolding rm_after
rm_after-absent [] pid h = refl
rm_after-absent (x ∷ xs) pid h = ground (arith, rm_after-absent xs pid)

-- If a pid is not in the queue, then `rm_queue` of it panics.
pub rm_queue-absent :
    (xs : List ℕ) (pid : ℕ) (ys : List ℕ) → count pid xs ≡ 0 → rm_queue xs pid ≢ ok ys
unfolding rm_queue
rm_queue-absent [] pid ys h e = cc
rm_queue-absent (x ∷ xs) pid ys h e = ground (arith, rm_after-absent xs pid)

pub rm_queue-head : (x : ℕ) (xs : List ℕ) (pid : ℕ) → x ≡ pid → rm_queue (x ∷ xs) pid ≡ ok xs
unfolding rm_queue
rm_queue-head x xs pid e = ground arith
