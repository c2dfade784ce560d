-- ===== src/Prelude/Sums.antt =====
-- Sums of a list of numbers, and the removal of one element.
use Prim.Native.Nat.{ℕ, zero, suc, ◌+◌}
use mathlib.Core.Path.{◌≡◌, refl}
use mathlib.Core.List.{List, [], ◌∷◌}
use mathlib.Core.Option.{some}
use native.Mathlib.Omega.{arith}
use os_lab_course_project.Prelude.Lists.{length, get_elem?, set, All}

abbrev pub sum : List ℕ → ℕ
sum [] = 0
sum (x ∷ xs) = x + sum xs

abbrev pub remove_at {ℓ} : {A : Type ℓ} → List A → ℕ → List A
remove_at [] i = []
remove_at (x ∷ xs) zero = xs
remove_at (x ∷ xs) (suc i) = x ∷ remove_at xs i

pub sum-set :
    (xs : List ℕ) (i p q : ℕ) → get_elem? xs i ≡ some p → sum (set xs i q) + p ≡ sum xs + q
sum-set [] i p q h = ground arith
sum-set (x ∷ xs) zero p q h = ground arith
sum-set (x ∷ xs) (suc i) p q h = omega (arith, sum-set xs i p q h)

pub sum-remove_at :
    (xs : List ℕ) (i p : ℕ) → get_elem? xs i ≡ some p → sum (remove_at xs i) + p ≡ sum xs
sum-remove_at [] i p h = ground arith
sum-remove_at (x ∷ xs) zero p h = ground arith
sum-remove_at (x ∷ xs) (suc i) p h = omega (arith, sum-remove_at xs i p h)

pub length-remove_at :
    (xs : List ℕ) (i p : ℕ) → get_elem? xs i ≡ some p → length (remove_at xs i) + 1 ≡ length xs
length-remove_at [] i p h = ground arith
length-remove_at (x ∷ xs) zero p h = omega arith
length-remove_at (x ∷ xs) (suc i) p h = omega (arith, length-remove_at xs i p h)

module _ {κ} (P : ℕ → Type κ) where
  pub All-get_elem? : (xs : List ℕ) (i : ℕ) {p : ℕ} → All P xs → get_elem? xs i ≡ some p → P p
  All-get_elem? [] i a h = absurd (ground arith)
  All-get_elem? (x ∷ xs) zero a h = ground arith
  All-get_elem? (x ∷ xs) (suc i) a h = All-get_elem? xs i a.1 h

  pub All-set : (xs : List ℕ) (i q : ℕ) → All P xs → P q → All P (set xs i q)
  All-set [] i q a h = tt
  All-set (x ∷ xs) zero q a h = (h, a.1)
  All-set (x ∷ xs) (suc i) q a h = (a.0, All-set xs i q a.1 h)

  pub All-remove_at : (xs : List ℕ) (i : ℕ) → All P xs → All P (remove_at xs i)
  All-remove_at [] i a = tt
  All-remove_at (x ∷ xs) zero a = a.1
  All-remove_at (x ∷ xs) (suc i) a = (a.0, All-remove_at xs i a.1)

pub nil_of_length {ℓ} : {A : Type ℓ} (xs : List A) → length xs ≡ 0 → xs ≡ []
nil_of_length [] h = refl
nil_of_length (x ∷ xs) h = absurd (omega arith)
