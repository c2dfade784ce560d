-- ===== src/Fs/Bits.antt =====
-- Bytes of the free map, and numbers stored in the bytes of a block.
use Prim.Native.Nat.{bit_and, bit_or}
use native.Mathlib.Decide.{dec_lt}
use os_lab_course_project.Prelude.{
  ℕ, zero, suc, ◌+◌, ◌-◌, ◌^◌, ◌<◌, ◌≤◌, ◌≡◌, refl, ap, inl, inr, Bool-cases, Bool, true, false,
  ◌&&◌, ◌==◌, ltb, if◌then◌else◌, arith,
}

-- `(data & (1 << k)) == 0`
unfoldable pub is_clear : ℕ → ℕ → Bool
is_clear d k = bit_and d (2 ^ k) == 0

-- `data |= 1 << k`
unfoldable pub set_bit : ℕ → ℕ → ℕ
set_bit d k = bit_or d (2 ^ k)

-- `data &= ~(1 << k)`, kept to the byte that is stored.
unfoldable pub clear_bit : ℕ → ℕ → ℕ
clear_bit d k = bit_and d (255 - 2 ^ k)

-- The test holds at `r` numbers from `i` on.
every : ℕ → ℕ → (ℕ → Bool) → Bool
every zero i test = true
every (suc r) i test = let rest = every r (i + 1) test in if test i then rest else false

every_at :
    (r i : ℕ) (test : ℕ → Bool)
    → every r i test ≡ true
    → (x : ℕ) → i ≤ x
    → x < i + r
    → test x ≡ true
unfolding every
every_at zero i test h x low high = absurd (omega arith)
every_at (suc r) i test h x low high = elim (Bool-cases (test i)) [
  | inr e ↦ absurd (ground (arith, e, h))
  | inl e ↦ elim (dec_lt i x) [
    | yes l ↦ every_at r (i + 1) test (ground (arith, e, h)) x (omega arith) (omega arith)
    | no n ↦ ground (arith, e, ap test {x = i} {y = x})
  ]
]

eqb : Bool → Bool → Bool
eqb true b = b
eqb false true = false
eqb false false = true

eqb-eq : (a b : Bool) → eqb a b ≡ true → a ≡ b
unfolding eqb
eqb-eq true true h = refl
eqb-eq true false h = cc h
eqb-eq false true h = cc h
eqb-eq false false h = refl

-- All bytes and bits, checked one by one.
set_table :
    every 256 0 (λ d. every 8 0 (λ k.
      ltb (set_bit d k) 256
      && every 8 0 (λ j. eqb (is_clear (set_bit d k) j) (if j == k then false else is_clear d j))))
    ≡ true
unfolding every eqb is_clear set_bit
set_table = refl

clear_table :
    every 256 0 (λ d. every 8 0 (λ k.
      ltb (clear_bit d k) 256
      && every 8 0 (λ j. eqb (is_clear (clear_bit d k) j) (if j == k then true else is_clear d j))))
    ≡ true
unfolding every eqb is_clear clear_bit
clear_table = refl

row :
    (d k : ℕ) (p : ℕ → ℕ → Bool)
    → every 256 0 (λ x. every 8 0 (p x)) ≡ true
    → d < 256
    → k < 8
    → p d k ≡ true
row d k p t h l =
    every_at 8 0 (p d) (every_at 256 0 (λ x. every 8 0 (p x)) t d (omega arith) h) k (omega arith) l

both : (a b : Bool) → (a && b) ≡ true → (a ≡ true) × (b ≡ true)
both true b h = (refl, h)
both false b h = cc h

-- Setting bit `k` of a byte sets it and no other, and leaves a byte.
pub set_bit_lem :
    (d k j : ℕ)
    → d < 256
    → k < 8
    → j < 8
    → (set_bit d k < 256) × (is_clear (set_bit d k) j ≡ (if j == k then false else is_clear d j))
set_bit_lem d k j h l m =
    let (a, b) =
      both (ltb (set_bit d k) 256)
        (every 8 0 (λ i. eqb (is_clear (set_bit d k) i) (if i == k then false else is_clear d i)))
        (row d k
          (λ x y.
            ltb (set_bit x y) 256
            && every 8 0
                (λ i. eqb (is_clear (set_bit x y) i) (if i == y then false else is_clear x i)))
          set_table h l) in
    (
      ground arith,
      eqb-eq _ _ (
          every_at 8 0
            (λ i. eqb (is_clear (set_bit d k) i) (if i == k then false else is_clear d i)) b j
            (omega arith) m),
    )

pub clear_bit_lem :
    (d k j : ℕ)
    → d < 256
    → k < 8
    → j < 8
    → (clear_bit d k < 256) × (is_clear (clear_bit d k) j ≡ (if j == k then true else is_clear d j))
clear_bit_lem d k j h l m =
    let (a, b) =
      both (ltb (clear_bit d k) 256)
        (every 8 0 (λ i. eqb (is_clear (clear_bit d k) i) (if i == k then true else is_clear d i)))
        (row d k
          (λ x y.
            ltb (clear_bit x y) 256
            && every 8 0
                (λ i. eqb (is_clear (clear_bit x y) i) (if i == y then true else is_clear x i)))
          clear_table h l) in
    (
      ground arith,
      eqb-eq _ _ (
          every_at 8 0
            (λ i. eqb (is_clear (clear_bit d k) i) (if i == k then true else is_clear d i)) b j
            (omega arith) m),
    )
