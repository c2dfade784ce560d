-- ===== src/CString/Alike.antt =====
-- Strings that are alike up to the first NUL: `strncmp` does not tell them apart, and `strncpy` makes one.
use os_lab_course_project.Prelude.{
  ℕ, zero, suc, ◌+◌, ◌≤◌, ◌<◌, ◌≡◌, ◌⊎◌, inl, inr, refl, sym, ap, ◌∙◌, ◌==◌, Bool-cases, update,
  arith,
}
use native.Mathlib.Decide.{ℕ_discrete}
use os_lab_course_project.CString.{Memory, strncmp, zero_fill, strncpy}

-- The `n` bytes at `a` and at `b` are equal, or equal up to a NUL and with it.
abbrev pub Alike : Memory → ℕ → Memory → ℕ → ℕ → Type 0
Alike m a k b zero = Unit {0}
Alike m a k b (suc n) = (m a ≡ k b) × ((m a ≡ 0) ⊎ Alike m (a + 1) k (b + 1) n)

-- The `n` bytes at `a` and at `b` are equal.
abbrev pub Equal : Memory → ℕ → Memory → ℕ → ℕ → Type 0
Equal m a k b n = (i : ℕ) → i < n → m (a + i) ≡ k (b + i)

pub Equal-start : (m k : Memory) (a b n : ℕ) → Equal m a k b (suc n) → m a ≡ k b
Equal-start m k a b n e =
    ap m {x = a} {y = a + 0} (omega arith)
    ∙ e 0 (omega arith)
    ∙ ap k {x = b + 0} {y = b} (omega arith)

pub Equal-rest : (m k : Memory) (a b n : ℕ) → Equal m a k b (suc n) → Equal m (a + 1) k (b + 1) n
Equal-rest m k a b n e i h =
    ap m {x = a + 1 + i} {y = a + suc i} (omega arith)
    ∙ e (suc i) (omega arith)
    ∙ ap k {x = b + suc i} {y = b + 1 + i} (omega arith)

pub Alike-move :
    (n : ℕ) (m m' k k' : Memory) (a a' b b' : ℕ)
    → Equal m a m' a' n
    → Equal k b k' b' n
    → Alike m a k b n
    → Alike m' a' k' b' n
Alike-move zero m m' k k' a a' b b' e f s = tt
Alike-move (suc n) m m' k k' a a' b b' e f (same, rest) =
    let x = Equal-start m m' a a' n e in
    let y = Equal-start k k' b b' n f in
    (
      sym x ∙ same ∙ y,
      elim rest [
        | inl z ↦ inl (sym x ∙ z)
        | inr r ↦ inr (
            Alike-move n m m' k k' (a + 1) (a' + 1) (b + 1) (b' + 1) (Equal-rest m m' a a' n e)
              (Equal-rest k k' b b' n f) r)
      ],
    )

pub Equal-Alike : (n : ℕ) (m k : Memory) (a b : ℕ) → Equal m a k b n → Alike m a k b n
Equal-Alike zero m k a b e = tt
Equal-Alike (suc n) m k a b e =
    (Equal-start m k a b n e, inr (Equal-Alike n m k (a + 1) (b + 1) (Equal-rest m k a b n e)))

-- `strncmp` with a string and with one that is alike.
pub strncmp-Alike :
    (n : ℕ) (m k : Memory) (p p' q q' : ℕ)
    → Equal m p k p' n
    → Alike m q k q' n
    → strncmp m p q n ≡ strncmp k p' q' n
unfolding strncmp
strncmp-Alike zero m k p p' q q' e s = refl
strncmp-Alike (suc n) m k p p' q q' e (same, rest) =
    let x = Equal-start m k p p' n e in
    elim rest [
      | inl z ↦ ground (arith, x, same, z)
      | inr r ↦ ground (
        arith,
        x,
        same,
        strncmp-Alike n m k (p + 1) (p' + 1) (q + 1) (q' + 1) (Equal-rest m k p p' n e) r,
      )
    ]

zero_fill_below : (n s x : ℕ) (m : Memory) → x < s → zero_fill m s n x ≡ m x
unfolding zero_fill
zero_fill_below zero s x m h = refl
zero_fill_below (suc n) s x m h =
    zero_fill_below n (s + 1) x (update m s 0) (omega arith) ∙ ground arith

pub strncpy_below : (n s t x : ℕ) (m : Memory) → x < s → strncpy m s t n x ≡ m x
unfolding strncpy
strncpy_below zero s t x m h = refl
strncpy_below (suc n) s t x m h =
    let m' = update m s (m t) in
    let other : m' x ≡ m x = ground arith in
    elim (Bool-cases (m t == 0)) [
      | inl e ↦ rw (e, strncpy) (zero_fill_below n (s + 1) x m' (omega arith) ∙ other)
      | inr e ↦ rw (e, strncpy) (strncpy_below n (s + 1) (t + 1) x m' (omega arith) ∙ other)
    ]

-- `strncpy` into room apart from the source makes a string that is alike.
pub strncpy-Alike : (n s t : ℕ) (m : Memory) → s + n ≤ t → Alike (strncpy m s t n) s m t n
unfolding strncpy
strncpy-Alike zero s t m h = tt
strncpy-Alike (suc n) s t m h =
    let m' = update m s (m t) in
    let first : m' s ≡ m t = ground arith in
    elim (Bool-cases (m t == 0)) [
      | inl e ↦
          rw (e, strncpy)
            (
              zero_fill_below n (s + 1) s m' (omega arith) ∙ first,
              inl (zero_fill_below n (s + 1) s m' (omega arith) ∙ first ∙ ground arith),
            )
      | inr e ↦ (
        rw (e, strncpy) (strncpy_below n (s + 1) (t + 1) s m' (omega arith) ∙ first),
        inr (
            Alike-move n (strncpy m' (s + 1) (t + 1) n) (strncpy m s t (suc n)) m' m (s + 1) (s + 1)
              (t + 1) (t + 1) (λ i b. rw (e, strncpy) refl) (λ i b. above i)
              (strncpy-Alike n (s + 1) (t + 1) m' (omega arith))),
      )
    ]
  where
    above : (i : ℕ) → update m s (m t) (t + 1 + i) ≡ m (t + 1 + i)
    above i = ground arith

zero_fill_within : (n s x : ℕ) (m : Memory) → s ≤ x → x < s + n → zero_fill m s n x ≡ 0
unfolding zero_fill
zero_fill_within zero s x m h k = absurd (omega arith)
zero_fill_within (suc n) s x m h k = elim (ℕ_discrete x s) [
  | yes e ↦ zero_fill_below n (s + 1) x (update m s 0) (omega arith) ∙ ground arith
  | no ne ↦ zero_fill_within n (s + 1) x (update m s 0) (omega arith) (omega arith)
]

-- What `strncpy` puts are bytes if the source has bytes.
pub strncpy_bytes :
    (n s t x : ℕ) (m : Memory)
    → s + n ≤ t
    → ((y : ℕ) → t ≤ y → y < t + n → m y < 256)
    → s ≤ x
    → x < s + n
    → strncpy m s t n x < 256
unfolding strncpy
strncpy_bytes zero s t x m a h l k = absurd (omega arith)
strncpy_bytes (suc n) s t x m a h l k =
    let m' = update m s (m t) in
    let first : m' s < 256 = ground (arith, h t) in
    let above : (y : ℕ) → t + 1 ≤ y → y < t + 1 + n → m' y < 256 = λ y b c. ground (arith, h y) in
    elim (Bool-cases (m t == 0)) [
      | inl e ↦ elim (ℕ_discrete x s) [
        | yes same ↦
            rw (e, strncpy) (rw (zero_fill_below n (s + 1) x m' (omega arith)) (rw same first))
        | no ne ↦
            rw (e, strncpy)
              (rw (zero_fill_within n (s + 1) x m' (omega arith) (omega arith)) (omega arith))
      ]
      | inr e ↦ elim (ℕ_discrete x s) [
        | yes same ↦
            rw (e, strncpy)
              (rw (strncpy_below n (s + 1) (t + 1) x m' (omega arith)) (rw same first))
        | no ne ↦
            rw (e, strncpy)
              (strncpy_bytes n (s + 1) (t + 1) x m' (omega arith) above (omega arith) (omega arith))
      ]
    ]
