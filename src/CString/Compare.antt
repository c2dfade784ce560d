-- ===== src/CString/Compare.antt =====
-- `memcmp`, `strncmp` and `strlen`: the first place that decides.
use os_lab_course_project.Prelude.{
  ℕ, zero, suc, ◌+◌, ◌<◌, ◌≡◌, ◌≢◌, refl, ◌⊎◌, inl, inr, Bool-cases, not, ◌&&◌, ◌==◌, ap, arith,
  ◌∙◌, none, some,
}
use os_lab_course_project.CString.{Memory, memcmp, strncmp, strlen}

-- The first `k` bytes at `p` and at `q` are the same.
abbrev pub Same : Memory → ℕ → ℕ → ℕ → Type 0
Same m p q k = (i : ℕ) → i < k → m (p + i) ≡ m (q + i)

abbrev pub NoNul : Memory → ℕ → ℕ → Type 0
NoNul m p k = (i : ℕ) → i < k → m (p + i) ≢ 0

shift : (m : Memory) (p i : ℕ) → m (p + suc i) ≡ m (p + 1 + i)
shift m p i = ap m (omega arith)

start : (m : Memory) (p : ℕ) → m (p + 0) ≡ m p
start m p = ap m (omega arith)

Same-suc : (m : Memory) (p q k : ℕ) → m p ≡ m q → Same m (p + 1) (q + 1) k → Same m p q (suc k)
Same-suc m p q k e h zero l = start m p ∙ ground (arith, start m q)
Same-suc m p q k e h (suc i) l = ground (arith, shift m p i, shift m q i, h i)

NoNul-suc : (m : Memory) (p k : ℕ) → m p ≢ 0 → NoNul m (p + 1) k → NoNul m p (suc k)
NoNul-suc m p k e h zero l = ground (arith, start m p)
NoNul-suc m p k e h (suc i) l = ground (arith, shift m p i, h i)

-- `memcmp` returns 0 only after `n` equal bytes, and otherwise the difference of the first two
-- bytes that differ.
pub memcmp_lem :
    (m : Memory) (n p q : ℕ)
    → ((memcmp m p q n ≡ none) × Same m p q n)
      ⊎ ((k : ℕ) × (k < n)
          × (memcmp m p q n ≡ some (m (p + k), m (q + k)))
          × Same m p q k
          × (m (p + k) ≢ m (q + k)))
unfolding memcmp
memcmp_lem m zero p q = inl (refl, λ i h. absurd (omega arith))
memcmp_lem m (suc n) p q = elim (Bool-cases (m p == m q)) [
  | inr ne ↦ inr (
    0,
    omega arith,
    ground (arith, start m p, start m q),
    (λ i h. absurd (omega arith)),
    ground (arith, start m p, start m q),
  )
  | inl e ↦ elim (memcmp_lem m n (p + 1) (q + 1)) [
    | inl (r, same) ↦ inl (ground arith, Same-suc m p q n (ground arith) same)
    | inr (k, l, r, same, ne) ↦ inr (
      suc k,
      omega arith,
      ground (arith, shift m p k, shift m q k),
      Same-suc m p q k (ground arith) same,
      ground (arith, shift m p k, shift m q k),
    )
  ]
]

-- `strncmp` returns 0 at once only after `n` equal bytes with no NUL among them, and otherwise the
-- difference at the first place where the bytes differ or the first string ends.
pub strncmp_lem :
    (m : Memory) (n p q : ℕ)
    → ((strncmp m p q n ≡ none) × Same m p q n × NoNul m p n)
      ⊎ ((k : ℕ) × (k < n)
          × (strncmp m p q n ≡ some (m (p + k), m (q + k)))
          × Same m p q k
          × NoNul m p k
          × ((m (p + k) ≡ 0) ⊎ (m (p + k) ≢ m (q + k))))
unfolding strncmp
strncmp_lem m zero p q = inl (refl, (λ i h. absurd (omega arith)), λ i h. absurd (omega arith))
strncmp_lem m (suc n) p q = elim (Bool-cases (not (m p == 0) && m p == m q)) [
  | inr stop ↦ inr (
    0,
    omega arith,
    ground (arith, start m p, start m q),
    (λ i h. absurd (omega arith)),
    (λ i h. absurd (omega arith)),
    ground (arith, start m p, start m q),
  )
  | inl go ↦ elim (strncmp_lem m n (p + 1) (q + 1)) [
    | inl (r, same, full) ↦
        inl
          (ground arith, Same-suc m p q n (ground arith) same, NoNul-suc m p n (ground arith) full)
    | inr (k, l, r, same, full, end) ↦ inr (
      suc k,
      omega arith,
      ground (arith, shift m p k, shift m q k),
      Same-suc m p q k (ground arith) same,
      NoNul-suc m p k (ground arith) full,
      ground (arith, shift m p k, shift m q k),
    )
  ]
]

-- With more fuel than the place `n` of the first NUL, `strlen` returns `n`.
pub strlen_lem :
    (fuel : ℕ) (m : Memory) (s n : ℕ)
    → n < fuel
    → NoNul m s n
    → m (s + n) ≡ 0
    → strlen fuel m s ≡ some n
unfolding strlen
strlen_lem zero m s n h full e = absurd (omega arith)
strlen_lem (suc fuel) m s zero h full e = ground (arith, start m s)
strlen_lem (suc fuel) m s (suc n) h full e = ground (
  arith,
  full 0 (omega arith),
  start m s,
  strlen_lem fuel m (s + 1) n (omega arith) (λ i l. ground (arith, full (suc i), shift m s i)),
  shift m s n,
)
