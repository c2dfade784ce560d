-- ===== src/Ptable/Scan.antt =====
-- `for (p = ptable.proc; p < &ptable.proc[NPROC]; p++) if (test) goto found;`
use os_lab_course_project.Prelude.{
  ℕ, zero, suc, ◌+◌, ◌≤◌, ◌<◌, ◌≡◌, refl, ◌⊎◌, inl, inr, Bool, true, false, if◌then◌else◌, Option,
  none, some, arith, Bool-cases, ap, sym, ◌∙◌,
}

-- The first slot from `i` on, of `r`, that passes the test.
unfoldable pub scan : (ℕ → Bool) → ℕ → ℕ → Option ℕ
scan test zero i = none
scan test (suc r) i = let rest = scan test r (i + 1) in if test i then some i else rest

-- The first slot that passes, or that none does.
pub scan-cases :
    (test : ℕ → Bool) (r i : ℕ)
    → ((k : ℕ) × (scan test r i ≡ some k)
        × (i ≤ k)
        × (k < i + r)
        × (test k ≡ true)
        × ((j : ℕ) → i ≤ j → j < k → test j ≡ false))
      ⊎ ((scan test r i ≡ none) × ((j : ℕ) → i ≤ j → j < i + r → test j ≡ false))
unfolding scan
scan-cases test zero i = inr (refl, λ j p q. absurd (omega arith))
scan-cases test (suc r) i = elim (Bool-cases (test i)) [
  | inl e ↦ inl (i, ground arith, omega arith, omega arith, e, λ j p q. absurd (omega arith))
  | inr e ↦ elim (scan-cases test r (i + 1)) [
    | inl (k, s, p, q, h, out) ↦ inl (
      k,
      ground arith,
      omega arith,
      omega arith,
      h,
      λ j u v. ground (arith, out j, ap test {x = i} {y = j}),
    )
    | inr (s, out) ↦ inr (ground arith, λ j u v. ground (arith, out j, ap test {x = i} {y = j}))
  ]
]

pub scan_first :
    (test : ℕ → Bool) (r k : ℕ)
    → k < r
    → test k ≡ true
    → ((j : ℕ) → j < k → test j ≡ false)
    → scan test r 0 ≡ some k
scan_first test r k h hit out = elim (scan-cases test r 0) [
  | inr (e, none_left) ↦ absurd (ground (arith, none_left k (omega arith) (omega arith), hit))
  | inl (i, e, p, q, there, before) ↦
      let same : i ≡ k = ground (arith, before k, out i, hit, there) in e ∙ ap some same
]

pub scan-none :
    (test : ℕ → Bool) (r : ℕ) → ((j : ℕ) → j < r → test j ≡ false) → scan test r 0 ≡ none
scan-none test r out = elim (scan-cases test r 0) [
  | inr (e, none_left) ↦ e
  | inl (i, e, p, q, there, before) ↦ absurd (ground (arith, out i, there))
]

-- The slot that is found is in range, and passes.
pub scan-some : (test : ℕ → Bool) (r k : ℕ) → scan test r 0 ≡ some k → (k < r) × (test k ≡ true)
scan-some test r k e = elim (scan-cases test r 0) [
  | inr (f, none_left) ↦ absurd (cc)
  | inl (i, f, p, q, there, before) ↦
      let same : i ≡ k = cc in (omega arith, ap test (sym same) ∙ there)
]
