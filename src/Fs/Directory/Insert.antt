-- ===== src/Fs/Directory/Insert.antt =====
-- What one more entry makes of the first that passes a test.
use os_lab_course_project.Prelude.{
  ℕ, ◌+◌, ◌<◌, ◌≤◌, ◌≡◌, ◌≢◌, ◌∙◌, ap, inl, inr, sym, ltb, if◌then◌else◌, Bool, true, false, arith,
  none, some,
}
use native.Mathlib.Decide.{ℕ_discrete}
use os_lab_course_project.Ptable.Scan.{scan, scan-cases, scan_first, scan-none}

-- Entry `j`, one of the `n` or the next, is made anew.
module _ (before after : ℕ → Bool) (n j : ℕ) (inside : j ≤ n)
    (others : (k : ℕ) → k < n → k ≢ j → after k ≡ before k) where
  abbrev count : ℕ
  count = if ltb n (j + 1) then j + 1 else n

  pub scan_inserted : scan before n 0 ≡ none → after j ≡ true → scan after count 0 ≡ some j
  scan_inserted none_before hit = elim (scan-cases before n 0) [
    | inl (k, e, p, q, there, out) ↦ absurd (cc)
    | inr (e, out) ↦
        scan_first after count j (ground arith) hit
          (λ k h. others k (omega arith) (omega arith) ∙ out k (omega arith) (omega arith))
  ]

  pub scan_kept :
      after j ≡ false → (j < n → before j ≡ false) → scan after count 0 ≡ scan before n 0
  scan_kept miss was = elim (scan-cases before n 0) [
    | inl (k, e, p, q, hit, out) ↦
        let apart : k ≢ j = ground (arith, was) in
        scan_first after count k (ground arith) (others k (omega arith) apart ∙ hit)
          (λ i h. passed out i (omega arith) (omega arith))
        ∙ sym e
    | inr (e, out) ↦
        scan-none after count (λ i h. elim (ℕ_discrete i j) [
          | yes same ↦ ground (arith, same)
          | no ne ↦ passed out i (ground arith) (ground arith)
        ])
        ∙ sym e
  ]
    where
      passed :
          {k : ℕ}
          → ((i : ℕ) → 0 ≤ i → i < k → before i ≡ false)
          → (i : ℕ) → i < k
          → i < n
          → after i ≡ false
      passed out i h l = elim (ℕ_discrete i j) [
        | yes same ↦ ap after same ∙ miss
        | no ne ↦ others i l ne ∙ out i (omega arith) h
      ]
