-- ===== src/CString/Copy.antt =====
-- `safestrcpy` terminates what it copies.
use os_lab_course_project.Prelude.{
  ℕ, zero, suc, ◌+◌, ◌^◌, ◌≤◌, ◌<◌, ◌≡◌, ◌≢◌, ◌⊎◌, inl, inr, Bool-cases, ◌==◌, update, ap, arith,
  ◌∙◌, lt→ltb,
}
use os_lab_course_project.CString.{Memory, safe_copy, safestrcpy}
use os_lab_course_project.CString.Compare.{}

-- At `s` there are `k` bytes and a NUL, which fit into `n` bytes; the bytes are the first `k` at `t`
-- before the copy, and what stood there next was a NUL unless the room was used up. No byte outside
-- the `n` at `s` has changed.
pub record Copied (m m' : Memory) (s t n : ℕ) : Type 0 where
  pub count : ℕ
  pub fits : count < n
  pub bytes : (i : ℕ) → i < count → (m' (s + i) ≡ m (t + i)) × (m (t + i) ≢ 0)
  pub nul : m' (s + count) ≡ 0
  pub whole : (m (t + count) ≡ 0) ⊎ (count + 1 ≡ n)
  pub others : (x : ℕ) → (x < s) ⊎ (s + n ≤ x) → m' x ≡ m x

-- The source and the room for the copy do not overlap.
abbrev pub Apart : ℕ → ℕ → ℕ → Type 0
Apart s t n = (t + n ≤ s) ⊎ (s + n ≤ t)

-- The bytes of a copy that goes on behind its first byte.
bytes-suc :
    (m m' : Memory) (s t n : ℕ)
    → Apart s t (suc (suc n))
    → m t ≢ 0
    → (c : Copied (update m s (m t)) m' (s + 1) (t + 1) (suc n)) → (i : ℕ) → i < suc c.count
    → (m' (s + i) ≡ m (t + i)) × (m (t + i) ≢ 0)
bytes-suc m m' s t n a e c zero h =
    ground (arith, c.others s (omega arith), ap m' {x = s + 0} {y = s}, ap m {x = t + 0} {y = t})
bytes-suc m m' s t n a e c (suc i) h = ground (
  arith,
  c.bytes i (omega arith),
  c.fits,
  ap m' {x = s + suc i} {y = s + 1 + i},
  ap m {x = t + suc i} {y = t + 1 + i},
)

safe_copy-Copied :
    (n : ℕ) (m : Memory) (s t : ℕ)
    → Apart s t (suc n)
    → Copied m (safe_copy m s t (suc n)) s t (suc n)
unfolding safe_copy
safe_copy-Copied zero m s t a = record {
  count = 0;
  fits = omega arith;
  bytes = λ i h. absurd (omega arith);
  nul = ground arith;
  whole = inr (omega arith);
  others = λ x h. ground arith;
}
safe_copy-Copied (suc n) m s t a = elim (Bool-cases (m t == 0)) [
  | inl e ↦ rw e (record {
    count = 0;
    fits = omega arith;
    bytes = λ i h. absurd (omega arith);
    nul = ground (arith, ap m {x = t} {y = s + 0});
    whole = inl (ground (arith, ap m {x = t + 0} {y = t}));
    others = λ x h. ground arith;
  })
  | inr e ↦
      let m1 = update m s (m t) in
      let c = safe_copy-Copied n m1 (s + 1) (t + 1) (omega arith) in
      rw e (record {
        count = suc c.count;
        fits = omega (arith, c.fits);
        bytes = bytes-suc m (safe_copy m1 (s + 1) (t + 1) (suc n)) s t n a (ground arith) c;
        nul =
            ap (safe_copy m1 (s + 1) (t + 1) (suc n)) {x = s + suc c.count} {y = s + 1 + c.count}
              (omega arith)
            ∙ c.nul;
        whole = ground (arith, c.whole, ap m {x = t + suc c.count} {y = t + 1 + c.count}, c.fits);
        others = λ x h. ground (arith, c.others x);
      })
]

-- `safestrcpy` of a positive count into room that does not overlap the source: see `Copied`.
pub safestrcpy-Copied :
    (n : ℕ) (m : Memory) (s t : ℕ)
    → suc n < 2 ^ 31
    → Apart s t (suc n)
    → Copied m (safestrcpy m s t (suc n)) s t (suc n)
unfolding safestrcpy
safestrcpy-Copied n m s t h a = rw (lt→ltb _ _ h) (safe_copy-Copied n m s t a)
