-- ===== src/Icache/Lookup.antt =====
-- What the loop of `iget` finds.
use mathlib.Core.Path.{subst}
use native.Mathlib.Decide.{ℕ_discrete}
use os_lab_course_project.Prelude.{
  ℕ, zero, suc, ◌+◌, ◌≤◌, ◌<◌, ◌≡◌, ◌∙◌, ◌==◌, ◌⊎◌, inl, inr, refl, true, false, Option, none, some,
  arith, Bool-cases,
}
use os_lab_course_project.Icache.{Cache, cached, missing, is_entry, remember, look_up}

-- Slot `k` is from `i` on, of `r`.
abbrev Within : ℕ → ℕ → ℕ → Type 0
Within i r k = (i ≤ k) × (k < i + r)

-- The slot that is remembered is empty.
abbrev IsSpot : Cache → ℕ → ℕ → Option ℕ → Option ℕ → Type 0
IsSpot t i r old spot = (spot ≡ old) ⊎ ((k : ℕ) × (spot ≡ some k) × Within i r k × ((t k).ref ≡ 0))

remember-cases :
    (t : Cache) (i r : ℕ) (old : Option ℕ) → IsSpot t i (suc r) old (remember old i (t i))
remember-cases t i r (some k) = inl refl
remember-cases t i r none = elim (Bool-cases ((t i).ref == 0)) [
  | inl e ↦ inr (i, rw e, (omega arith, omega arith), ground arith)
  | inr e ↦ inl (rw e)
]

IsSpot-later :
    (t : Cache) (i r : ℕ) (old spot : Option ℕ)
    → IsSpot t (i + 1) r (remember old i (t i)) spot
    → IsSpot t i (suc r) old spot
IsSpot-later t i r old spot (inr (k, e, (p, q), z)) = inr (k, e, (omega arith, omega arith), z)
IsSpot-later t i r old spot (inl e) = elim (remember-cases t i r old) [
  | inl f ↦ inl (e ∙ f)
  | inr (k, f, w, z) ↦ inr (k, e ∙ f, w, z)
]

-- It stops at an entry of the inode; or no slot has one, and the slot that it remembers is empty.
pub look_up-cases :
    (dev inum : ℕ) (t : Cache) (r i : ℕ) (old : Option ℕ)
    → ((k : ℕ) × (look_up dev inum t r i old ≡ cached k)
        × Within i r k
        × (is_entry dev inum (t k) ≡ true))
      ⊎ ((spot : Option ℕ) × (look_up dev inum t r i old ≡ missing spot)
          × IsSpot t i r old spot
          × ((k : ℕ) → Within i r k → is_entry dev inum (t k) ≡ false))
unfolding look_up
look_up-cases dev inum t zero i old = inr (old, refl, inl refl, λ k w. absurd (omega (arith, w)))
look_up-cases dev inum t (suc r) i old = elim (Bool-cases (is_entry dev inum (t i))) [
  | inl e ↦ inl (i, rw e, (omega arith, omega arith), e)
  | inr e ↦ elim (look_up-cases dev inum t r (i + 1) (remember old i (t i))) [
    | inl (k, f, (p, q), m) ↦ inl (k, rw (e, f), (omega arith, omega arith), m)
    | inr (spot, f, s, all) ↦ inr (
      spot,
      rw (e, f),
      IsSpot-later t i r old spot s,
      λ k w. elim (ℕ_discrete i k) [
        | yes same ↦ subst (λ (j : ℕ). is_entry dev inum (t j) ≡ false) same e
        | no other ↦ all k (omega (arith, w), omega (arith, w))
      ],
    )
  ]
]
