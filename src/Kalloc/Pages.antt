-- ===== src/Kalloc/Pages.antt =====
-- What is on the free list.
use os_lab_course_project.Prelude.{
  IsIn, ℕ, zero, suc, ◌+◌, ◌-◌, ◌%◌, ◌/◌, ◌^◌, ◌≤◌, ◌<◌, ◌≡◌, ◌≢◌, refl, ◌↔◌, ◌⊎◌, inl, inr, not,
  ◌||◌, ◌==◌, ltb, leb, arith, none, some, List, [], ◌∷◌, ok, panic, add32, All, Bool-cases,
}
use native.Mathlib.Decide.{ℕ_discrete}
use os_lab_course_project.Kalloc.{
  pgsize, kernbase, phystop, v2p, pgroundup, kfree, kalloc, free_from, freerange,
}

-- A page of memory that the kernel may hand out.
pub record IsPage (end v : ℕ) : Type 0 where
  pub aligned : v % pgsize ≡ 0
  pub above : end ≤ v
  pub physical : v2p v < phystop

abbrev pub NotIn : ℕ → List ℕ → Type 0
NotIn a [] = Unit
NotIn a (x ∷ xs) = (x ≢ a) × NotIn a xs

-- The free list holds pages, each once.
abbrev pub IsFree : ℕ → List ℕ → Type 0
IsFree end [] = Unit
IsFree end (x ∷ xs) = IsPage end x × NotIn x xs × IsFree end xs

-- The page at `v` lies whole in the range from `p` to `vend`.
abbrev pub IsWhole : ℕ → ℕ → ℕ → Type 0
IsWhole p vend v = (v % pgsize ≡ 0) × (p ≤ v) × (v + pgsize ≤ vend)

-- `kfree` panics exactly on an address that is no page; a page is put on the list, and if it was not
-- on it, the list stays one of pages, each once; and `kalloc` gives that page back next.
pub kfree_lem :
    (end v : ℕ) (l : List ℕ)
    → IsFree end l
    → NotIn v l
    → ((kfree end l v ≡ panic "kfree") × ¬ IsPage end v)
      ⊎ ((kfree end l v ≡ ok (v ∷ l)) × IsFree end (v ∷ l) × (kalloc (v ∷ l) ≡ (some v, l)))
unfolding kfree kalloc
kfree_lem end v l f n =
    elim (Bool-cases (not (v % pgsize == 0) || ltb v end || leb phystop (v2p v))) [
      | inl bad ↦ inl (rw (bad, kfree), λ p. ground (arith, p.aligned, p.above, p.physical))
      | inr good ↦
          let page : IsPage end v = record {
            aligned = ground arith;
            above = ground arith;
            physical = ground arith;
          } in
          inr (rw (good, kfree), (page, n, f), refl)
    ]

-- `kalloc` hands out a page that is then no longer on the list, or the list is empty.
pub kalloc_lem :
    (end : ℕ) (l : List ℕ)
    → IsFree end l
    → ((l ≡ []) × (kalloc l ≡ (none, [])))
      ⊎ ((v : ℕ) × (rest : List ℕ) × (kalloc l ≡ (some v, rest))
          × IsPage end v
          × NotIn v rest
          × IsFree end rest)
unfolding kalloc
kalloc_lem end [] f = inl (refl, refl)
kalloc_lem end (x ∷ xs) f = inr (x, xs, refl, f.0, f.1, f.2)

kfree-page : (end v : ℕ) (l : List ℕ) → IsPage end v → kfree end l v ≡ ok (v ∷ l)
unfolding kfree
kfree-page end v l p = ground (arith, p.aligned, p.above, p.physical)

NotIn-above : (p : ℕ) (l : List ℕ) → All (λ x. x < p) l → NotIn p l
NotIn-above p [] a = tt
NotIn-above p (x ∷ xs) a = (ground (arith, a.0), NotIn-above p xs a.1)

All-lt : (p q : ℕ) (l : List ℕ) → p ≤ q → All (λ x. x < p) l → All (λ x. x < q) l
All-lt p q [] h a = tt
All-lt p q (x ∷ xs) h a = (omega (arith, a.0), All-lt p q xs h a.1)

-- The range lies in the physical memory above the kernel, and starts at a page.
record InRange (end vend p : ℕ) : Type 0 where
  aligned : p % pgsize ≡ 0
  above : (end ≤ p) × (kernbase ≤ p)
  below : (p ≤ kernbase + phystop) × (vend ≤ kernbase + phystop)

no_more : (p vend v : ℕ) (A : Type 0) → vend < p + pgsize → A ↔ (A ⊎ IsWhole p vend v)
no_more p vend v A h =
    (λ m. inl m, λ k. elim k [ inl m ↦ m | inr w ↦ absurd (omega (arith, w.1, w.2)) ])

-- The page at `p` is put on the list, and the range goes on behind it.
one_more :
    (p q vend v : ℕ) (A B : Type 0)
    → q ≡ p + pgsize
    → p + pgsize ≤ vend
    → p % pgsize ≡ 0
    → A ↔ (((p ≡ v) ⊎ B) ⊎ IsWhole q vend v)
    → A ↔ (B ⊎ IsWhole p vend v)
one_more p q vend v A B e h al m = (
  λ a. elim (m.0 a) [
    | inl (inl same) ↦ inr (ground (arith, same), omega (arith, same), omega (arith, same))
    | inl (inr b) ↦ inl b
    | inr w ↦ inr (w.0, omega (arith, w.1), w.2)
  ],
  λ k. elim k [
    | inl b ↦ m.1 (inl (inr b))
    | inr w ↦ elim (ℕ_discrete p v) [
      | yes same ↦ m.1 (inl (inl same))
      | no ne ↦ m.1 (inr (w.0, omega (arith, w.0, w.1), w.2))
    ]
  ],
)

free_from-ok :
    (end vend fuel : ℕ) (l : List ℕ) (p : ℕ)
    → InRange end vend p
    → IsFree end l
    → All (λ x. x < p) l
    → (vend - p) / pgsize ≤ fuel
    → (l' : List ℕ) × (free_from end vend fuel l p ≡ ok l')
      × IsFree end l'
      × ((v : ℕ) → IsIn v l' ↔ (IsIn v l ⊎ IsWhole p vend v))
unfolding free_from
free_from-ok end vend zero l p r f a h =
    (l, refl, f, λ v. no_more p vend v (IsIn v l) (omega (arith, h, r.aligned)))
free_from-ok end vend (suc fuel) l p r f a h = elim (Bool-cases (leb (add32 p pgsize) vend)) [
  | inr stop ↦ (
    l,
    rw (stop, free_from),
    f,
    λ v. no_more p vend v (IsIn v l) (ground (arith, r.below, r.above)),
  )
  | inl go ↦
      let page : IsPage end p = record {
        aligned = r.aligned;
        above = r.above.0;
        physical = ground (arith, r.below, r.above);
      } in
      let next : InRange end vend (add32 p pgsize) = record {
        aligned = ground (arith, r.aligned, r.below);
        above = ground (arith, r.above, r.below);
        below = ground (arith, r.below);
      } in
      let (l', e, f', members) =
        free_from-ok end vend fuel (p ∷ l) (add32 p pgsize) next (page, NotIn-above p l a, f)
          (ground (arith, r.below), All-lt p (add32 p pgsize) l (ground (arith, r.below)) a)
          (ground (arith, r.below)) in
      let step : add32 p pgsize ≡ p + pgsize = ground (arith, r.below) in
      let inside : p + pgsize ≤ vend = ground arith in
      (
        l',
        rw (go, kfree-page end p l page) e,
        f',
        λ v.
            one_more p (add32 p pgsize) vend v (IsIn v l') (IsIn v l) step inside r.aligned
              (members v),
      )
]

-- `freerange` from an address above the kernel's end to one inside the physical memory does not
-- panic, and leaves on an empty list exactly the pages that lie whole in the range, each once.
pub freerange_lem :
    (end vstart vend : ℕ)
    → end ≤ vstart
    → kernbase ≤ vstart
    → vstart ≤ kernbase + phystop
    → vend ≤ kernbase + phystop
    → (l : List ℕ) × (freerange end [] vstart vend ≡ ok l)
      × IsFree end l
      × ((v : ℕ) → IsIn v l ↔ IsWhole vstart vend v)
unfolding freerange
freerange_lem end vstart vend a b c d =
    let (l, e, f, members) =
      free_from-ok end vend (2 ^ 20) [] (pgroundup vstart)
        (record { aligned = omega arith; above = omega arith; below = omega arith }) tt tt
        (omega arith) in
    (
      l,
      e,
      f,
      λ v. (
        λ m. elim ((members v).0 m) [
          | inl none_there ↦ absurd none_there
          | inr w ↦ (w.0, omega (arith, w.1), w.2)
        ],
        λ w. (members v).1 (inr (w.0, omega (arith, w.0, w.1), w.2)),
      ),
    )
