-- ===== src/Icache/References.antt =====
-- The counts of the cache, and that an inode has one entry.
use os_lab_course_project.Prelude.{
  ℕ, ◌-◌, ◌^◌, ◌≤◌, ◌<◌, ◌≡◌, ◌⊎◌, inl, inr, refl, ap, Bool, true, false, none, some, List, [], ◌∷◌,
  length, get_elem?, remove_at, length-remove_at, holders, holders-remove_at, holders-le,
  holders-here, ok, panic, update, add32, arith,
}
use mathlib.Core.Path.{subst}
use os_lab_course_project.Icache.{ninode, Cache, is_entry, iget, idup, drop_inode}
use os_lab_course_project.Icache.Lookup.{look_up-cases}

-- The cache, and all pointers to its entries.
pub record Sys : Type 0 where
  pub cache : Cache
  pub pointers : List ℕ

-- The number of pointers stays below the largest int. `filled` is what `ilock` does to an entry.
pub data Step (s : Sys) : Sys → Type 0 where
  got :
      (dev inum : ℕ) {i : ℕ} {t : Cache}
      → length s.pointers < 2 ^ 31 - 1
      → iget dev inum s.cache ≡ ok (i, t)
      → Step s (record { cache = t; pointers = i ∷ s.pointers })
  dupped :
      (k i : ℕ)
      → length s.pointers < 2 ^ 31 - 1
      → get_elem? s.pointers k ≡ some i
      → Step s (record { cache = idup i s.cache; pointers = i ∷ s.pointers })
  filled :
      (k i : ℕ) (valid : Bool)
      → get_elem? s.pointers k ≡ some i
      → Step s (record s { cache = update s.cache i (record (s.cache i) { valid = valid }) })
  dropped :
      (k i : ℕ)
      → get_elem? s.pointers k ≡ some i
      → Step s (record { cache = drop_inode i s.cache; pointers = remove_at s.pointers k })

-- Static memory is zero.
abbrev pub init : Sys
init = record { cache = λ i. record { dev = 0; inum = 0; ref = 0; valid = false }; pointers = [] }

pub data Reach : Sys → Type 0 where
  begin : Reach init
  later : {s t : Sys} → Reach s → Step s t → Reach t

record IsCounted (s : Sys) : Type 0 where
  refs : (i : ℕ) → i < ninode → (s.cache i).ref ≡ holders i s.pointers
  inside : (i : ℕ) → ninode ≤ i → holders i s.pointers ≡ 0
  few : length s.pointers < 2 ^ 31
  once :
      (i j : ℕ)
      → i < ninode
      → j < ninode
      → 0 < (s.cache i).ref
      → 0 < (s.cache j).ref
      → (s.cache i).dev ≡ (s.cache j).dev
      → (s.cache i).inum ≡ (s.cache j).inum
      → i ≡ j

module _ (s : Sys) (v : IsCounted s) where
  held :
      (k i : ℕ)
      → get_elem? s.pointers k ≡ some i
      → (i < ninode) × (0 < (s.cache i).ref) × ((s.cache i).ref ≤ length s.pointers)
  held k i h = (
    ground (arith, v.inside i, holders-here s.pointers k i h),
    ground (arith, v.inside i, v.refs i, holders-here s.pointers k i h),
    ground (arith, v.inside i, v.refs i, holders-here s.pointers k i h, holders-le i s.pointers),
  )

  -- An entry that has got one more pointer.
  more-IsCounted :
      (i : ℕ)
      → i < ninode
      → 0 < (s.cache i).ref
      → length s.pointers < 2 ^ 31 - 1
      → IsCounted (record {
        cache = update s.cache i (record (s.cache i) { ref = add32 (s.cache i).ref 1 });
        pointers = i ∷ s.pointers;
      })
  more-IsCounted i l pos m = record {
    refs = λ a h. ground (arith, v.refs a h, v.refs i l, holders-le i s.pointers);
    inside = λ a h. ground (arith, v.inside a h);
    few = omega (arith, m);
    once = λ a b h k p q d n.
        ground (arith, v.once a b h k, ap s.cache {x = a} {y = i}, ap s.cache {x = b} {y = i});
  }

  new-IsCounted :
      (dev inum i : ℕ)
      → i < ninode
      → (s.cache i).ref ≡ 0
      → ((k : ℕ) → k < ninode → is_entry dev inum (s.cache k) ≡ false)
      → length s.pointers < 2 ^ 31 - 1
      → IsCounted (record {
        cache = update s.cache i (record { dev = dev; inum = inum; ref = 1; valid = false });
        pointers = i ∷ s.pointers;
      })
  new-IsCounted dev inum i l z absent m = record {
    refs = λ a h. ground (arith, v.refs a h, v.refs i l);
    inside = λ a h. ground (arith, v.inside a h);
    few = omega (arith, m);
    once = λ a b h k p q d n. ground (
      arith,
      v.once a b h k,
      absent a h,
      absent b k,
      v.refs a h,
      v.refs b k,
      holders-le a s.pointers,
      holders-le b s.pointers,
    );
  }

  less-IsCounted :
      (k i : ℕ)
      → get_elem? s.pointers k ≡ some i
      → IsCounted (record { cache = drop_inode i s.cache; pointers = remove_at s.pointers k })
  unfolding drop_inode
  less-IsCounted k i g =
      let (l, pos, _) = held k i g in
      record {
        refs = λ a p. ground (
          arith,
          v.refs a p,
          v.refs i l,
          holders-remove_at a s.pointers k i g,
          holders-le i s.pointers,
        );
        inside = λ a p. ground (arith, v.inside a p, holders-remove_at a s.pointers k i g);
        few = omega (arith, v.few, length-remove_at s.pointers k i g);
        once = λ a b h j p q d n.
            ground (arith, v.once a b h j, ap s.cache {x = a} {y = i}, ap s.cache {x = b} {y = i});
      }

  -- What `iget` does: one more pointer to the entry of the inode, or an empty slot filled, or the panic.
  iget-cases :
      (dev inum : ℕ)
      → ((k : ℕ) × (iget dev inum s.cache
            ≡ ok (k, update s.cache k (record (s.cache k) { ref = add32 (s.cache k).ref 1 })))
          × (k < ninode)
          × (is_entry dev inum (s.cache k) ≡ true))
        ⊎ (((k : ℕ) × (iget dev inum s.cache
                ≡ ok (
                  k,
                  update s.cache k (record { dev = dev; inum = inum; ref = 1; valid = false }),
                ))
              × (k < ninode)
              × ((s.cache k).ref ≡ 0)
              × ((j : ℕ) → j < ninode → is_entry dev inum (s.cache j) ≡ false))
            ⊎ ((iget dev inum s.cache ≡ panic "iget: no inodes")
                × ((j : ℕ) → j < ninode → is_entry dev inum (s.cache j) ≡ false)))
  unfolding iget
  iget-cases dev inum = elim (look_up-cases dev inum s.cache ninode 0 none) [
    | inl (k, f, (_, l), m) ↦ inl (k, rw f, l, m)
    | inr (none, f, _, all) ↦ inr (inr (rw f, λ j h. all j (omega arith, h)))
    | inr (some k, f, inl e, _) ↦ absurd (ground (arith, e))
    | inr (some k, f, inr (k', e, (_, l), z), all) ↦
        let same : k ≡ k' = ground (arith, e) in
        inr (inl (k', rw (f, same), l, z, λ j h. all j (omega arith, h)))
  ]

step-IsCounted : {s t : Sys} → IsCounted s → Step s t → IsCounted t
unfolding idup
step-IsCounted {s} v (got dev inum {i} {t} m e) = elim (iget-cases s v dev inum) [
  | inr (inr (p, _)) ↦ absurd (ground (arith, p, e))
  | inl (k, f, l, q) ↦
      let (same, cache) : (i ≡ k)
          × (t ≡ update s.cache k (record (s.cache k) { ref = add32 (s.cache k).ref 1 })) =
        (ground (arith, f, e), ground (arith, f, e)) in
      rw (same, cache) (more-IsCounted s v k l (ground (arith, q)) m)
  | inr (inl (k, f, l, z, absent)) ↦
      let (same, cache) : (i ≡ k)
          × (t ≡ update s.cache k (record { dev = dev; inum = inum; ref = 1; valid = false })) =
        (ground (arith, f, e), ground (arith, f, e)) in
      rw (same, cache) (new-IsCounted s v dev inum k l z absent m)
]
step-IsCounted {s} v (dupped k i m h) =
    let (l, pos, _) = held s v k i h in more-IsCounted s v i l pos m
step-IsCounted {s} v (filled k i valid h) = record {
  refs = λ a l. ground (arith, v.refs a l, ap (λ x. (s.cache x).ref) {x = a} {y = i});
  inside = v.inside;
  few = v.few;
  once = λ a b h k p q d n.
      ground (arith, v.once a b h k, ap s.cache {x = a} {y = i}, ap s.cache {x = b} {y = i});
}
step-IsCounted {s} v (dropped k i h) = less-IsCounted s v k i h

Reach-IsCounted : {s : Sys} → Reach s → IsCounted s
Reach-IsCounted begin = record {
  refs = λ i l. refl;
  inside = λ i l. refl;
  few = omega arith;
  once = λ i j h k p q d n. absurd (omega (arith, p));
}
Reach-IsCounted (later r st) = step-IsCounted (Reach-IsCounted r) st

-- In every reachable state the count of each entry is the number of pointers to it, two pointers that are
-- held are to the same entry if their inodes are the same, and `iget` of an inode to which a pointer is
-- held gives that pointer once more.
pub one_entry :
    {s : Sys}
    → Reach s
    → ((i : ℕ) → i < ninode → (s.cache i).ref ≡ holders i s.pointers)
      × ((k l i j : ℕ)
          → get_elem? s.pointers k ≡ some i
          → get_elem? s.pointers l ≡ some j
          → (s.cache i).dev ≡ (s.cache j).dev
          → (s.cache i).inum ≡ (s.cache j).inum
          → i ≡ j)
      × ((k i : ℕ)
          → get_elem? s.pointers k ≡ some i
          → iget (s.cache i).dev (s.cache i).inum s.cache ≡ ok (i, idup i s.cache))
unfolding idup
one_entry {s} r =
    let v = Reach-IsCounted r in
    (
      v.refs,
      λ k l i j g h d n.
          let (li, pi, _) = held s v k i g in
          let (lj, pj, _) = held s v l j h in v.once i j li lj pi pj d n,
      λ k i g.
          let (li, pi, le) = held s v k i g in
          let here : is_entry (s.cache i).dev (s.cache i).inum (s.cache i) ≡ true =
            ground (arith, v.few) in
          elim (iget-cases s v (s.cache i).dev (s.cache i).inum) [
            | inl (a, f, l, q) ↦
                let same : a ≡ i =
                  v.once a i l li (ground (arith, q)) pi (ground (arith, q)) (ground (arith, q)) in
                subst
                  (λ (j : ℕ).
                    iget (s.cache i).dev (s.cache i).inum s.cache
                    ≡ ok (
                      j,
                      update s.cache j (record (s.cache j) { ref = add32 (s.cache j).ref 1 }),
                    ))
                  same f
            | inr (inl (a, f, l, z, absent)) ↦ absurd (ground (arith, here, absent i li))
            | inr (inr (f, absent)) ↦ absurd (ground (arith, here, absent i li))
          ],
    )
