-- ===== src/Bcache/Find.antt =====
-- Which buffer `bget` returns.
use os_lab_course_project.Prelude.{
  ℕ, ◌≡◌, ◌⊎◌, ◌∙◌, inl, inr, refl, ap, Bool, true, false, none, some, List, [], ◌∷◌, ◌++◌, All, ok,
  panic, add32, Bool-cases,
}
use os_lab_course_project.Bcache.{Buf, is_block, is_idle, recycled, find_block, recycle, bget}

abbrev pub AllNot : (Buf → Bool) → List Buf → Type 0
AllNot p l = All (λ b. p b ≡ false) l

-- `l` is `front`, then `b`, which passes, then `back`.
pub record At (l : List Buf) (p : Buf → Bool) : Type 0 where
  pub front : List Buf
  pub buf : Buf
  pub back : List Buf
  pub split : l ≡ front ++ buf ∷ back
  pub passes : p buf ≡ true

abbrev pub At-cons : (b : Buf) {l : List Buf} {p : Buf → Bool} → At l p → At (b ∷ l) p
At-cons b a = record {
  front = b ∷ a.front;
  buf = a.buf;
  back = a.back;
  split = ap (λ (l : List Buf). b ∷ l) a.split;
  passes = a.passes;
}

module _ (dev blockno : ℕ) where
  abbrev pub referenced : Buf → Buf
  referenced b = record b { refcnt = add32 b.refcnt 1 }

  find_block-hit :
      (b : Buf) (bs : List Buf)
      → is_block dev blockno b ≡ true
      → find_block dev blockno (b ∷ bs) ≡ some (b.slot, referenced b ∷ bs)
  unfolding find_block
  find_block-hit b bs e = rw e

  find_block-miss :
      (b : Buf) (bs : List Buf)
      → is_block dev blockno b ≡ false
      → find_block dev blockno (b ∷ bs)
        ≡ elim (find_block dev blockno bs) [ none ↦ none | some (i, bs') ↦ some (i, b ∷ bs') ]
  unfolding find_block
  find_block-miss b bs e = rw e

  -- The first buffer of the block, or there is none.
  pub find_block_lem :
      (l : List Buf)
      → ((a : At l (is_block dev blockno)) × AllNot (is_block dev blockno) a.front
          × (find_block dev blockno l ≡ some (a.buf.slot, a.front ++ referenced a.buf ∷ a.back)))
        ⊎ (AllNot (is_block dev blockno) l × (find_block dev blockno l ≡ none))
  unfolding find_block
  find_block_lem [] = inr (tt, refl)
  find_block_lem (b ∷ bs) = elim (Bool-cases (is_block dev blockno b)) [
    | inl e ↦ inl (
      record { front = []; buf = b; back = bs; split = refl; passes = e },
      tt,
      find_block-hit b bs e,
    )
    | inr e ↦ elim (find_block_lem bs) [
      | inl (a, none_before, f) ↦ inl (At-cons b a, (e, none_before), find_block-miss b bs e ∙ rw f)
      | inr (out, f) ↦ inr ((e, out), find_block-miss b bs e ∙ rw f)
    ]
  ]

  recycle-later :
      (b : Buf) (bs bs' : List Buf) (i : ℕ)
      → recycle dev blockno bs ≡ some (i, bs')
      → recycle dev blockno (b ∷ bs) ≡ some (i, b ∷ bs')
  unfolding recycle
  recycle-later b bs bs' i e = rw e

  recycle-here :
      (b : Buf) (bs : List Buf)
      → recycle dev blockno bs ≡ none
      → is_idle b ≡ true
      → recycle dev blockno (b ∷ bs) ≡ some (b.slot, recycled dev blockno b ∷ bs)
  unfolding recycle
  recycle-here b bs e f = rw (e, f)

  recycle-none :
      (b : Buf) (bs : List Buf)
      → recycle dev blockno bs ≡ none
      → is_idle b ≡ false
      → recycle dev blockno (b ∷ bs) ≡ none
  unfolding recycle
  recycle-none b bs e f = rw (e, f)

  -- The last idle buffer, or there is none.
  pub recycle_lem :
      (l : List Buf)
      → ((a : At l is_idle) × AllNot is_idle a.back
          × (recycle dev blockno l
              ≡ some (a.buf.slot, a.front ++ recycled dev blockno a.buf ∷ a.back)))
        ⊎ (AllNot is_idle l × (recycle dev blockno l ≡ none))
  unfolding recycle
  recycle_lem [] = inr (tt, refl)
  recycle_lem (b ∷ bs) = elim (recycle_lem bs) [
    | inl (a, none_behind, f) ↦ inl (
      At-cons b a,
      none_behind,
      recycle-later b bs (a.front ++ recycled dev blockno a.buf ∷ a.back) a.buf.slot f,
    )
    | inr (out, f) ↦ elim (Bool-cases (is_idle b)) [
      | inl e ↦ inl (
        record { front = []; buf = b; back = bs; split = refl; passes = e },
        out,
        recycle-here b bs f e,
      )
      | inr e ↦ inr ((e, out), recycle-none b bs f e)
    ]
  ]

  -- `bget` returns the buffer of the block, with one reference more and where it stood; if there is
  -- none, then the idle buffer nearest to the back, which becomes the block's; and it panics exactly if
  -- there is neither.
  pub bget_lem :
      (l : List Buf)
      → ((a : At l (is_block dev blockno)) × AllNot (is_block dev blockno) a.front
          × (bget dev blockno l ≡ ok (a.buf.slot, a.front ++ referenced a.buf ∷ a.back)))
        ⊎ (AllNot (is_block dev blockno) l
            × ((a : At l is_idle) × AllNot is_idle a.back
                × (bget dev blockno l
                    ≡ ok (a.buf.slot, a.front ++ recycled dev blockno a.buf ∷ a.back))))
        ⊎ (AllNot (is_block dev blockno) l
            × AllNot is_idle l
            × (bget dev blockno l ≡ panic "bget: no buffers"))
  unfolding bget
  bget_lem l = elim (find_block_lem l) [
    | inl (a, first, f) ↦ inl (a, first, rw (f, bget))
    | inr (out, f) ↦ elim (recycle_lem l) [
      | inl (a, last, g) ↦ inr (inl (out, (a, last, rw (f, g, bget))))
      | inr (busy, g) ↦ inr (inr (out, busy, rw (f, g, bget)))
    ]
  ]
