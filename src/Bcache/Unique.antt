-- ===== src/Bcache/Unique.antt =====
-- A block is in one buffer at most, and no buffer is lost.
use os_lab_course_project.Prelude.{
  ℕ, zero, suc, ◌+◌, ◌≤◌, ◌≡◌, ◌≢◌, ◌∙◌, inl, inr, refl, ap, Bool, true, false, ◌&&◌, ◌==◌, ltb,
  leb, if◌then◌else◌, some, List, [], ◌∷◌, ◌++◌, ok, arith, sub32, Bool-cases, Option-cases,
}
use os_lab_course_project.Bcache.{
  Buf, nbuf, is_block, recycled, binit, binit_from, bget, take_out, drop_ref, brelse, set_flags,
}
use os_lab_course_project.Bcache.Find.{AllNot, referenced, bget_lem}

-- How many buffers pass a test.
abbrev pub count : (Buf → Bool) → List Buf → ℕ
count p [] = 0
count p (b ∷ bs) = (if p b then 1 else 0) + count p bs

abbrev pub in_slot : ℕ → Buf → Bool
in_slot i b = b.slot == i

count-append : (p : Buf → Bool) (xs ys : List Buf) → count p (xs ++ ys) ≡ count p xs + count p ys
count-append p [] ys = omega arith
count-append p (x ∷ xs) ys = omega (arith, count-append p xs ys)

count-none : (p : Buf → Bool) (l : List Buf) → AllNot p l → count p l ≡ 0
count-none p [] a = refl
count-none p (b ∷ bs) a = ground (arith, count-none p bs a.1, a.0)

-- The cache holds the 30 buffers, and a block of a device in one of them at most.
pub record IsUnique (l : List Buf) : Type 0 where
  pub once : (dev blockno : ℕ) → dev ≢ 0 → count (is_block dev blockno) l ≤ 1
  pub slots : (i : ℕ) → count (in_slot i) l ≡ (if ltb i nbuf then 1 else 0)

-- Two lists with the same counts of blocks and slots.
record SameCounts (l l' : List Buf) : Type 0 where
  blocks : (dev blockno : ℕ) → count (is_block dev blockno) l' ≡ count (is_block dev blockno) l
  slots : (i : ℕ) → count (in_slot i) l' ≡ count (in_slot i) l

IsUnique-same : {l l' : List Buf} → SameCounts l l' → IsUnique l → IsUnique l'
IsUnique-same c u = record {
  once = λ dev blockno h. omega (arith, c.blocks dev blockno, u.once dev blockno h);
  slots = λ i. c.slots i ∙ u.slots i;
}

-- A buffer in the middle gives way to another.
count-swap :
    (p : Buf → Bool) (front back : List Buf) (b c : Buf)
    → count p (front ++ c ∷ back) + (if p b then 1 else 0)
      ≡ count p (front ++ b ∷ back) + (if p c then 1 else 0)
count-swap p front back b c =
    omega (arith, count-append p front (c ∷ back), count-append p front (b ∷ back))

bget-IsUnique :
    (dev blockno : ℕ) (l : List Buf) {i : ℕ} {l' : List Buf}
    → IsUnique l
    → bget dev blockno l ≡ ok (i, l')
    → IsUnique l'
bget-IsUnique dev blockno l {i} {l'} u e = elim (bget_lem dev blockno l) [
  | inr (inr (_, _, f)) ↦ absurd (ground (arith, f))
  | inl (a, _, f) ↦
      let same : l' ≡ a.front ++ referenced dev blockno a.buf ∷ a.back = ground (arith, f) in
      rw same (
        IsUnique-same
          (record {
            blocks = λ d k. ground (
              arith,
              count-swap (is_block d k) a.front a.back a.buf (referenced dev blockno a.buf),
              ap (count (is_block d k)) a.split,
            );
            slots = λ j. ground (
              arith,
              count-swap (in_slot j) a.front a.back a.buf (referenced dev blockno a.buf),
              ap (count (in_slot j)) a.split,
            );
          })
          u)
  | inr (inl (absent, (a, _, f))) ↦
      let new = recycled dev blockno a.buf in
      let same : l' ≡ a.front ++ new ∷ a.back = ground (arith, f) in
      rw same (record {
        once = λ d k h. ground (
          arith,
          count-swap (is_block d k) a.front a.back a.buf new,
          ap (count (is_block d k)) a.split,
          ap (count (is_block dev blockno)) a.split,
          count-swap (is_block dev blockno) a.front a.back a.buf new,
          count-none (is_block dev blockno) l absent,
          u.once d k h,
        );
        slots = λ j. ground (
          arith,
          count-swap (in_slot j) a.front a.back a.buf new,
          ap (count (in_slot j)) a.split,
          u.slots j,
        );
      })
]

count-drop_ref :
    (p : Buf → Bool) (i : ℕ) (l : List Buf)
    → ((b : Buf) → p (record b { refcnt = sub32 b.refcnt 1 }) ≡ p b)
    → count p (drop_ref i l) ≡ count p l
unfolding drop_ref
count-drop_ref p i [] h = refl
count-drop_ref p i (b ∷ bs) h = ground (arith, h b, count-drop_ref p i bs h)

count-set_flags :
    (p : Buf → Bool) (valid dirty : Bool) (i : ℕ) (l : List Buf)
    → ((b : Buf) → p (record b { valid = valid; dirty = dirty }) ≡ p b)
    → count p (set_flags valid dirty i l) ≡ count p l
unfolding set_flags
count-set_flags p valid dirty i [] h = refl
count-set_flags p valid dirty i (b ∷ bs) h =
    ground (arith, h b, count-set_flags p valid dirty i bs h)

count-take_out :
    (p : Buf → Bool) (i : ℕ) (l : List Buf) (b : Buf) (others : List Buf)
    → take_out i l ≡ some (b, others)
    → count p (b ∷ others) ≡ count p l
unfolding take_out
count-take_out p i [] b others e = absurd (cc e)
count-take_out p i (c ∷ cs) b others e = elim (Bool-cases (c.slot == i)) [
  | inl h ↦ ground arith
  | inr h ↦ elim (Option-cases (take_out i cs)) [
    | inl z ↦ absurd (ground (arith, z))
    | inr ((d, ds), f) ↦ ground (arith, count-take_out p i cs d ds f)
  ]
]

brelse-IsUnique :
    (holding : Bool) (i : ℕ) (l : List Buf) {l' : List Buf}
    → IsUnique l
    → brelse holding i l ≡ ok l'
    → IsUnique l'
unfolding brelse
brelse-IsUnique false i l u e = absurd (cc e)
brelse-IsUnique true i l {l'} u e =
    let dropped : SameCounts l (drop_ref i l) = record {
      blocks = λ d k. count-drop_ref (is_block d k) i l (λ b. refl);
      slots = λ j. count-drop_ref (in_slot j) i l (λ b. refl);
    } in
    elim (Option-cases (take_out i (drop_ref i l))) [
      | inl z ↦
          let same : l' ≡ drop_ref i l = ground (arith, z) in rw same (IsUnique-same dropped u)
      | inr ((b, others), f) ↦ elim (Bool-cases (b.refcnt == 0)) [
        | inr used ↦
            let same : l' ≡ drop_ref i l = ground (arith, f) in rw same (IsUnique-same dropped u)
        | inl last ↦
            let same : l' ≡ b ∷ others = ground (arith, f) in
            rw same (
              IsUnique-same
                (record {
                  blocks = λ d k.
                      count-take_out (is_block d k) i (drop_ref i l) b others f
                      ∙ dropped.blocks d k;
                  slots =
                      λ j. count-take_out (in_slot j) i (drop_ref i l) b others f ∙ dropped.slots j;
                })
                u)
      ]
    ]

set_flags-IsUnique :
    (valid dirty : Bool) (i : ℕ) (l : List Buf) → IsUnique l → IsUnique (set_flags valid dirty i l)
set_flags-IsUnique valid dirty i l u =
    IsUnique-same
      (record {
        blocks = λ d k. count-set_flags (is_block d k) valid dirty i l (λ b. refl);
        slots = λ j. count-set_flags (in_slot j) valid dirty i l (λ b. refl);
      })
      u

binit_from-blocks :
    (dev blockno r i : ℕ) (l : List Buf)
    → dev ≢ 0
    → count (is_block dev blockno) (binit_from r i l) ≡ count (is_block dev blockno) l
unfolding binit_from
binit_from-blocks dev blockno zero i l h = refl
binit_from-blocks dev blockno (suc r) i l h = ground (
  arith,
  binit_from-blocks dev blockno r (i + 1)
      (record { slot = i; dev = 0; blockno = 0; refcnt = 0; valid = false; dirty = false } ∷ l),
)

binit_from-slots :
    (j r i : ℕ) (l : List Buf)
    → count (in_slot j) (binit_from r i l)
      ≡ (if leb i j && ltb j (i + r) then 1 else 0) + count (in_slot j) l
unfolding binit_from
binit_from-slots j zero i l = ground arith
binit_from-slots j (suc r) i l = ground (
  arith,
  binit_from-slots j r (i + 1)
      (record { slot = i; dev = 0; blockno = 0; refcnt = 0; valid = false; dirty = false } ∷ l),
)

-- The caches that calls of `bget` for a device, `brelse` and the driver make from `binit`.
pub data Reach : List Buf → Type 0 where
  start : Reach binit
  got :
      {l l' : List Buf} {i : ℕ} (dev blockno : ℕ)
      → Reach l
      → bget dev blockno l ≡ ok (i, l')
      → Reach l'
  released :
      {l l' : List Buf} (holding : Bool) (i : ℕ) → Reach l → brelse holding i l ≡ ok l' → Reach l'
  flagged :
      {l : List Buf} (valid dirty : Bool) (i : ℕ) → Reach l → Reach (set_flags valid dirty i l)

all_slots : (n j : ℕ) → (if leb 0 j && ltb j (0 + n) then 1 else 0) + 0 ≡ (if ltb j n then 1 else 0)
all_slots n j = ground arith

binit-IsUnique : IsUnique binit
unfolding binit
binit-IsUnique = record {
  once = λ d k h. omega (arith, binit_from-blocks d k nbuf 0 [] h);
  slots = λ i. binit_from-slots i nbuf 0 [] ∙ all_slots nbuf i;
}

-- After any sequence of `bget`, `brelse` and changes of flags, starting from `binit`, the cache holds
-- each of its 30 buffers once, and a block of a device other than 0 is in one buffer at most.
pub Reach-IsUnique : {l : List Buf} → Reach l → IsUnique l
Reach-IsUnique start = binit-IsUnique
Reach-IsUnique (got {l = l} dev blockno r e) = bget-IsUnique dev blockno l (Reach-IsUnique r) e
Reach-IsUnique (released {l = l} holding i r e) = brelse-IsUnique holding i l (Reach-IsUnique r) e
Reach-IsUnique (flagged {l} valid dirty i r) = set_flags-IsUnique valid dirty i l (Reach-IsUnique r)
