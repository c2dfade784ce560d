-- ===== src/Fs/Bitmap/Scan.antt =====
-- The loops of `balloc`: which block it takes.
use os_lab_course_project.Prelude.{
  ℕ, zero, suc, ◌+◌, ◌-◌, ◌*◌, ◌/◌, ◌%◌, ◌≤◌, ◌<◌, ◌≡◌, ◌⊎◌, inl, inr, refl, ◌==◌, Bool, true,
  false, ltb, none, some, Result, ok, panic, arith, ap, ◌∙◌, Bool-cases,
}
use mathlib.Core.Path.{}
use native.Mathlib.Decide.{dec_lt}
use os_lab_course_project.Fs.Blocks.{Block, Fs}
use os_lab_course_project.Fs.Bits.{}
use os_lab_course_project.Fs.Bitmap.{Super, bpb, bblock, bit_free, scan_map, take_bit, balloc_from}

-- The bit of block `b` in the free map.
abbrev pub is_free : Super → Fs → ℕ → Bool
is_free sb s b = bit_free (s.blocks (bblock sb b)) (b % bpb)

-- The blocks hold bytes; the boot block and the blocks of the map lie in the image and are in use.
pub record IsSane (sb : Super) (s : Fs) : Type 0 where
  pub bytes : (b x : ℕ) → s.blocks b x < 256
  pub boot : is_free sb s 0 ≡ false
  pub within : (b : ℕ) → b < sb.size → bblock sb b < sb.size
  pub map_used : (b : ℕ) → b < sb.size → is_free sb s (bblock sb b) ≡ false

scan_map-cases :
    (d : Block) (size b r bi : ℕ)
    → bi + r ≡ bpb
    → ((k : ℕ) × (scan_map d size b r bi ≡ some k)
        × (bi ≤ k)
        × (k < bpb)
        × (b + k < size)
        × (bit_free d k ≡ true)
        × ((j : ℕ) → bi ≤ j → j < k → bit_free d j ≡ false))
      ⊎ ((scan_map d size b r bi ≡ none)
          × ((j : ℕ) → bi ≤ j → j < bpb → b + j < size → bit_free d j ≡ false))
unfolding scan_map
scan_map-cases d size b zero bi e = inr (refl, λ j p q. absurd (omega arith))
scan_map-cases d size b (suc r) bi e = elim (Bool-cases (ltb (b + bi) size)) [
  | inr out ↦ inr (ground arith, λ j p q w. absurd (ground arith))
  | inl in_size ↦ elim (Bool-cases (bit_free d bi)) [
    | inl hit ↦ inl (
      bi,
      ground arith,
      omega arith,
      omega arith,
      ground arith,
      hit,
      λ j p q. absurd (omega arith),
    )
    | inr miss ↦ elim (scan_map-cases d size b r (bi + 1) (omega arith)) [
      | inl (k, f, p, q, w, hit, out) ↦ inl (
        k,
        rw (in_size, miss) f,
        omega arith,
        q,
        w,
        hit,
        λ j u v. elim (Bool-cases (j == bi)) [
          | inl same ↦ ap (bit_free d) {x = j} {y = bi} (ground arith) ∙ miss
          | inr other ↦ out j (ground arith) v
        ],
      )
      | inr (f, out) ↦ inr (
        rw (in_size, miss) f,
        λ j u v w. elim (Bool-cases (j == bi)) [
          | inl same ↦ ap (bit_free d) {x = j} {y = bi} (ground arith) ∙ miss
          | inr other ↦ out j (ground arith) v w
        ],
      )
    ]
  ]
]

-- The bit of `b + k` stands at `k` in the block of the map that the outer loop reads at `b`.
is_free-at :
    (sb : Super) (s : Fs) (q k : ℕ)
    → k < bpb
    → is_free sb s (q * bpb + k) ≡ bit_free (s.blocks (bblock sb (q * bpb))) k
is_free-at sb s q k h =
    ap (λ (m : ℕ). bit_free (s.blocks m) ((q * bpb + k) % bpb)) {x = bblock sb (q * bpb + k)}
      {y = bblock sb (q * bpb)} (omega arith)
    ∙ ap (bit_free (s.blocks (bblock sb (q * bpb)))) {x = (q * bpb + k) % bpb} {y = k} (omega arith)

-- The steps of the outer loop.
module _ (sb : Super) (fuel b : ℕ) (s : Fs) where
  balloc_from-end :
      ltb b sb.size ≡ false → balloc_from sb (suc fuel) b s ≡ panic "balloc: out of blocks"
  unfolding balloc_from
  balloc_from-end e = rw e

  balloc_from-hit :
      (k : ℕ)
      → ltb b sb.size ≡ true
      → scan_map (s.blocks (bblock sb b)) sb.size b bpb 0 ≡ some k
      → balloc_from sb (suc fuel) b s ≡ ok (take_bit sb b k s)
  unfolding balloc_from
  balloc_from-hit k e f = rw (e, f)

  balloc_from-miss :
      ltb b sb.size ≡ true
      → scan_map (s.blocks (bblock sb b)) sb.size b bpb 0 ≡ none
      → balloc_from sb (suc fuel) b s ≡ balloc_from sb fuel (b + bpb) s
  unfolding balloc_from
  balloc_from-miss e f = rw (e, f)

balloc_from-spent :
    (sb : Super) (b : ℕ) (s : Fs) → balloc_from sb 0 b s ≡ panic "balloc: out of blocks"
unfolding balloc_from
balloc_from-spent sb b s = refl

-- `balloc` takes the first free block, the `k`-th of the map block `q`, or there is none.
pub record Takes (sb : Super) (s : Fs) (r : Result (ℕ × Fs)) : Type 0 where
  pub q : ℕ
  pub k : ℕ
  pub result : r ≡ ok (take_bit sb (q * bpb) k s)
  pub bit : k < bpb
  pub within : q * bpb + k < sb.size
  pub free : is_free sb s (q * bpb + k) ≡ true
  pub first : (j : ℕ) → j < q * bpb + k → is_free sb s j ≡ false

-- Every block of the image is in use.
abbrev pub IsFull : Super → Fs → Type 0
IsFull sb s = (j : ℕ) → j < sb.size → is_free sb s j ≡ false

-- Below the `k`-th block of map block `q` nothing is free, if nothing is before `q` nor in it.
no_free_below :
    (sb : Super) (s : Fs) (q k : ℕ)
    → ((j : ℕ) → j < q * bpb → j < sb.size → is_free sb s j ≡ false)
    → ((i : ℕ)
        → i < k
        → i < bpb
        → q * bpb + i < sb.size
        → bit_free (s.blocks (bblock sb (q * bpb))) i ≡ false)
    → (j : ℕ) → j < q * bpb + k
    → k ≤ bpb
    → j < sb.size
    → is_free sb s j ≡ false
no_free_below sb s q k before inside j h l w = elim (dec_lt j (q * bpb)) [
  | yes p ↦ before j p w
  | no p ↦
      let i = j - q * bpb in
      ap (is_free sb s) {x = j} {y = q * bpb + i} (omega arith)
      ∙ is_free-at sb s q i (omega arith)
      ∙ inside i (omega arith) (omega arith) (omega arith)
]

pub balloc_from-Takes :
    (sb : Super) (fuel q : ℕ) (s : Fs)
    → sb.size / bpb + 1 < fuel + q
    → ((j : ℕ) → j < q * bpb → j < sb.size → is_free sb s j ≡ false)
    → Takes sb s (balloc_from sb fuel (q * bpb) s)
      ⊎ ((balloc_from sb fuel (q * bpb) s ≡ panic "balloc: out of blocks") × IsFull sb s)
balloc_from-Takes sb zero q s h below =
    inr (balloc_from-spent sb (q * bpb) s, λ j l. below j (omega arith) l)
balloc_from-Takes sb (suc fuel) q s h below = elim (Bool-cases (ltb (q * bpb) sb.size)) [
  | inr out ↦ inr (balloc_from-end sb fuel (q * bpb) s out, λ j l. below j (ground arith) l)
  | inl go ↦ elim (scan_map-cases (s.blocks (bblock sb (q * bpb))) sb.size (q * bpb) bpb 0 refl) [
    | inl (k, f, p, l, w, hit, first) ↦ inl (record {
      q = q;
      k = k;
      result = balloc_from-hit sb fuel (q * bpb) s k go f;
      bit = l;
      within = w;
      free = is_free-at sb s q k l ∙ hit;
      first = λ j u.
          no_free_below sb s q k below (λ i v _ _. first i (omega arith) v) j u (omega arith)
            (omega arith);
    })
    | inr (f, full) ↦
        rw (balloc_from-miss sb fuel (q * bpb) s go f, next)
          (balloc_from-Takes sb fuel (suc q) s (omega arith) (λ j u w.
            no_free_below sb s q bpb below (λ i v _ x. full i (omega arith) v x) j (omega arith)
              (omega arith) w))
  ]
]
  where
    next : q * bpb + bpb ≡ suc q * bpb
    next = omega arith
