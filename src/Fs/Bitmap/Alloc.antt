-- ===== src/Fs/Bitmap/Alloc.antt =====
-- What `balloc` and `bfree` change.
use os_lab_course_project.Prelude.{
  ℕ, ◌+◌, ◌*◌, ◌/◌, ◌%◌, ◌<◌, ◌≡◌, ◌≢◌, ◌⊎◌, inl, inr, ◌==◌, Bool, true, false, if◌then◌else◌,
  update, ok, panic, arith, ap, ◌∙◌, Bool-cases,
}
use mathlib.Core.Path.{ap₂}
use os_lab_course_project.Fs.Blocks.{Block, Fs, log_data}
use os_lab_course_project.Fs.Bits.{is_clear, set_bit, clear_bit, set_bit_lem, clear_bit_lem}
use os_lab_course_project.Fs.Bitmap.{Super, bpb, bblock, bit_free, bzero, take_bit, balloc, bfree}
use os_lab_course_project.Fs.Bitmap.Scan.{is_free, IsSane, IsFull, balloc_from-Takes}

-- Between `s` and `s'` the bit of `a` in the free map became `bit`, and no other bit changed.
abbrev pub MapChange : Super → Fs → ℕ → Bool → Fs → Type 0
MapChange sb s a bit s' =
    (b : ℕ) → b < sb.size → is_free sb s' b ≡ (if b == a then bit else is_free sb s b)

-- Block `x` is not the block of the free map that holds the bit of `a`.
abbrev pub OffMap : Super → ℕ → ℕ → Type 0
OffMap sb a x = x ≢ bblock sb a

-- What an allocation of block `a` does to the file system.
pub record Allocated (sb : Super) (s : Fs) (a : ℕ) (s' : Fs) : Type 0 where
  pub within : a < sb.size
  pub was_free : is_free sb s a ≡ true
  pub zeroed : (x : ℕ) → s'.blocks a x ≡ 0
  pub bits : MapChange sb s a false s'
  pub others : (x : ℕ) → x ≢ a → OffMap sb a x → s'.blocks x ≡ s.blocks x
  pub sane : IsSane sb s'

-- The bit of `b` after a change of bit `i` of one block `m` of the map.
module _ (sb : Super) (s : Fs) (a : ℕ) (d : ℕ) where
  marked : Fs
  marked = log_data (bblock sb a) (update (s.blocks (bblock sb a)) (a % bpb / 8) d) s

  marked_bytes : d < 256 → ((b x : ℕ) → s.blocks b x < 256) → (b x : ℕ) → marked.blocks b x < 256
  unfolding marked log_data
  marked_bytes h k b x = ground (arith, k b x, k (bblock sb a) x)

  marked_other : (x : ℕ) → OffMap sb a x → marked.blocks x ≡ s.blocks x
  unfolding marked log_data
  marked_other x h = ground arith

  marked_bits :
      (bit : Bool)
      → ((j : ℕ)
          → j < 8
          → is_clear d j
            ≡ (if j == a % bpb % 8 then bit else is_clear (s.blocks (bblock sb a) (a % bpb / 8)) j))
      → MapChange sb s a bit marked
  unfolding marked log_data
  marked_bits bit h b _ = ground (
    arith,
    h (b % bpb % 8),
    ap (bblock sb) {x = a} {y = b},
    ap s.blocks {x = bblock sb a} {y = bblock sb b},
  )

used_ne : (sb : Super) (s : Fs) (a b : ℕ) → is_free sb s a ≡ true → is_free sb s b ≡ false → b ≢ a
used_ne sb s a b f u e = absurd (cc (ap (is_free sb s) e))

-- The bit of `a`, at `k` in block `q` of the map.
module _ (sb : Super) (s : Fs) (q k : ℕ) (low : k < bpb) where
  at : ℕ
  at = q * bpb + k

  set_at : ℕ
  set_at = set_bit (s.blocks (bblock sb at) (at % bpb / 8)) (at % bpb % 8)

  take_bit_lem : take_bit sb (q * bpb) k s ≡ (at, bzero at (marked sb s at set_at))
  unfolding take_bit marked at set_at
  take_bit_lem =
      ap₂ taken {x = bblock sb (q * bpb)} {y = bblock sb at} {u = k} {v = at % bpb} (omega arith)
        (omega arith)
    where
      taken : ℕ → ℕ → ℕ × Fs
      taken m j = (
        at,
        bzero at
            (log_data m (update (s.blocks m) (j / 8) (set_bit (s.blocks m (j / 8)) (j % 8))) s),
      )

  module _ (v : IsSane sb s) (inside : at < sb.size) (free : is_free sb s at ≡ true) where
    marked_at-bits : MapChange sb s at false (marked sb s at set_at)
    unfolding set_at
    marked_at-bits = marked_bits sb s at set_at false (λ j h.
        (set_bit_lem (s.blocks (bblock sb at) (at % bpb / 8)) (at % bpb % 8) j (v.bytes _ _)
          (omega arith) h).1)

    -- The block that is taken holds no part of the map.
    at-OffMap : (b : ℕ) → b < sb.size → bblock sb b ≢ at
    at-OffMap b h = used_ne sb s at (bblock sb b) free (v.map_used b h)

    abbrev after : Fs
    after = bzero at (marked sb s at set_at)

    after_other : (x : ℕ) → x ≢ at → after.blocks x ≡ (marked sb s at set_at).blocks x
    unfolding bzero log_data
    after_other x ne = ground arith

    after-bits : MapChange sb s at false after
    after-bits b h =
        ap (λ (d : Block). bit_free d (b % bpb)) (after_other (bblock sb b) (at-OffMap b h))
        ∙ marked_at-bits b h

    after_zero : (x : ℕ) → after.blocks at x ≡ 0
    unfolding bzero log_data
    after_zero x = ground arith

    after_bytes : (b x : ℕ) → after.blocks b x < 256
    unfolding bzero log_data set_at
    after_bytes b x = ground (
      arith,
      marked_bytes sb s at set_at
          (set_bit_lem (s.blocks (bblock sb at) (at % bpb / 8)) (at % bpb % 8) 0 (v.bytes _ _)
            (omega arith) (omega arith)).0
          v.bytes b x,
    )

    taken-Allocated : Allocated sb s at after
    taken-Allocated = record {
      within = inside;
      was_free = free;
      zeroed = after_zero;
      bits = after-bits;
      others = λ x ne off. after_other x ne ∙ marked_other sb s at set_at x off;
      sane = record {
        bytes = after_bytes;
        boot = ground (arith, after-bits 0, v.boot);
        within = v.within;
        map_used = λ b h. ground (arith, after-bits (bblock sb b) (v.within b h), v.map_used b h);
      };
    }

-- `balloc` on a sane file system takes the first free block, marks it in use, fills it with zeros
-- and changes nothing else; it panics exactly if no block of the image is free.
pub balloc_lem :
    (sb : Super) (s : Fs)
    → IsSane sb s
    → ((a : ℕ) × (s' : Fs) × (balloc sb s ≡ ok (a, s'))
        × Allocated sb s a s'
        × ((j : ℕ) → j < a → is_free sb s j ≡ false))
      ⊎ ((balloc sb s ≡ panic "balloc: out of blocks") × IsFull sb s)
unfolding balloc at
balloc_lem sb s v =
    elim (balloc_from-Takes sb (sb.size / bpb + 2) 0 s (omega arith)
      (λ j h. absurd (omega arith))) [
        | inr full ↦ inr full
        | inl t ↦ inl (
          at sb s t.q t.k t.bit,
          after sb s t.q t.k t.bit v t.within t.free,
          t.result ∙ ap (λ r. ok r) (take_bit_lem sb s t.q t.k t.bit),
          taken-Allocated sb s t.q t.k t.bit v t.within t.free,
          t.first,
        )
      ]

-- Where the bit of `b` is set, `bfree` clears it and no other bit and changes nothing else, so that
-- the block is free again; where it is clear `bfree` panics.
pub bfree_lem :
    (sb : Super) (s : Fs) (b : ℕ)
    → IsSane sb s
    → ((is_free sb s b ≡ true) × (bfree sb b s ≡ panic "freeing free block"))
      ⊎ ((is_free sb s b ≡ false)
          × ((s' : Fs) × (bfree sb b s ≡ ok s')
              × MapChange sb s b true s'
              × ((x : ℕ) → OffMap sb b x → s'.blocks x ≡ s.blocks x)
              × ((m x : ℕ) → s'.blocks m x < 256)))
unfolding bfree marked
bfree_lem sb s b v =
    let old = s.blocks (bblock sb b) (b % bpb / 8) in
    let d = clear_bit old (b % bpb % 8) in
    elim (Bool-cases (is_free sb s b)) [
      | inl free ↦ inl (free, rw free)
      | inr used ↦ inr (
        used,
        (
          marked sb s b d,
          rw used,
          marked_bits sb s b d true
              (λ j h. (clear_bit_lem old (b % bpb % 8) j (v.bytes _ _) (omega arith) h).1),
          marked_other sb s b d,
          marked_bytes sb s b d
              (clear_bit_lem old (b % bpb % 8) 0 (v.bytes _ _) (omega arith) (omega arith)).0
              v.bytes,
        ),
      )
    ]
