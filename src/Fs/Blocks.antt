-- ===== src/Fs/Blocks.antt =====
-- The blocks as the code sees them through the buffer cache, and the numbers stored in their bytes.
use os_lab_course_project.Prelude.{
  ℕ, ◌+◌, ◌*◌, ◌/◌, ◌%◌, ◌^◌, ◌<◌, ◌≤◌, ◌≡◌, ◌⊎◌, arith, update, List, ◌∷◌,
}

-- The bytes of a block of BSIZE.
abbrev pub Block : Type 0
Block = ℕ → ℕ

abbrev pub bsize : ℕ
bsize = 512

-- The contents of the blocks, and the blocks passed to `log_write`, the last first.
pub record Fs : Type 0 where
  pub blocks : ℕ → Block
  pub logged : List ℕ

-- A caller of `bread` changes the data of the buffer of block `b` to `d`, and calls `log_write`. The
-- call is recorded in `logged`. What `log_write` does with it, its panics included, is in
-- `Log.Transaction`; here it is taken to return.
unfoldable pub log_data : ℕ → Block → Fs → Fs
log_data b d s = record { blocks = update s.blocks b d; logged = b ∷ s.logged }

-- What stands in a block as a `ushort` and as a `uint`, low byte first.
unfoldable pub get16 : Block → ℕ → ℕ
get16 d o = d o + 2 ^ 8 * d (o + 1)

unfoldable pub get32 : Block → ℕ → ℕ
get32 d o = d o + 2 ^ 8 * d (o + 1) + 2 ^ 16 * d (o + 2) + 2 ^ 24 * d (o + 3)

unfoldable pub put16 : Block → ℕ → ℕ → Block
put16 d o w = update (update d o (w % 256)) (o + 1) (w / 2 ^ 8 % 256)

unfoldable pub put32 : Block → ℕ → ℕ → Block
put32 d o w =
    update
      (update (update (update d o (w % 256)) (o + 1) (w / 2 ^ 8 % 256)) (o + 2) (w / 2 ^ 16 % 256))
      (o + 3) (w / 2 ^ 24 % 256)

pub get16-put16 : (d : Block) (o w : ℕ) → w < 2 ^ 16 → get16 (put16 d o w) o ≡ w
unfolding get16 put16
get16-put16 d o w h = ground arith

pub get32-put32 : (d : Block) (o w : ℕ) → w < 2 ^ 32 → get32 (put32 d o w) o ≡ w
unfolding get32 put32
get32-put32 d o w h = ground arith

-- Bytes outside the number are left alone.
pub put16_other : (d : Block) (o w x : ℕ) → (x < o) ⊎ (o + 2 ≤ x) → put16 d o w x ≡ d x
unfolding put16
put16_other d o w x h = ground arith

pub put32_other : (d : Block) (o w x : ℕ) → (x < o) ⊎ (o + 4 ≤ x) → put32 d o w x ≡ d x
unfolding put32
put32_other d o w x h = ground arith

pub get32-put32_other :
    (d : Block) (o w p : ℕ) → (p + 4 ≤ o) ⊎ (o + 4 ≤ p) → get32 (put32 d o w) p ≡ get32 d p
unfolding get32
get32-put32_other d o w p h = ground (
  arith,
  put32_other d o w p,
  put32_other d o w (p + 1),
  put32_other d o w (p + 2),
  put32_other d o w (p + 3),
)

pub put32_bytes : (d : Block) (o w : ℕ) → ((x : ℕ) → d x < 256) → (x : ℕ) → put32 d o w x < 256
unfolding put32
put32_bytes d o w h x = ground (arith, h x)

pub put16_bytes : (d : Block) (o w : ℕ) → ((x : ℕ) → d x < 256) → (x : ℕ) → put16 d o w x < 256
unfolding put16
put16_bytes d o w h x = ground (arith, h x)
