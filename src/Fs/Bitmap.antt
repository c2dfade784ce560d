-- ===== src/Fs/Bitmap.antt =====
-- `balloc` and `bfree` of xv6/fs.c, over the free map.
pub mod Scan
pub mod Alloc
use os_lab_course_project.Prelude.{
  ℕ, zero, suc, ◌+◌, ◌*◌, ◌/◌, ◌%◌, ◌==◌, Bool, ltb, if◌then◌else◌, update, Option, none, some,
  Result, ok, panic,
}
use os_lab_course_project.Fs.Blocks.{Block, Fs, log_data}
use os_lab_course_project.Fs.Bits.{is_clear, set_bit, clear_bit}

-- `struct superblock`
pub record Super : Type 0 where
  pub size : ℕ
  pub nblocks : ℕ
  pub ninodes : ℕ
  pub nlog : ℕ
  pub logstart : ℕ
  pub inodestart : ℕ
  pub bmapstart : ℕ

-- Bits of the free map in a block.
abbrev pub bpb : ℕ
bpb = 4096

abbrev pub bblock : Super → ℕ → ℕ
bblock sb b = b / bpb + sb.bmapstart

-- The bit of block `bi` in a block of the map.
abbrev pub bit_free : Block → ℕ → Bool
bit_free d bi = is_clear (d (bi / 8)) (bi % 8)

unfoldable pub bzero : ℕ → Fs → Fs
bzero bno s = log_data bno (λ _. 0) s

-- The inner loop of `balloc`, `r` rounds before BPB from `bi`, up to the bit that it takes.
unfoldable pub scan_map : Block → ℕ → ℕ → ℕ → ℕ → Option ℕ
scan_map d size b zero bi = none
scan_map d size b (suc r) bi =
    let rest = scan_map d size b r (bi + 1) in
    if ltb (b + bi) size then (if bit_free d bi then some bi else rest) else none

-- What `balloc` does with the bit that it finds.
unfoldable pub take_bit : Super → ℕ → ℕ → Fs → ℕ × Fs
unfolding bzero
take_bit sb b bi s =
    let d = s.blocks (bblock sb b) in
    let marked = update d (bi / 8) (set_bit (d (bi / 8)) (bi % 8)) in
    (b + bi, bzero (b + bi) (log_data (bblock sb b) marked s))

-- The outer loop from `b`.
unfoldable pub balloc_from : Super → ℕ → ℕ → Fs → Result (ℕ × Fs)
unfolding take_bit
balloc_from sb zero b s = panic "balloc: out of blocks"
balloc_from sb (suc fuel) b s =
    if ltb b sb.size
    then elim (scan_map (s.blocks (bblock sb b)) sb.size b bpb 0) [
      | some bi ↦ ok (take_bit sb b bi s)
      | none ↦ balloc_from sb fuel (b + bpb) s
    ]
    else panic "balloc: out of blocks"

-- One round for each block of the map, and the last test.
unfoldable pub balloc : Super → Fs → Result (ℕ × Fs)
balloc sb s = balloc_from sb (sb.size / bpb + 2) 0 s

unfoldable pub bfree : Super → ℕ → Fs → Result Fs
bfree sb b s =
    let d = s.blocks (bblock sb b) in
    let bi = b % bpb in
    if bit_free d bi
    then panic "freeing free block"
    else ok (log_data (bblock sb b) (update d (bi / 8) (clear_bit (d (bi / 8)) (bi % 8))) s)
