-- ===== src/CString/Move.antt =====
-- `memmove` and `memset`: every byte of the memory afterwards.
use os_lab_course_project.Prelude.{
  ℕ, zero, suc, ◌+◌, ◌-◌, ◌*◌, ◌/◌, ◌%◌, ◌^◌, ◌≤◌, ◌<◌, ◌≡◌, ◌⊎◌, Bool, ◌&&◌, ltb, leb,
  if◌then◌else◌, update, ap, arith,
}
use os_lab_course_project.CString.{
  Memory, stosb, store_word, stosl, memset, copy_up, copy_down, memmove,
}

-- Address `x` is one of the `n` from `d` on.
abbrev pub inside : ℕ → ℕ → ℕ → Bool
inside d n x = leb d x && ltb x (d + n)

copy_down_lem :
    (m : Memory) (d s n x : ℕ)
    → s < d
    → copy_down m d s n x ≡ (if inside d n x then m (s + (x - d)) else m x)
unfolding copy_down
copy_down_lem m d s zero x h = ground arith
copy_down_lem m d s (suc n) x h = ground (
  arith,
  copy_down_lem (update m (d + n) (m (s + n))) d s n x h,
  ap m {x = s + (x - d)} {y = s + n},
)

copy_up_lem :
    (m : Memory) (d s n x : ℕ)
    → (d ≤ s) ⊎ (s + n ≤ d)
    → copy_up m d s n x ≡ (if inside d n x then m (s + (x - d)) else m x)
unfolding copy_up
copy_up_lem m d s zero x h = ground arith
copy_up_lem m d s (suc n) x h = ground (
  arith,
  copy_up_lem (update m d (m s)) (d + 1) (s + 1) n x,
  ap m {x = s + (x - d)} {y = s},
  ap m {x = s + 1 + (x - (d + 1))} {y = s + (x - d)},
)

-- Also where the two ranges overlap, either way, `memmove` leaves in the destination the bytes that
-- the source held before, and changes no other byte, if the ranges do not pass the end of memory.
pub memmove_lem :
    (m : Memory) (d s n x : ℕ)
    → s + n < 2 ^ 32
    → memmove m d s n x ≡ (if inside d n x then m (s + (x - d)) else m x)
unfolding memmove
memmove_lem m d s n x h = ground (arith, copy_down_lem m d s n x, copy_up_lem m d s n x)

stosb_lem : (m : Memory) (d c n x : ℕ) → stosb m d c n x ≡ (if inside d n x then c % 256 else m x)
unfolding stosb
stosb_lem m d c zero x = ground arith
stosb_lem m d c (suc n) x = ground (arith, stosb_lem (update m d (c % 256)) (d + 1) c n x)

-- A word whose four bytes are `b`.
record Repeats (w b : ℕ) : Type 0 where
  first : w % 256 ≡ b
  second : w / 2 ^ 8 % 256 ≡ b
  third : w / 2 ^ 16 % 256 ≡ b
  fourth : w / 2 ^ 24 % 256 ≡ b

store_word_lem :
    (m : Memory) (d w b x : ℕ)
    → Repeats w b
    → store_word m d w x ≡ (if inside d 4 x then b else m x)
unfolding store_word
store_word_lem m d w b x e = ground (arith, e.first, e.second, e.third, e.fourth)

stosl_lem :
    (m : Memory) (d w b n x : ℕ)
    → Repeats w b
    → stosl m d w n x ≡ (if inside d (4 * n) x then b else m x)
unfolding stosl
stosl_lem m d w b zero x e = ground arith
stosl_lem m d w b (suc n) x e =
    ground (arith, stosl_lem (store_word m d w) (d + 4) w b n x e, store_word_lem m d w b x e)

-- `memset` fills the range with the low byte of `c`, and changes no other byte, whether it stores
-- words or bytes.
pub memset_lem :
    (m : Memory) (d c n x : ℕ) → memset m d c n x ≡ (if inside d n x then c % 256 else m x)
unfolding memset
memset_lem m d c n x =
    let b = c % 256 in
    let w = (b * 2 ^ 24 + b * 2 ^ 16 + b * 2 ^ 8 + b) % 2 ^ 32 in
    let four : Repeats w b = record {
      first = omega arith;
      second = omega arith;
      third = omega arith;
      fourth = omega arith;
    } in
    ground (arith, stosb_lem m d c n x, stosl_lem m d w b (n / 4) x four)
