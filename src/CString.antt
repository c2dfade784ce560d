-- ===== src/CString.antt =====
-- xv6/string.c: bytes in memory. A memory gives the byte at each address; a pointer is a 32-bit word,
-- and the pointers that the loops step are below 2 ^ 32 (the theorems say so where it matters).
pub mod Move
pub mod Compare
pub mod Alike
pub mod Copy
mod Tests
use os_lab_course_project.Prelude.{
  ℕ, zero, suc, ◌+◌, ◌-◌, ◌*◌, ◌%◌, ◌/◌, ◌^◌, Bool, true, false, not, ◌&&◌, ◌==◌, ltb, leb,
  if◌then◌else◌, update, Option, none, some, add32,
}

abbrev pub Memory : Type 0
Memory = ℕ → ℕ

-- `rep stosb` of xv6/x86.h: the low byte of `c`, `n` times, upwards.
pub stosb : Memory → ℕ → ℕ → ℕ → Memory
stosb m dst c zero = m
stosb m dst c (suc n) = stosb (update m dst (c % 256)) (dst + 1) c n

-- A store of the word `w`, low byte first.
pub store_word : Memory → ℕ → ℕ → Memory
store_word m a w =
    update
      (update (update (update m a (w % 256)) (a + 1) (w / 2 ^ 8 % 256)) (a + 2) (w / 2 ^ 16 % 256))
      (a + 3) (w / 2 ^ 24 % 256)

-- `rep stosl`: `n` words.
pub stosl : Memory → ℕ → ℕ → ℕ → Memory
unfolding store_word
stosl m dst w zero = m
stosl m dst w (suc n) = stosl (store_word m dst w) (dst + 4) w n

-- The four bytes of the word do not overlap, so that `|` adds them.
pub memset : Memory → ℕ → ℕ → ℕ → Memory
unfolding stosb stosl
memset m dst c n =
    if dst % 4 == 0 && n % 4 == 0
    then (let b = c % 256 in
        stosl m dst ((b * 2 ^ 24 + b * 2 ^ 16 + b * 2 ^ 8 + b) % 2 ^ 32) (n / 4))
    else stosb m dst c n

-- `while(n-- > 0) *d++ = *s++;`
pub copy_up : Memory → ℕ → ℕ → ℕ → Memory
copy_up m d s zero = m
copy_up m d s (suc n) = copy_up (update m d (m s)) (d + 1) (s + 1) n

-- `while(n-- > 0) *--d = *--s;`, where `d + n` and `s + n` are the pointers before the loop.
pub copy_down : Memory → ℕ → ℕ → ℕ → Memory
copy_down m d s zero = m
copy_down m d s (suc n) = copy_down (update m (d + n) (m (s + n))) d s n

pub memmove : Memory → ℕ → ℕ → ℕ → Memory
unfolding copy_up copy_down
memmove m d s n = if ltb s d && ltb d (add32 s n) then copy_down m d s n else copy_up m d s n

-- `memcmp`: the two bytes that differ first, of which the code returns the difference.
pub memcmp : Memory → ℕ → ℕ → ℕ → Option (ℕ × ℕ)
memcmp m p q zero = none
memcmp m p q (suc n) =
    let rest = memcmp m (p + 1) (q + 1) n in if m p == m q then rest else some (m p, m q)

-- `strncmp`: the two bytes whose difference is returned, or `none` for the `return 0` at `n == 0`.
unfoldable pub strncmp : Memory → ℕ → ℕ → ℕ → Option (ℕ × ℕ)
strncmp m p q zero = none
strncmp m p q (suc n) =
    let rest = strncmp m (p + 1) (q + 1) n in
    if not (m p == 0) && m p == m q then rest else some (m p, m q)

-- `while(n-- > 0) *s++ = 0;`
unfoldable pub zero_fill : Memory → ℕ → ℕ → Memory
zero_fill m s zero = m
zero_fill m s (suc n) = zero_fill (update m s 0) (s + 1) n

-- The first loop of `strncpy` copies up to the NUL. It leaves `n` one lower than the bytes that
-- remain only when it runs out, which the second loop then sees as no byte.
unfoldable pub strncpy : Memory → ℕ → ℕ → ℕ → Memory
unfolding zero_fill
strncpy m s t zero = m
strncpy m s t (suc n) =
    let m' = update m s (m t) in
    let rest = strncpy m' (s + 1) (t + 1) n in if m t == 0 then zero_fill m' (s + 1) n else rest

-- The loop of `safestrcpy`, with `n` bytes of room: the last is kept for the NUL.
pub safe_copy : Memory → ℕ → ℕ → ℕ → Memory
safe_copy m s t zero = m
safe_copy m s t (suc zero) = update m s 0
safe_copy m s t (suc (suc n)) =
    let m' = update m s (m t) in
    let rest = safe_copy m' (s + 1) (t + 1) (suc n) in
    if m t == 0 then update m' (s + 1) 0 else rest

-- `n` is the int whose pattern is given, so that one with the sign bit is `n <= 0`.
pub safestrcpy : Memory → ℕ → ℕ → ℕ → Memory
unfolding safe_copy
safestrcpy m s t n = if ltb n (2 ^ 31) then safe_copy m s t n else m

-- `strlen`, with fuel: `none` means that no NUL was met in so many bytes.
pub strlen : ℕ → Memory → ℕ → Option ℕ
strlen zero m s = none
strlen (suc fuel) m s =
    let rest = strlen fuel m (s + 1) in if m s == 0 then some 0 else suc_some rest
  where
    suc_some : Option ℕ → Option ℕ
    suc_some none = none
    suc_some (some n) = some (n + 1)
