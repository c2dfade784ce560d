-- ===== src/Vm/Bits.antt =====
-- An address of a page and flags, put together by `|`.
use Prim.Native.Nat.{max, digits, bit_or, bit_or-bitwise}
use os_lab_course_project.Prelude.{ℕ, zero, suc, ◌+◌, ◌*◌, ◌/◌, ◌%◌, ◌≤◌, ◌<◌, ◌≡◌, refl, ap, arith}

-- The digits of `a`, with fuel `n`.
abbrev or_with : ℕ → ℕ → ℕ → ℕ
or_with n a b = digits (λ y. y) max n a b

or_with_enough : (a n b : ℕ) (m : ℕ) → a ≤ m → a ≤ n → or_with n a b ≡ or_with m a b
or_with_enough zero zero b zero h k = refl
or_with_enough zero zero b (suc m) h k = refl
or_with_enough zero (suc n) b zero h k = refl
or_with_enough zero (suc n) b (suc m) h k = refl
or_with_enough (suc a) n b zero h k = absurd (omega arith)
or_with_enough (suc a) zero b (suc m) h k = absurd (omega arith)
or_with_enough (suc a) (suc n) b (suc m) h k =
    omega (arith, or_with_enough (suc a / 2) n (b / 2) m (omega arith) (omega arith))

-- One binary digit at a time.
or_digit : (a b : ℕ) → bit_or a b ≡ bit_or (a / 2) (b / 2) * 2 + max (a % 2) (b % 2)
or_digit zero b = omega (arith, bit_or-bitwise 0 b, bit_or-bitwise 0 (b / 2))
or_digit (suc a) b = omega (
  arith,
  bit_or-bitwise (suc a) b,
  bit_or-bitwise (suc a / 2) (b / 2),
  or_with_enough (suc a / 2) a (b / 2) (suc a / 2) (omega arith) (omega arith),
)

or_zero : (n a : ℕ) → a ≤ n → bit_or a 0 ≡ a
or_zero n zero h = omega (arith, bit_or-bitwise 0 0)
or_zero zero (suc a) h = absurd (omega arith)
or_zero (suc n) (suc a) h = omega (arith, or_digit (suc a) 0, or_zero n (suc a / 2) (omega arith))

-- `a << k` and `b >> k`, a digit at a time.
abbrev shl : ℕ → ℕ → ℕ
shl zero a = a
shl (suc k) a = 2 * shl k a

abbrev shr : ℕ → ℕ → ℕ
shr zero b = b
shr (suc k) b = shr k (b / 2)

or_apart : (k a b : ℕ) → shr k b ≡ 0 → bit_or (shl k a) b ≡ shl k a + b
or_apart zero a b h = omega (arith, or_zero a a (omega arith), ap (bit_or a) h)
or_apart (suc k) a b h = omega (
  arith,
  or_digit (2 * shl k a) b,
  ap (λ (x : ℕ). bit_or x (b / 2)) {x = 2 * shl k a / 2} {y = shl k a} (omega arith),
  or_apart k a (b / 2) h,
)

-- The address of a page and flags below its bits are added.
pub or_page : (a f : ℕ) → a % 4096 ≡ 0 → f < 4096 → bit_or a f ≡ a + f
or_page a f h l =
    let page : shl 12 (a / 4096) ≡ a = omega arith in
    omega (arith, or_apart 12 (a / 4096) f (omega arith), page, ap (λ (x : ℕ). bit_or x f) page)

-- The lowest bit is set, and the others stay.
pub or_present : (e : ℕ) → bit_or e 1 ≡ e / 2 * 2 + 1
or_present e = omega (arith, or_digit e 1, or_zero (e / 2) (e / 2) (omega arith))
