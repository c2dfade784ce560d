-- ===== src/Print/Digits.antt =====
-- The digits that `printint` stores are those of the number, and fit into its buffer.
use os_lab_course_project.Prelude.{
  ℕ, zero, suc, ◌+◌, ◌-◌, ◌*◌, ◌/◌, ◌%◌, ◌≤◌, ◌<◌, ◌≡◌, ◌∙◌, refl, true, ◌==◌, ltb, if◌then◌else◌,
  arith, List, [], ◌∷◌, length, Bool-cases, inl, inr,
}
use os_lab_course_project.Print.{Base, decimal, hexadecimal, number, digit, store_digits, backwards}

-- The value of a digit, and of the digits that are read from the left after `n`.
abbrev pub value : ℕ → ℕ → ℕ
value letter c = if ltb c 58 then c - 48 else c - letter

abbrev pub read : ℕ → Base → List ℕ → ℕ → ℕ
read letter b [] n = n
read letter b (c ∷ s) n = read letter b s (n * number b + value letter c)

-- The value of digits of which the last comes first.
abbrev weigh : ℕ → Base → List ℕ → ℕ
weigh letter b [] = 0
weigh letter b (c ∷ s) = weigh letter b s * number b + value letter c

-- The numbers of so many digits.
abbrev pub power : Base → ℕ → ℕ
power b zero = 1
power b (suc k) = number b * power b k

read-backwards :
    (letter : ℕ) (b : Base) (s acc : List ℕ)
    → read letter b (backwards s acc) 0 ≡ read letter b acc (weigh letter b s)
read-backwards letter b [] acc = refl
read-backwards letter b (c ∷ s) acc = read-backwards letter b s (c ∷ acc)

value-digit : (letter d : ℕ) → 48 ≤ letter → d < 16 → value letter (digit letter d) ≡ d
value-digit letter d h l = ground arith

small_digit : (b : Base) (x : ℕ) → x % number b < 16
small_digit decimal x = omega arith
small_digit hexadecimal x = omega arith

low_part : (b : Base) (x w : ℕ) → w ≡ x / number b → w * number b + x % number b ≡ x
low_part decimal x w e = omega (arith, e)
low_part hexadecimal x w e = omega (arith, e)

high_part : (b : Base) (x k : ℕ) → x < power b (suc k) → x / number b < power b k
high_part decimal x k h = omega (arith, h)
high_part hexadecimal x k h = omega (arith, h)

weigh-store_digits :
    (letter : ℕ) (b : Base) (fuel x : ℕ)
    → 48 ≤ letter
    → x < power b fuel
    → weigh letter b (store_digits letter b fuel x) ≡ x
unfolding store_digits
weigh-store_digits letter b zero x h l = omega (arith, l)
weigh-store_digits letter b (suc fuel) x h l =
    let same = value-digit letter (x % number b) h (small_digit b x) in
    elim (Bool-cases (x / number b == 0)) [
      | inl e ↦ rw (e, same) (low_part b x 0 (ground arith))
      | inr e ↦
          rw (e, same)
            (low_part b x _
              (weigh-store_digits letter b fuel (x / number b) h (high_part b x fuel l)))
    ]

pub length-store_digits :
    (letter : ℕ) (b : Base) (k fuel x : ℕ)
    → x < power b (suc k)
    → length (store_digits letter b fuel x) ≤ suc k
unfolding store_digits
length-store_digits letter b k zero x h = omega arith
length-store_digits letter b zero (suc fuel) x h =
    let none_left : (x / number b == 0) ≡ true = ground (arith, high_part b x zero h) in
    rw none_left (omega arith)
length-store_digits letter b (suc k) (suc fuel) x h = elim (Bool-cases (x / number b == 0)) [
  | inl e ↦ rw e (omega arith)
  | inr e ↦
      rw e (
        omega (arith, length-store_digits letter b k fuel (x / number b) (high_part b x (suc k) h)))
]

-- Read from the left, the digits are the number.
pub read-store_digits :
    (letter : ℕ) (b : Base) (fuel x : ℕ)
    → 48 ≤ letter
    → x < power b fuel
    → read letter b (backwards (store_digits letter b fuel x) []) 0 ≡ x
read-store_digits letter b fuel x h l =
    read-backwards letter b (store_digits letter b fuel x) []
    ∙ weigh-store_digits letter b fuel x h l
