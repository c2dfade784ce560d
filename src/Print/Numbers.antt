-- ===== src/Print/Numbers.antt =====
-- What `printint` prints, and `atoi` of it.
use os_lab_course_project.Prelude.{
  ℕ, zero, suc, ◌+◌, ◌-◌, ◌*◌, ◌/◌, ◌%◌, ◌^◌, ◌≤◌, ◌<◌, ◌≡◌, ◌∙◌, refl, ap, Bool, true, false, ◌==◌,
  ◌&&◌, leb, if◌then◌else◌, arith, List, [], ◌∷◌, ◌++◌, length, All, Bool-cases, inl, inr, add32,
  sub32, mul32,
}
use os_lab_course_project.Print.{
  Base, decimal, hexadecimal, digit, buf_size, store_digits, backwards, minus, is_negative,
  printint, atoi_from, atoi,
}
use os_lab_course_project.Print.Digits.{value, read, power, length-store_digits, read-store_digits}

backwards-append : (s t acc : List ℕ) → backwards (s ++ t) acc ≡ backwards t (backwards s acc)
backwards-append [] t acc = refl
backwards-append (c ∷ s) t acc = backwards-append s t (c ∷ acc)

length-backwards : (s acc : List ℕ) → length (backwards s acc) ≡ length s + length acc
length-backwards [] acc = omega arith
length-backwards (c ∷ s) acc = omega (arith, length-backwards s (c ∷ acc))

length-store :
    (letter : ℕ) (b : Base) (fuel x : ℕ) → 0 < length (store_digits letter b (suc fuel) x)
unfolding store_digits
length-store letter b fuel x = omega arith

-- A word fits into the fuel, and has ten digits at most.
word_fits : (b : Base) (x : ℕ) → x < 2 ^ 32 → (x < power b buf_size) × (x < power b 10)
word_fits decimal x h = (omega arith, omega arith)
word_fits hexadecimal x h = (omega arith, omega arith)

-- A negative int has the highest bit.
high_bit : (sign : Bool) (xx : ℕ) → xx < 2 ^ 32 → is_negative sign xx ≡ true → 2 ^ 31 ≤ xx
high_bit false xx h e = absurd (cc)
high_bit true xx h e = ground (arith, e)

module _ (letter : ℕ) (large : 48 ≤ letter) (b : Base) (sign : Bool) (xx : ℕ)
    (word : xx < 2 ^ 32) where
  abbrev magnitude : ℕ
  magnitude = if is_negative sign xx then 2 ^ 32 - xx else xx

  abbrev printed : ℕ → List ℕ
  printed x = backwards (store_digits letter b buf_size x) []

  IsNumber : ℕ → Type 0
  IsNumber x =
      (read letter b (printed x) 0 ≡ x) × (0 < length (printed x)) × (length (printed x) ≤ 10)

  printed-IsNumber : (x : ℕ) → x < 2 ^ 32 → IsNumber x
  unfolding IsNumber
  printed-IsNumber x h =
      let (fits, short) = word_fits b x h in
      (
        read-store_digits letter b buf_size x large fits,
        omega (
          arith,
          length-backwards (store_digits letter b buf_size x) [],
          length-store letter b 15 x,
        ),
        omega (
          arith,
          length-backwards (store_digits letter b buf_size x) [],
          length-store_digits letter b 9 buf_size x short,
        ),
      )

  printint-printed :
      printint letter b sign xx
      ≡ (if is_negative sign xx then minus ∷ printed magnitude else printed magnitude)
  unfolding printint
  printint-printed = elim (Bool-cases (is_negative sign xx)) [
    | inl e ↦
        let wrapped : sub32 0 xx ≡ 2 ^ 32 - xx = omega (arith, high_bit sign xx word e) in
        rw (e, wrapped)
          (backwards-append (store_digits letter b buf_size (2 ^ 32 - xx)) (minus ∷ []) [])
    | inr e ↦ rw e (backwards-append (store_digits letter b buf_size xx) [] [])
  ]

  -- `printint` in base 10 or 16 of a word prints a minus sign first just when the word is a negative int
  -- and `sign` is set; the digits after it are those of the number or of its negation, from one to ten,
  -- so that nothing is stored past the end of `buf`.
  pub printint_lem :
      (s : List ℕ) × (printint letter b sign xx ≡ (if is_negative sign xx then minus ∷ s else s))
      × (read letter b s 0 ≡ magnitude)
      × (0 < length s)
      × (length s ≤ 10)
  unfolding IsNumber
  printint_lem =
      let small : magnitude < 2 ^ 32 = ground (arith, high_bit sign xx word) in
      let (same, some_digit, short) = printed-IsNumber magnitude small in
      (printed magnitude, printint-printed, same, some_digit, short)

abbrev IsDigit : ℕ → Type 0
IsDigit c = (48 ≤ c) × (c ≤ 57)

digit-IsDigit : (letter d : ℕ) → d < 10 → IsDigit (digit letter d)
digit-IsDigit letter d h = (ground arith, ground arith)

store_digits-IsDigit : (letter fuel x : ℕ) → All IsDigit (store_digits letter decimal fuel x)
unfolding store_digits
store_digits-IsDigit letter zero x = tt
store_digits-IsDigit letter (suc fuel) x = elim (Bool-cases (x / 10 == 0)) [
  | inl e ↦ rw e (digit-IsDigit letter (x % 10) (omega arith), tt)
  | inr e ↦
      rw e (digit-IsDigit letter (x % 10) (omega arith), store_digits-IsDigit letter fuel (x / 10))
]

backwards-All : (s acc : List ℕ) → All IsDigit s → All IsDigit acc → All IsDigit (backwards s acc)
backwards-All [] acc h k = k
backwards-All (c ∷ s) acc (here, h) k = backwards-All s (c ∷ acc) h (here, k)

-- `atoi` reads digits modulo 2 ^ 32.
atoi_from-read :
    (letter : ℕ) (s : List ℕ) (n : ℕ)
    → All IsDigit s
    → atoi_from s (n % 2 ^ 32) ≡ read letter decimal s n % 2 ^ 32
unfolding atoi_from
atoi_from-read letter [] n h = refl
atoi_from-read letter (c ∷ s) n ((low, high), h) =
    let goes : (leb 48 c && leb c 57) ≡ true = ground arith in
    let digit_value : value letter c ≡ c - 48 = ground arith in
    let next : sub32 (add32 (mul32 (n % 2 ^ 32) 10) c) 48 ≡ (n * 10 + value letter c) % 2 ^ 32 =
      omega (arith, digit_value) in
    rw (goes, next) (atoi_from-read letter s (n * 10 + value letter c) h)

no_high_bit : (sign : Bool) (xx : ℕ) → xx < 2 ^ 31 → is_negative sign xx ≡ false
no_high_bit false xx h = refl
no_high_bit true xx h = ground arith

-- `atoi` of what `printint` prints in base 10 for an int that is not negative is the int.
pub atoi-printint :
    (letter : ℕ) (sign : Bool) (xx : ℕ)
    → 48 ≤ letter
    → xx < 2 ^ 31
    → atoi (printint letter decimal sign xx) ≡ xx
atoi-printint letter sign xx h l =
    let ds = store_digits letter decimal buf_size xx in
    let word : xx < 2 ^ 32 = omega arith in
    let (fits, short) = word_fits decimal xx word in
    ap atoi (printint-printed letter h decimal sign xx word ∙ rw (no_high_bit sign xx l) refl)
    ∙ atoi_from-read letter (backwards ds []) 0
        (backwards-All ds [] (store_digits-IsDigit letter buf_size xx) tt)
    ∙ ap (λ (n : ℕ). n % 2 ^ 32) (read-store_digits letter decimal buf_size xx h fits)
    ∙ omega arith
