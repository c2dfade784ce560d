-- ===== src/Print/Tests.antt =====
-- Numbers and formats that are printed.
use os_lab_course_project.Prelude.{
  ℕ, ◌-◌, ◌^◌, ◌≤◌, ◌<◌, ◌≡◌, refl, false, true, if◌then◌else◌, some, List, [], ◌∷◌, length, arith,
}
use os_lab_course_project.Print.{
  decimal, lower, upper, minus, is_negative, printint, store_digits, atoi, kernel_format,
  kernel_convert, user_format, cprintf,
}
use os_lab_course_project.Print.Digits.{read}
use os_lab_course_project.Print.Numbers.{printint_lem, atoi-printint}
use os_lab_course_project.Print.Formats.{has_char, printf-cprintf}

abbrev no_text : ℕ → List ℕ
no_text s = []

-- "-12"
prints_negative : printint lower decimal true (2 ^ 32 - 12) ≡ 45 ∷ 49 ∷ 50 ∷ []
unfolding printint store_digits
prints_negative = refl

-- "a%x" of 255
prints_hexadecimal : cprintf no_text (97 ∷ 37 ∷ 120 ∷ []) (255 ∷ []) ≡ some (97 ∷ 102 ∷ 102 ∷ [])
unfolding kernel_format kernel_convert printint store_digits
prints_hexadecimal = refl

printint_lem_example :
    (s : List ℕ) × (printint lower decimal true (2 ^ 32 - 12)
      ≡ (if is_negative true (2 ^ 32 - 12) then minus ∷ s else s))
    × (read lower decimal s 0 ≡ 12)
    × (0 < length s)
    × (length s ≤ 10)
printint_lem_example = printint_lem lower (omega arith) decimal true (2 ^ 32 - 12) (omega arith)

atoi-printint_example : atoi (printint upper decimal true 2026) ≡ 2026
atoi-printint_example = atoi-printint upper true 2026 (omega arith) (omega arith)

abbrev format : List ℕ
format = 97 ∷ 37 ∷ 100 ∷ 37 ∷ 122 ∷ 37 ∷ []

without_char : has_char format ≡ false
unfolding has_char
without_char = refl

printf-cprintf_example :
    user_format upper no_text false format (7 ∷ []) ≡ kernel_format upper no_text format (7 ∷ [])
printf-cprintf_example = printf-cprintf upper no_text format (7 ∷ []) without_char
