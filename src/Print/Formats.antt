-- ===== src/Print/Formats.antt =====
-- `printf` and `cprintf` print the same, but for %c and for the letters of hexadecimal numbers.
use os_lab_course_project.Prelude.{
  ℕ, ◌≡◌, ◌∙◌, refl, ap, Bool, true, false, ◌==◌, if◌then◌else◌, arith, some, List, [], ◌∷◌,
  Bool-cases, inl, inr,
}
use mathlib.Core.Path.{subst, fun_ext}
use os_lab_course_project.Print.{
  percent, char_c, kernel_convert, user_convert, and_then, kernel_format, user_format,
}

-- Whether a %c is in the format.
unfoldable pub has_char : List ℕ → Bool
has_char [] = false
has_char (c ∷ []) = false
has_char (c ∷ d ∷ fmt) =
    let after = has_char fmt in
    let next = has_char (d ∷ fmt) in
    if c == percent then (if d == char_c then true else after) else next

convert_same :
    (letter : ℕ) (text : ℕ → List ℕ) (c : ℕ) (args : List ℕ)
    → (c == char_c) ≡ false
    → user_convert letter text c args ≡ kernel_convert letter text c args
unfolding user_convert kernel_convert
convert_same letter text c args h = elim (Bool-cases (c == percent)) [
  | inl e ↦
      let same : percent ≡ c = ground (arith, e) in
      subst (λ (k : ℕ). user_convert letter text k args ≡ kernel_convert letter text k args) same
        refl
  | inr e ↦ rw (h, e) refl
]

not_char : (a b : Bool) → (if a then true else b) ≡ false → (a ≡ false) × (b ≡ false)
not_char true b h = absurd (cc)
not_char false b h = (refl, h)

-- On a format without %c the loops of `printf` and of `cprintf` print the same, or both run out of
-- words, if they have the same letters for hexadecimal digits.
pub printf-cprintf :
    (letter : ℕ) (text : ℕ → List ℕ) (fmt args : List ℕ)
    → has_char fmt ≡ false
    → user_format letter text false fmt args ≡ kernel_format letter text fmt args
unfolding user_format kernel_format has_char
printf-cprintf letter text [] args h = refl
printf-cprintf letter text (c ∷ []) args h = refl
printf-cprintf letter text (c ∷ d ∷ fmt) args h = elim (Bool-cases (c == percent)) [
  | inl e ↦
      let (other, after) = not_char (d == char_c) (has_char fmt) (rw e at h) in
      rw e (
        ap (λ o. and_then o (λ rest. user_format letter text false fmt rest))
          (convert_same letter text d args other)
        ∙ ap (and_then (kernel_convert letter text d args))
            (fun_ext (λ rest. printf-cprintf letter text fmt rest after)))
  | inr e ↦ rw e (
      ap (λ o. and_then (some (c ∷ [], args)) (λ _. o))
        (printf-cprintf letter text (d ∷ fmt) args (rw e at h)))
]
