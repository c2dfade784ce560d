-- ===== src/Print.antt =====
-- Numbers as text: `printint` and `cprintf` of xv6/console.c, `printint` and `printf` of xv6/printf.c, and
-- `atoi` of xv6/ulib.c. A string is the list of its bytes up to the NUL.
pub mod Digits
pub mod Numbers
pub mod Formats
mod Tests
use os_lab_course_project.Prelude.{
  ℕ, zero, suc, ◌+◌, ◌-◌, ◌/◌, ◌%◌, Bool, true, false, ◌&&◌, ◌||◌, ◌==◌, ltb, leb, if◌then◌else◌,
  Option, none, some, List, [], ◌∷◌, ◌++◌, add32, sub32, mul32, slt32,
}

-- The bases that the callers give.
pub data Base : Type 0 where
  decimal hexadecimal : Base

abbrev pub number : Base → ℕ
number decimal = 10
number hexadecimal = 16

-- `digits[]`, where `letter + 10` is the letter for 10.
abbrev pub digit : ℕ → ℕ → ℕ
digit letter d = if ltb d 10 then 48 + d else letter + d

-- The letters of xv6/console.c and of xv6/printf.c.
abbrev pub lower : ℕ
lower = 87

abbrev pub upper : ℕ
upper = 55

-- The size of `buf`.
abbrev pub buf_size : ℕ
buf_size = 16

-- `do buf[i++] = digits[x % base]; while((x /= base) != 0)`, with the fuel for `buf`: what is stored, the
-- first index first.
unfoldable pub store_digits : ℕ → Base → ℕ → ℕ → List ℕ
store_digits letter b zero x = []
store_digits letter b (suc fuel) x =
    let rest = store_digits letter b fuel (x / number b) in
    digit letter (x % number b) ∷ (if x / number b == 0 then [] else rest)

-- `while(--i >= 0) consputc(buf[i])`, before what follows.
abbrev pub backwards : List ℕ → List ℕ → List ℕ
backwards [] acc = acc
backwards (x ∷ xs) acc = backwards xs (x ∷ acc)

abbrev pub minus : ℕ
minus = 45

abbrev pub is_negative : Bool → ℕ → Bool
is_negative sign xx = sign && slt32 xx 0

-- What is printed; `xx` is the pattern of an int. The functions of this name in console.c (28-50) and
-- in printf.c (11-36) do the same, with other letters, which are the parameter.
unfoldable pub printint : ℕ → Base → Bool → ℕ → List ℕ
printint letter b sign xx =
    let negative = is_negative sign xx in
    let x = if negative then sub32 0 xx else xx in
    backwards (store_digits letter b buf_size x ++ (if negative then minus ∷ [] else [])) []

-- `while('0' <= *s && *s <= '9') n = n*10 + *s++ - '0';`
unfoldable pub atoi_from : List ℕ → ℕ → ℕ
atoi_from [] n = n
atoi_from (c ∷ s) n =
    let rest = atoi_from s (sub32 (add32 (mul32 n 10) c) 48) in
    if leb 48 c && leb c 57 then rest else n

abbrev pub atoi : List ℕ → ℕ
atoi s = atoi_from s 0

-- The bytes of '%', 'c', 'd', 'p', 's' and 'x'.
abbrev pub percent : ℕ
percent = 37

abbrev pub char_c : ℕ
char_c = 99

abbrev pub char_d : ℕ
char_d = 100

abbrev pub char_p : ℕ
char_p = 112

abbrev pub char_s : ℕ
char_s = 115

abbrev pub char_x : ℕ
char_x = 120

-- "(null)"
abbrev pub null_text : List ℕ
null_text = 40 ∷ 110 ∷ 117 ∷ 108 ∷ 108 ∷ 41 ∷ []

-- The string at a pointer; `text` gives the bytes up to the NUL in memory.
abbrev pub string_at : (ℕ → List ℕ) → ℕ → List ℕ
string_at text s = if s == 0 then null_text else text s

-- `*argp++`, of the words that were passed; `none` if there is none left.
abbrev pub take_arg : (ℕ → List ℕ) → List ℕ → Option (List ℕ × List ℕ)
take_arg f [] = none
take_arg f (w ∷ ws) = some (f w, ws)

-- The `switch` of `cprintf`: what is printed, and the words that are left.
unfoldable pub kernel_convert : ℕ → (ℕ → List ℕ) → ℕ → List ℕ → Option (List ℕ × List ℕ)
kernel_convert letter text c args =
    if c == char_d
    then take_arg (printint letter decimal true) args
    else if c == char_x || c == char_p
    then take_arg (printint letter hexadecimal false) args
    else if c == char_s
    then take_arg (string_at text) args
    else if c == percent
    then some (percent ∷ [], args)
    else some (percent ∷ c ∷ [], args)

-- The branches of `printf` after a '%'.
unfoldable pub user_convert : ℕ → (ℕ → List ℕ) → ℕ → List ℕ → Option (List ℕ × List ℕ)
user_convert letter text c args =
    if c == char_d
    then take_arg (printint letter decimal true) args
    else if c == char_x || c == char_p
    then take_arg (printint letter hexadecimal false) args
    else if c == char_s
    then take_arg (string_at text) args
    else if c == char_c
    then take_arg (λ w. w % 256 ∷ []) args
    else if c == percent
    then some (c ∷ [], args)
    else some (percent ∷ c ∷ [], args)

-- What is printed first, and what the rest prints with the words that are left.
abbrev pub and_then : Option (List ℕ × List ℕ) → (List ℕ → Option (List ℕ)) → Option (List ℕ)
and_then none rest = none
and_then (some (out, args)) rest = before out (rest args)
  where
    before : List ℕ → Option (List ℕ) → Option (List ℕ)
    before out none = none
    before out (some more) = some (out ++ more)

-- The loop of `cprintf`, which looks at two bytes at a '%'; `none` if the words run out.
unfoldable pub kernel_format : ℕ → (ℕ → List ℕ) → List ℕ → List ℕ → Option (List ℕ)
kernel_format letter text [] args = some []
kernel_format letter text (c ∷ []) args = if c == percent then some [] else some (c ∷ [])
kernel_format letter text (c ∷ d ∷ fmt) args =
    if c == percent
    then and_then (kernel_convert letter text d args) (λ rest. kernel_format letter text fmt rest)
    else and_then (some (c ∷ [], args)) (λ rest. kernel_format letter text (d ∷ fmt) rest)

-- The loop of `printf`; whether `state` is '%'.
unfoldable pub user_format : ℕ → (ℕ → List ℕ) → Bool → List ℕ → List ℕ → Option (List ℕ)
user_format letter text state [] args = some []
user_format letter text false (c ∷ fmt) args =
    if c == percent
    then user_format letter text true fmt args
    else and_then (some (c ∷ [], args)) (λ rest. user_format letter text false fmt rest)
user_format letter text true (c ∷ fmt) args =
    and_then (user_convert letter text c args) (λ rest. user_format letter text false fmt rest)

abbrev pub cprintf : (ℕ → List ℕ) → List ℕ → List ℕ → Option (List ℕ)
cprintf text fmt args = kernel_format lower text fmt args

abbrev pub printf : (ℕ → List ℕ) → List ℕ → List ℕ → Option (List ℕ)
printf text fmt args = user_format upper text false fmt args
