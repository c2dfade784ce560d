-- ===== src/Console/Buffer.antt =====
-- The bytes in the ring of the console.
use os_lab_course_project.Prelude.{
  ℕ, ◌+◌, ◌-◌, ◌%◌, ◌^◌, ◌≤◌, ◌<◌, ◌≡◌, sym, List, [], ◌∷◌, ◌++◌, length, update, arith, sub32,
  add32,
}
use mathlib.Core.Path.{subst}
use os_lab_course_project.Console.Line.{input_buf, turned}

-- The bytes from counter `h` on are those of the list.
abbrev pub Holds : (ℕ → ℕ) → ℕ → List ℕ → Type 0
Holds b h [] = Unit {0}
Holds b h (x ∷ xs) = (b (h % input_buf) ≡ x) × Holds b (add32 h 1) xs

-- The bytes before counter `e` are those of the list, the last one first.
abbrev pub HoldsBack : (ℕ → ℕ) → ℕ → List ℕ → Type 0
HoldsBack b e [] = Unit {0}
HoldsBack b e (x ∷ xs) = (b (sub32 e 1 % input_buf) ≡ x) × HoldsBack b (sub32 e 1) xs

-- A write just past `d` bytes leaves the first ones alone.
pub Holds-update :
    (b : ℕ → ℕ) (xs : List ℕ) (h d i x : ℕ)
    → h < 2 ^ 32
    → length xs ≤ d
    → d < input_buf
    → i ≡ add32 h d % input_buf
    → Holds b h xs
    → Holds (update b i x) h xs
Holds-update b [] h d i x w l m e s = tt
Holds-update b (y ∷ ys) h d i x w l m e (s, ss) = (
  ground (arith, e),
  Holds-update b ys (add32 h 1) (d - 1) i x (omega arith) (omega arith) (omega arith) (omega arith)
      ss,
)

pub HoldsBack-update :
    (b : ℕ → ℕ) (xs : List ℕ) (e d i x : ℕ)
    → e < 2 ^ 32
    → length xs + d < input_buf
    → i ≡ add32 e d % input_buf
    → HoldsBack b e xs
    → HoldsBack (update b i x) e xs
HoldsBack-update b [] e d i x w m q s = tt
HoldsBack-update b (y ∷ ys) e d i x w m q (s, ss) = (
  ground (arith, q),
  HoldsBack-update b ys (sub32 e 1) (d + 1) i x (omega arith) (omega arith) (omega arith) ss,
)

pub Holds-append :
    (b : ℕ → ℕ) (xs ys : List ℕ) (h w : ℕ)
    → w ≡ add32 h (length xs)
    → w < 2 ^ 32
    → h < 2 ^ 32
    → Holds b h xs
    → Holds b w ys
    → Holds b h (xs ++ ys)
Holds-append b [] ys h w e lw lh s t =
    let same : w ≡ h = omega (arith, e) in subst (λ (k : ℕ). Holds b k ys) same t
Holds-append b (x ∷ xs) ys h w e lw lh (s, ss) t =
    (s, Holds-append b xs ys (add32 h 1) w (omega (arith, e)) lw (omega arith) ss t)

-- Read forward, the bytes before `e` are those of the list turned round.
pub HoldsBack-Holds :
    (b : ℕ → ℕ) (xs acc : List ℕ) (e h : ℕ)
    → e < 2 ^ 32
    → h < 2 ^ 32
    → e ≡ add32 h (length xs)
    → length xs < 2 ^ 32
    → HoldsBack b e xs
    → Holds b e acc
    → Holds b h (turned xs acc)
HoldsBack-Holds b [] acc e h le lh q n s t =
    let same : e ≡ h = omega (arith, q) in subst (λ (k : ℕ). Holds b k acc) same t
HoldsBack-Holds b (x ∷ xs) acc e h le lh q n (s, ss) t =
    let back : add32 (sub32 e 1) 1 ≡ e = omega (arith, le) in
    HoldsBack-Holds b xs (x ∷ acc) (sub32 e 1) h (omega arith) lh (omega (arith, q))
      (omega (arith, n)) ss (s, subst (λ (k : ℕ). Holds b k acc) (sym back) t)
