-- ===== src/Prelude/Pointers.antt =====
-- A list of pointers that are held, and how many of them are to one object.
use Prim.Native.Nat.{ℕ, zero, suc, ◌+◌, ◌≤◌, ◌<◌}
use mathlib.Core.Path.{◌≡◌}
use mathlib.Core.List.{List, [], ◌∷◌}
use mathlib.Core.Option.{some}
use native.Mathlib.Omega.{arith}
use os_lab_course_project.Prelude.Tests.{◌==◌, if◌then◌else◌}
use os_lab_course_project.Prelude.Lists.{length, get_elem?}
use os_lab_course_project.Prelude.Sums.{remove_at}

-- How many of the pointers are to `i`.
abbrev pub holders : ℕ → List ℕ → ℕ
holders i [] = 0
holders i (j ∷ js) = (if j == i then 1 else 0) + holders i js

pub holders-remove_at :
    (i : ℕ) (hs : List ℕ) (k j : ℕ)
    → get_elem? hs k ≡ some j
    → holders i (remove_at hs k) + (if j == i then 1 else 0) ≡ holders i hs
holders-remove_at i [] k j e = ground arith
holders-remove_at i (h ∷ hs) zero j e = ground arith
holders-remove_at i (h ∷ hs) (suc k) j e = omega (arith, holders-remove_at i hs k j e)

pub holders-le : (i : ℕ) (hs : List ℕ) → holders i hs ≤ length hs
holders-le i [] = omega arith
holders-le i (h ∷ hs) = ground (arith, holders-le i hs)

pub holders-here : (hs : List ℕ) (k j : ℕ) → get_elem? hs k ≡ some j → 0 < holders j hs
holders-here [] k j e = ground arith
holders-here (h ∷ hs) zero j e = ground arith
holders-here (h ∷ hs) (suc k) j e = omega (arith, holders-here hs k j e)
