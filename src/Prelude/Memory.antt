-- ===== src/Prelude/Memory.antt =====
-- A memory, a disk or a table as a function of its address.
use Prim.Native.Nat.{ℕ, suc, ◌+◌}
use mathlib.Core.Path.{◌≡◌, ap}
use mathlib.Core.Bool.{◌&&◌}
use native.Mathlib.Omega.{arith}
use os_lab_course_project.Prelude.Tests.{◌==◌, ltb, leb, if◌then◌else◌}

module _ {ℓ} {A : Type ℓ} where
  abbrev pub update : (ℕ → A) → ℕ → A → ℕ → A
  update m a v x = if x == a then v else m x

module _ {ℓ} {A : Type ℓ} where
  -- One round of a loop that applies `g` to the entries from `i` on, of which `r + 1` are left.
  pub range-step :
      (g : A → A) (f : ℕ → A) (i r j : ℕ)
      → (if leb (i + 1) j && ltb j (i + 1 + r)
          then g (update f i (g (f i)) j)
          else update f i (g (f i)) j)
        ≡ (if leb i j && ltb j (i + suc r) then g (f j) else f j)
  range-step g f i r j = ground (arith, ap f {x = i} {y = j})

  pub range-none :
      (g : A → A) (f : ℕ → A) (i j : ℕ) → f j ≡ (if leb i j && ltb j (i + 0) then g (f j) else f j)
  range-none g f i j = ground arith
