-- ===== src/Descriptor/Count.antt =====
-- How many descriptors are for a file.
use os_lab_course_project.Prelude.{
  ℕ, zero, suc, ◌+◌, ◌*◌, ◌≤◌, ◌<◌, ◌≡◌, ◌∙◌, refl, ap, true, false, ◌==◌, if◌then◌else◌, arith,
  Option, none, some, update,
}
use native.Mathlib.Decide.{ℕ_discrete}
use os_lab_course_project.Ptable.{nproc}
use os_lab_course_project.Descriptor.{nofile, Row}

-- 1 if the pointer is to file `f`.
abbrev pub here : ℕ → Option ℕ → ℕ
here f none = 0
here f (some g) = if g == f then 1 else 0

-- Of the first `n` descriptors.
abbrev pub count : ℕ → Row → ℕ → ℕ
count f row zero = 0
count f row (suc n) = here f (row n) + count f row n

-- Of the first `n` processes.
abbrev pub total : ℕ → (ℕ → Row) → ℕ → ℕ
total f rows zero = 0
total f rows (suc n) = count f (rows n) nofile + total f rows n

pub here-le : (f : ℕ) (p : Option ℕ) → here f p ≤ 1
here-le f none = omega arith
here-le f (some g) = ground arith

pub count-le : (f : ℕ) (row : Row) (n : ℕ) → count f row n ≤ n
count-le f row zero = omega arith
count-le f row (suc n) = omega (arith, here-le f (row n), count-le f row n)

total-le : (f : ℕ) (rows : ℕ → Row) (n : ℕ) → total f rows n ≤ 16 * n
total-le f rows zero = omega arith
total-le f rows (suc n) = omega (arith, count-le f (rows n) nofile, total-le f rows n)

-- A descriptor at or above `n` does not count.
count_above :
    (f : ℕ) (row : Row) (fd : ℕ) (p : Option ℕ) (n : ℕ)
    → n ≤ fd
    → count f (update row fd p) n ≡ count f row n
count_above f row fd p zero h = refl
count_above f row fd p (suc n) h =
    let other : (n == fd) ≡ false = ground arith in
    rw other (ap (λ c. here f (row n) + c) (count_above f row fd p n (omega arith)))

pub count-update :
    (f : ℕ) (row : Row) (fd : ℕ) (p : Option ℕ) (n : ℕ)
    → fd < n
    → count f (update row fd p) n + here f (row fd) ≡ count f row n + here f p
count-update f row fd p zero h = absurd (omega arith)
count-update f row fd p (suc n) h = elim (ℕ_discrete n fd) [
  | yes same ↦
      let equal : (n == fd) ≡ true = ground arith in
      rw equal (
        omega
          (arith, count_above f row fd p n (omega (arith, same)), ap (λ i. here f (row i)) same))
  | no ne ↦
      let other : (n == fd) ≡ false = ground arith in
      rw other (omega (arith, count-update f row fd p n (omega arith)))
]

total_above :
    (f : ℕ) (rows : ℕ → Row) (p : ℕ) (row : Row) (n : ℕ)
    → n ≤ p
    → total f (update rows p row) n ≡ total f rows n
total_above f rows p row zero h = refl
total_above f rows p row (suc n) h =
    let other : (n == p) ≡ false = ground arith in
    rw other (ap (λ c. count f (rows n) nofile + c) (total_above f rows p row n (omega arith)))

total-update :
    (f : ℕ) (rows : ℕ → Row) (p : ℕ) (row : Row) (n : ℕ)
    → p < n
    → total f (update rows p row) n + count f (rows p) nofile ≡ total f rows n + count f row nofile
total-update f rows p row zero h = absurd (omega arith)
total-update f rows p row (suc n) h = elim (ℕ_discrete n p) [
  | yes same ↦
      let equal : (n == p) ≡ true = ground arith in
      rw equal (
        omega (
          arith,
          total_above f rows p row n (omega (arith, same)),
          ap (λ i. count f (rows i) nofile) same,
        ))
  | no ne ↦
      let other : (n == p) ≡ false = ground arith in
      rw other (omega (arith, total-update f rows p row n (omega arith)))
]

-- A descriptor for the file counts.
pub count-here : (f : ℕ) (row : Row) (fd n : ℕ) → fd < n → row fd ≡ some f → 0 < count f row n
count-here f row fd zero h e = absurd (omega arith)
count-here f row fd (suc n) h e = elim (ℕ_discrete n fd) [
  | yes same ↦
      let one : here f (row n) ≡ 1 = ap (here f) (ap row same ∙ e) ∙ ground arith in
      omega (arith, one)
  | no ne ↦ omega (arith, count-here f row fd n (omega arith) e)
]

-- Of all processes.
unfoldable pub pointers : ℕ → (ℕ → Row) → ℕ
pointers f rows = total f rows nproc

pub pointers-le : (f : ℕ) (rows : ℕ → Row) → pointers f rows ≤ 1024
unfolding pointers
pointers-le f rows = total-le f rows nproc

pub pointers-update :
    (f : ℕ) (rows : ℕ → Row) (p : ℕ) (row : Row)
    → p < nproc
    → pointers f (update rows p row) + count f (rows p) nofile
      ≡ pointers f rows + count f row nofile
unfolding pointers
pointers-update f rows p row h = total-update f rows p row nproc h

none_counted : (f n : ℕ) → count f (λ fd. none) n ≡ 0
none_counted f zero = refl
none_counted f (suc n) = omega (arith, none_counted f n)

pub count-pointers :
    (f : ℕ) (rows : ℕ → Row) (p : ℕ) → p < nproc → count f (rows p) nofile ≤ pointers f rows
count-pointers f rows p h =
    le_of (pointers f (update rows p (λ fd. none))) (count f (rows p) nofile) (pointers f rows)
      (count f (λ fd. none) nofile) (pointers-update f rows p (λ fd. none) h)
      (none_counted f nofile)
  where
    le_of : (a b c d : ℕ) → a + b ≡ c + d → d ≡ 0 → b ≤ c
    le_of a b c d e z = omega (arith, e, z)

pub count_unused :
    (f : ℕ) (row : Row) (n : ℕ) → ((x : ℕ) → x < n → row x ≡ none) → count f row n ≡ 0
count_unused f row zero h = refl
count_unused f row (suc n) h =
    let zero_here : here f (row n) ≡ 0 = ap (here f) (h n (omega arith)) in
    omega (arith, zero_here, count_unused f row n (λ x l. h x (omega arith)))

pub pointers-none : (f : ℕ) → pointers f (λ p fd. none) ≡ 0
unfolding pointers
pointers-none f = refl
