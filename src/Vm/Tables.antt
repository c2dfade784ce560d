-- ===== src/Vm/Tables.antt =====
-- What a page table maps, and when its pages are apart.
use os_lab_course_project.Prelude.{
  ℕ, ◌+◌, ◌*◌, ◌%◌, ◌≤◌, ◌<◌, ◌≡◌, ◌≢◌, ap, Bool, true, false, ◌&&◌, leb, ltb, if◌then◌else◌, List,
  [], ◌∷◌, arith,
}
use os_lab_course_project.Kalloc.{kernbase, phystop, v2p}
use os_lab_course_project.Kalloc.Pages.{NotIn}
use os_lab_course_project.Vm.{Vm, pdx, ptx, p2v, pte_addr, is_present}
use os_lab_course_project.Vm.Bits.{or_page}
use Prim.Native.Nat.{bit_or}

-- A page of the memory that the kernel maps.
pub record IsFrame (t : ℕ) : Type 0 where
  pub aligned : t % 4096 ≡ 0
  pub above : kernbase ≤ t
  pub below : t < kernbase + phystop

abbrev pub AreFrames : List ℕ → Type 0
AreFrames [] = Unit
AreFrames (t ∷ ts) = IsFrame t × NotIn t ts × AreFrames ts

-- Entry `i` of the page directory has a page table, and where it is.
abbrev pub has : (ℕ → ℕ) → ℕ → ℕ → Bool
has w d i = is_present (w (d + 4 * i))

abbrev pub table : (ℕ → ℕ) → ℕ → ℕ → ℕ
table w d i = p2v (pte_addr (w (d + 4 * i)))

-- The entry for index `i` of the directory and `k` of the table, 0 if there is no table.
abbrev pub entry_at : (ℕ → ℕ) → ℕ → ℕ → ℕ → ℕ
entry_at w d i k = if has w d i then w (table w d i + 4 * k) else 0

-- The page table entry of a virtual address.
abbrev pub pte : Vm → ℕ → ℕ → ℕ
pte m d va = entry_at m.words d (pdx va) (ptx va)

-- The directory and the tables are pages, all different, and none of them is free.
pub record IsTable (d : ℕ) (m : Vm) : Type 0 where
  pub dir : IsFrame d
  pub dir_taken : NotIn d m.freelist
  pub frame : (i : ℕ) → i < 1024 → has m.words d i ≡ true → IsFrame (table m.words d i)
  pub apart : (i : ℕ) → i < 1024 → has m.words d i ≡ true → table m.words d i ≢ d
  pub taken : (i : ℕ) → i < 1024 → has m.words d i ≡ true → NotIn (table m.words d i) m.freelist
  pub distinct :
      (i j : ℕ)
      → i < 1024
      → j < 1024
      → has m.words d i ≡ true
      → has m.words d j ≡ true
      → table m.words d i ≡ table m.words d j
      → i ≡ j
  pub free : AreFrames m.freelist

-- The entry that refers to a page.
pub entry_frame :
    (t : ℕ)
    → IsFrame t
    → (is_present (bit_or (v2p t) 7) ≡ true) × (p2v (pte_addr (bit_or (v2p t) 7)) ≡ t)
entry_frame t f =
    let or : bit_or (v2p t) 7 ≡ v2p t + 7 =
      or_page (v2p t) 7 (omega (arith, f.aligned, f.above, f.below)) (omega arith) in
    (ground (arith, or), omega (arith, or, f.aligned, f.above, f.below))

-- A word of one page is none of another.
pub frame_apart :
    (p q k : ℕ)
    → IsFrame p
    → IsFrame q
    → p ≢ q
    → k < 1024
    → (leb q (p + 4 * k) && ltb (p + 4 * k) (q + 4096)) ≡ false
frame_apart p q k f g ne l = ground (arith, f.aligned, g.aligned)

pub word_apart :
    (p q k l : ℕ) → IsFrame p → IsFrame q → p ≢ q → k < 1024 → l < 1024 → p + 4 * k ≢ q + 4 * l
word_apart p q k l f g ne h m = λ e. absurd (omega (arith, f.aligned, g.aligned, e, ne))

-- An entry, by whether there is a table.
pub entry_at-table :
    (w : ℕ → ℕ) (d i k p : ℕ)
    → has w d i ≡ true
    → table w d i ≡ p
    → entry_at w d i k ≡ w (p + 4 * k)
entry_at-table w d i k p h t = rw h (ap (λ (q : ℕ). w (q + 4 * k)) t)

pub entry_at_none : (w : ℕ → ℕ) (d i k : ℕ) → has w d i ≡ false → entry_at w d i k ≡ 0
entry_at_none w d i k h = rw h
