-- ===== src/Vm/Map.antt =====
-- `mappages` maps the pages of a range, and no others.
use Prim.Native.Nat.{bit_or}
use os_lab_course_project.Prelude.{
  ℕ, zero, suc, ◌+◌, ◌-◌, ◌*◌, ◌/◌, ◌%◌, ◌^◌, ◌≤◌, ◌<◌, ◌≡◌, ◌≢◌, ◌⊎◌, inl, inr, refl, sym, ap, ◌∙◌,
  Bool, true, false, ◌&&◌, ◌==◌, ==_ne, leb, ltb, if◌then◌else◌, none, some, [], arith, add32,
  sub32, Result, ok,
}
use mathlib.Core.Path.{subst}
use native.Mathlib.Decide.{}
use os_lab_course_project.Vm.{
  Vm, pdx, ptx, pte_p, is_present, pgrounddown, set_entry, walkpgdir, map_page, map_from, mappages,
}
use os_lab_course_project.Vm.Bits.{}
use os_lab_course_project.Vm.Tables.{table, IsTable, entry_at-table}
use os_lab_course_project.Vm.Entry.{}
use os_lab_course_project.Vm.Pages.{
  page_entry, mapped, Mapped, mapped-or, Mapped-none, set-Mapped, Mapped-trans,
}
use os_lab_course_project.Vm.Walk.{Walked, walkpgdir_lem}

-- What `map_from` can do when the pages are not mapped: map them all, or the first of them until there is
-- no free page for a page table.
abbrev pub MapResult : ℕ → ℕ → ℕ → ℕ → ℕ → Vm → Result (Bool × Vm) → Type 0
MapResult d perm q pa k m r =
    ((m' : Vm) × (r ≡ ok (true, m')) × Mapped d perm q pa k m m')
    ⊎ ((j : ℕ) × (m' : Vm) × (r ≡ ok (false, m'))
        × (j < k)
        × Mapped d perm q pa j m m'
        × (m'.freelist ≡ []))

-- One round.
map_from-stop :
    (d perm fuel q last pa : ℕ) (m : Vm)
    → walkpgdir d (4096 * q) true m ≡ (none, m)
    → map_from d perm (suc fuel) (4096 * q) last pa m ≡ ok (false, m)
unfolding map_from
map_from-stop d perm fuel q last pa m e = rw e

map_from-last :
    (d perm fuel a last pa p e : ℕ) (m m' : Vm)
    → a ≡ last
    → walkpgdir d a true m ≡ (some p, m')
    → is_present (m'.words p) ≡ false
    → bit_or (bit_or pa perm) pte_p ≡ e
    → map_from d perm (suc fuel) a last pa m ≡ ok (true, set_entry p e m')
unfolding map_from
map_from-last d perm fuel a last pa p e m m' q w free o =
    let here : (a == last) ≡ true = ground (arith, q) in rw (w, map_page, free, o, here)

map_from-more :
    (d perm fuel a last pa p e b pb : ℕ) (m m' : Vm)
    → walkpgdir d a true m ≡ (some p, m')
    → is_present (m'.words p) ≡ false
    → bit_or (bit_or pa perm) pte_p ≡ e
    → a ≢ last
    → add32 a 4096 ≡ b
    → add32 pa 4096 ≡ pb
    → map_from d perm (suc fuel) a last pa m ≡ map_from d perm fuel b last pb (set_entry p e m')
unfolding map_from
map_from-more d perm fuel a last pa p e b pb m m' w free o ne f g =
    let other : (a == last) ≡ false = ==_ne a last ne in rw (w, map_page, free, o, other, f, g)

Walked-page :
    (d q a : ℕ) (m m' : Vm)
    → q < 2 ^ 20
    → Walked d (pdx (4096 * q)) (ptx (4096 * q)) m a m'
    → Walked d (q / 1024) (q % 1024) m a m'
Walked-page d q a m m' h w =
    let i : pdx (4096 * q) ≡ q / 1024 = omega arith in
    let k : ptx (4096 * q) ≡ q % 1024 = omega arith in
    subst (λ (x : ℕ). Walked d (q / 1024) x m a m') k
      (subst (λ (x : ℕ). Walked d x (ptx (4096 * q)) m a m') i w)

-- The word that `walkpgdir` points at is the entry of the page.
Walked-word :
    (d q a : ℕ) (m m' : Vm)
    → q < 2 ^ 20
    → Walked d (q / 1024) (q % 1024) m a m'
    → m'.words a ≡ page_entry m d q
Walked-word d q a m m' h w =
    ap m'.words w.at
    ∙ sym
        (entry_at-table m'.words d (q / 1024) (q % 1024) (table m'.words d (q / 1024)) w.there refl)
    ∙ w.same (q / 1024) (q % 1024) (omega arith) (omega arith)

skip : (n q x old : ℕ) → q + 1 ≤ n → (if leb q n && ltb n (q + 1) then x else old) ≡ old
skip n q x old h = ground arith

-- Pages after the first are as they were.
after_first :
    (d perm q pa k : ℕ) (m m1 : Vm)
    → q + suc k ≤ 2 ^ 20
    → Mapped d perm q pa 1 m m1
    → ((n : ℕ) → q ≤ n → n < q + suc k → is_present (page_entry m d n) ≡ false)
    → (n : ℕ) → q + 1 ≤ n
    → n < q + 1 + k
    → is_present (page_entry m1 d n) ≡ false
after_first d perm q pa k m m1 fits u free n low high =
    ap is_present (
      u.entries n (omega arith)
      ∙ skip n q (mapped (pa + 4096 * (n - q)) perm) (page_entry m d n) low)
    ∙ free n (omega arith) (omega arith)

-- A round on a page that is not mapped.
round :
    (d perm q pa : ℕ) (m : Vm)
    → IsTable d m
    → q < 2 ^ 20
    → is_present (page_entry m d q) ≡ false
    → ((a : ℕ) × (m' : Vm) × (walkpgdir d (4096 * q) true m ≡ (some a, m'))
        × (is_present (m'.words a) ≡ false)
        × Mapped d perm q pa 1 m (set_entry a (mapped pa perm) m'))
      ⊎ ((walkpgdir d (4096 * q) true m ≡ (none, m)) × (m.freelist ≡ []))
round d perm q pa m v h free = elim (walkpgdir_lem d (4096 * q) m.words m.freelist v) [
  | inr (w, empty, _) ↦ inr (w, empty)
  | inl (a, m', w, found) ↦
      let page = Walked-page d q a m m' h found in
      inl (
        a,
        m',
        w,
        ap is_present (Walked-word d q a m m' h page) ∙ free,
        set-Mapped d perm q pa a m m' h page,
      )
]

-- The first page and what the rounds after it did.
MapResult-more :
    (d perm q pa k : ℕ) (m m1 : Vm) (r r' : Result (Bool × Vm))
    → r ≡ r'
    → Mapped d perm q pa 1 m m1
    → MapResult d perm (q + 1) (pa + 4096) (suc k) m1 r'
    → MapResult d perm q pa (suc (suc k)) m r
MapResult-more d perm q pa k m m1 r r' e u (inl (m2, f, v)) =
    let count : suc k + 1 ≡ suc (suc k) = omega arith in
    inl (m2, e ∙ f, subst (λ (x : ℕ). Mapped d perm q pa x m m2) count (Mapped-trans u v))
MapResult-more d perm q pa k m m1 r r' e u (inr (j, m2, f, l, v, none_left)) =
    inr (j + 1, m2, e ∙ f, omega arith, Mapped-trans u v, none_left)

map_from_lem :
    (k fuel d perm q last pa : ℕ) (m : Vm)
    → IsTable d m
    → q + suc k ≤ 2 ^ 20
    → last ≡ 4096 * (q + k)
    → pa % 4096 ≡ 0
    → pa + 4096 * suc k ≤ 2 ^ 32
    → perm < 4096
    → k < fuel
    → ((n : ℕ) → q ≤ n → n < q + suc k → is_present (page_entry m d n) ≡ false)
    → MapResult d perm q pa (suc k) m (map_from d perm fuel (4096 * q) last pa m)
map_from_lem k zero d perm q last pa m v fits e al high small enough free = absurd (omega arith)
map_from_lem zero (suc fuel) d perm q last pa m v fits e al high small enough free =
    elim (round d perm q pa m v (omega arith) (free q (omega arith) (omega arith))) [
      | inr (w, empty) ↦ inr (
        0,
        m,
        map_from-stop d perm fuel q last pa m w,
        omega arith,
        Mapped-none d perm q pa m v,
        empty,
      )
      | inl (a, m', w, unused, first) ↦ inl (
        set_entry a (mapped pa perm) m',
        map_from-last d perm fuel (4096 * q) last pa a (mapped pa perm) m m' (omega (arith, e)) w
            unused (mapped-or pa perm al small),
        first,
      )
    ]
map_from_lem (suc k) (suc fuel) d perm q last pa m v fits e al high small enough free =
    elim (round d perm q pa m v (omega arith) (free q (omega arith) (omega arith))) [
      | inr (w, empty) ↦ inr (
        0,
        m,
        map_from-stop d perm fuel q last pa m w,
        omega arith,
        Mapped-none d perm q pa m v,
        empty,
      )
      | inl (a, m', w, unused, first) ↦
          let m1 = set_entry a (mapped pa perm) m' in
          MapResult-more d perm q pa k m m1 _ _
            (map_from-more d perm fuel (4096 * q) last pa a (mapped pa perm) (4096 * (q + 1))
              (pa + 4096) m m' w unused (mapped-or pa perm al small)
              (λ z. absurd (omega (arith, e, z))) (omega arith) (omega arith))
            first
            (map_from_lem k fuel d perm (q + 1) last (pa + 4096) m1 first.tables (omega arith)
              (omega (arith, e)) (omega arith) (omega arith) small (omega arith)
              (after_first d perm q pa (suc k) m m1 fits first free))
    ]

-- `mappages` of `k + 1` pages from `q` on, none of which is mapped, on a page table: all are mapped, to the
-- memory from `pa` on with the permissions and PTE_P; or it returns -1 after the first `j`, for lack of a free
-- page. Either way no other mapping has changed and the page table is one; it does not panic. The size is
-- in bytes, and the range need not end at the end of a page.
pub mappages_lem :
    (d va size pa perm q k : ℕ) (m : Vm)
    → IsTable d m
    → va / 4096 ≡ q
    → 0 < size
    → (va + size - 1) / 4096 ≡ q + k
    → va + size ≤ 2 ^ 32
    → pa % 4096 ≡ 0
    → pa + 4096 * suc k ≤ 2 ^ 32
    → perm < 4096
    → ((n : ℕ) → q ≤ n → n < q + suc k → is_present (page_entry m d n) ≡ false)
    → MapResult d perm q pa (suc k) m (mappages d va size pa perm m)
unfolding mappages
mappages_lem d va size pa perm q k m v first pos last fits al high small free =
    let a : pgrounddown va ≡ 4096 * q = omega (arith, first) in
    subst
      (λ (x : ℕ).
        MapResult d perm q pa (suc k) m
          (map_from d perm (2 ^ 20) x (pgrounddown (sub32 (add32 va size) 1)) pa m))
      (sym a)
      (map_from_lem k (2 ^ 20) d perm q (pgrounddown (sub32 (add32 va size) 1)) pa m v
        (omega (arith, last)) (omega (arith, last)) al high small (omega (arith, last)) free)
