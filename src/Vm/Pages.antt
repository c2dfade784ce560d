-- ===== src/Vm/Pages.antt =====
-- Which pages a call of `mappages` maps.
use Prim.Native.Nat.{bit_or}
use os_lab_course_project.Prelude.{
  ℕ, ◌+◌, ◌-◌, ◌*◌, ◌/◌, ◌%◌, ◌^◌, ◌<◌, ◌≡◌, sym, ap, ◌∙◌, ◌&&◌, ◌==◌, leb, ltb, if◌then◌else◌,
  arith,
}
use mathlib.Core.Path.{subst}
use native.Mathlib.Decide.{}
use os_lab_course_project.Vm.{Vm, pte_p, set_entry}
use os_lab_course_project.Vm.Bits.{or_page, or_present}
use os_lab_course_project.Vm.Tables.{entry_at, IsTable}
use os_lab_course_project.Vm.Entry.{written-IsTable, written_entry}
use os_lab_course_project.Vm.Walk.{Walked}

-- The entry of page `n` of the address space.
abbrev pub page_entry : Vm → ℕ → ℕ → ℕ
page_entry m d n = entry_at m.words d (n / 1024) (n % 1024)

-- The address of a page with its flags, present.
abbrev pub mapped : ℕ → ℕ → ℕ
mapped pa perm = pa + perm / 2 * 2 + 1

-- From `m` to `m'` the `k` pages from page `q` on were mapped to the memory from `pa` on, and no other
-- mapping has changed.
pub record Mapped (d perm q pa k : ℕ) (m m' : Vm) : Type 0 where
  pub tables : IsTable d m'
  pub entries :
      (n : ℕ)
      → n < 2 ^ 20
      → page_entry m' d n
        ≡ (if leb q n && ltb n (q + k) then mapped (pa + 4096 * (n - q)) perm else page_entry m d n)

pub mapped-or :
    (pa perm : ℕ) → pa % 4096 ≡ 0 → perm < 4096 → bit_or (bit_or pa perm) pte_p ≡ mapped pa perm
mapped-or pa perm h l =
    ap (λ (x : ℕ). bit_or x 1) (or_page pa perm h l) ∙ or_present (pa + perm) ∙ omega (arith, h)

pub Mapped-none : (d perm q pa : ℕ) (m : Vm) → IsTable d m → Mapped d perm q pa 0 m m
Mapped-none d perm q pa m v = record { tables = v; entries = λ n h. ground arith }

-- One page, by its indices and by its number.
one_page :
    (n q pa perm x old : ℕ)
    → x ≡ old
    → (if n / 1024 == q / 1024 && n % 1024 == q % 1024 then mapped pa perm else x)
      ≡ (if leb q n && ltb n (q + 1) then mapped (pa + 4096 * (n - q)) perm else old)
one_page n q pa perm x old e = ground (arith, e)

-- The first page and those after it.
more_pages :
    (n q pa perm k x old : ℕ)
    → x ≡ (if leb q n && ltb n (q + 1) then mapped (pa + 4096 * (n - q)) perm else old)
    → (if leb (q + 1) n && ltb n (q + 1 + k)
        then mapped (pa + 4096 + 4096 * (n - (q + 1))) perm
        else x)
      ≡ (if leb q n && ltb n (q + (k + 1)) then mapped (pa + 4096 * (n - q)) perm else old)
more_pages n q pa perm k x old e = ground (arith, e)

-- The entry of a page that `walkpgdir` gives is set.
pub set-Mapped :
    (d perm q pa a : ℕ) (m m' : Vm)
    → q < 2 ^ 20
    → Walked d (q / 1024) (q % 1024) m a m'
    → Mapped d perm q pa 1 m (set_entry a (mapped pa perm) m')
set-Mapped d perm q pa a m m' h w =
    let small : q / 1024 < 1024 = omega arith in
    subst (λ (x : ℕ). Mapped d perm q pa 1 m (set_entry x (mapped pa perm) m')) (sym w.at)
      (record {
        tables =
            written-IsTable d (q / 1024) (q % 1024) (mapped pa perm) m'.words m'.freelist w.tables
              w.there small (omega arith);
        entries = λ n l.
            written_entry d (q / 1024) (q % 1024) (mapped pa perm) m'.words m'.freelist w.tables
              w.there small (omega arith) (n / 1024) (n % 1024) (omega arith) (omega arith)
            ∙ one_page n q pa perm (entry_at m'.words d (n / 1024) (n % 1024)) (page_entry m d n)
                (w.same (n / 1024) (n % 1024) (omega arith) (omega arith));
      })

pub Mapped-trans :
    {d perm q pa k : ℕ} {m m1 m2 : Vm}
    → Mapped d perm q pa 1 m m1
    → Mapped d perm (q + 1) (pa + 4096) k m1 m2
    → Mapped d perm q pa (k + 1) m m2
Mapped-trans {d} {perm} {q} {pa} {k} {m} {m1} {m2} u v = record {
  tables = v.tables;
  entries = λ n h.
      v.entries n h
      ∙ more_pages n q pa perm k (page_entry m1 d n) (page_entry m d n) (u.entries n h);
}
