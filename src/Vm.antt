-- ===== src/Vm.antt =====
-- xv6/vm.c: the page tables, from xv6/mmu.h's two levels.
pub mod Bits
pub mod Tables
pub mod Walk
pub mod Entry
pub mod Pages
pub mod Map
mod Tests
use Prim.Native.Nat.{bit_or}
use os_lab_course_project.Prelude.{
  ℕ, zero, suc, ◌+◌, ◌-◌, ◌*◌, ◌/◌, ◌%◌, ◌^◌, Bool, true, false, ◌&&◌, ◌==◌, leb, ltb,
  if◌then◌else◌, Option, none, some, List, Result, ok, panic, ◌>>=◌, update, add32, sub32,
}
use os_lab_course_project.Kalloc.{kernbase, v2p, kalloc}

-- The words of the pages by the kernel's address, and the list of free pages.
pub record Vm : Type 0 where
  pub words : ℕ → ℕ
  pub freelist : List ℕ

abbrev pub pdx : ℕ → ℕ
pdx va = va / 2 ^ 22 % 1024

abbrev pub ptx : ℕ → ℕ
ptx va = va / 2 ^ 12 % 1024

abbrev pub pgrounddown : ℕ → ℕ
pgrounddown a = a / 4096 * 4096

abbrev pub p2v : ℕ → ℕ
p2v a = add32 a kernbase

abbrev pub pte_addr : ℕ → ℕ
pte_addr e = e / 4096 * 4096

-- `e & PTE_P` and `e & PTE_U`, as tests.
abbrev pub is_present : ℕ → Bool
is_present e = e % 2 == 1

abbrev pub is_user : ℕ → Bool
is_user e = e / 4 % 2 == 1

abbrev pub pte_p : ℕ
pte_p = 1

-- `PTE_P | PTE_W | PTE_U`
abbrev pub pte_all : ℕ
pte_all = 7

-- `memset(pgtab, 0, PGSIZE)`
abbrev pub clear_page : (ℕ → ℕ) → ℕ → ℕ → ℕ
clear_page words t a = if leb t a && ltb a (t + 4096) then 0 else words a

-- What `walkpgdir` does with the page that it gets for a page table.
unfoldable pub new_table : ℕ → ℕ → Vm → Option ℕ × List ℕ → Option ℕ × Vm
new_table pde va m (none, l) = (none, record m { freelist = l })
new_table pde va m (some t, l) = (
  some (t + 4 * ptx va),
  record { words = update (clear_page m.words t) pde (bit_or (v2p t) pte_all); freelist = l },
)

-- The address of the entry, or null.
unfoldable pub walkpgdir : ℕ → ℕ → Bool → Vm → Option ℕ × Vm
unfolding new_table
walkpgdir pgdir va alloc m =
    let pde = pgdir + 4 * pdx va in
    if is_present (m.words pde)
    then (some (p2v (pte_addr (m.words pde)) + 4 * ptx va), m)
    else if alloc
    then new_table pde va m (kalloc m.freelist)
    else (none, m)

-- `*pte = e;`
abbrev pub set_entry : ℕ → ℕ → Vm → Vm
set_entry pte e m = record m { words = update m.words pte e }

-- The body of the loop of `mappages` on what `walkpgdir` gives, with the entry to store and the rounds
-- that follow: `false` is -1.
unfoldable pub map_page : ℕ → ℕ → ℕ → (Vm → Result (Bool × Vm)) → Option ℕ × Vm → Result (Bool × Vm)
map_page a last e go (none, m) = ok (false, m)
map_page a last e go (some pte, m) =
    if is_present (m.words pte)
    then panic "remap"
    else if a == last
    then ok (true, set_entry pte e m)
    else go (set_entry pte e m)

-- The loop, with as many rounds at most as the fuel says.
unfoldable pub map_from : ℕ → ℕ → ℕ → ℕ → ℕ → ℕ → Vm → Result (Bool × Vm)
unfolding map_page
map_from pgdir perm zero a last pa m = ok (true, m)
map_from pgdir perm (suc fuel) a last pa m =
    map_page a last (bit_or (bit_or pa perm) pte_p)
      (λ m'. map_from pgdir perm fuel (add32 a 4096) last (add32 pa 4096) m')
      (walkpgdir pgdir a true m)

-- The address space has 2 ^ 20 pages.
unfoldable pub mappages : ℕ → ℕ → ℕ → ℕ → ℕ → Vm → Result (Bool × Vm)
mappages pgdir va size pa perm m =
    map_from pgdir perm (2 ^ 20) (pgrounddown va) (pgrounddown (sub32 (add32 va size) 1)) pa m

-- `uva2ka`, of an address whose page table exists: the code reads through the null pointer otherwise.
unfoldable pub uva2ka : ℕ → ℕ → Vm → Result (Option ℕ)
unfolding walkpgdir
uva2ka pgdir uva m =
    let (found, _) = walkpgdir pgdir uva false m in
    elim found [
      | none ↦ panic "read through a null pte"
      | some pte ↦
          let e = m.words pte in
          if is_present e && is_user e then ok (some (p2v (pte_addr e))) else ok none
    ]
