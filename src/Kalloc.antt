-- ===== src/Kalloc.antt =====
-- xv6/kalloc.c: the list of free pages. `kmem.lock` makes each function one step.
pub mod Pages
mod Tests
use os_lab_course_project.Prelude.{
  ℕ, zero, suc, ◌+◌, ◌-◌, ◌*◌, ◌/◌, ◌%◌, ◌^◌, Bool, true, false, ◌||◌, ◌==◌, ltb, leb, not,
  if◌then◌else◌, Option, none, some, List, [], ◌∷◌, Result, ok, panic, ◌>>=◌, add32, sub32,
}

abbrev pub pgsize : ℕ
pgsize = 4096

-- xv6/memlayout.h
abbrev pub kernbase : ℕ
kernbase = 0x80000000

abbrev pub phystop : ℕ
phystop = 0xE000000

abbrev pub v2p : ℕ → ℕ
v2p a = sub32 a kernbase

abbrev pub pgroundup : ℕ → ℕ
pgroundup a = add32 a 4095 / pgsize * pgsize

-- The list `kmem.freelist`, whose links are in the pages, by the addresses of the pages. `end` is the
-- linker's address of the end of the kernel. The junk that `kfree` writes into the page is not
-- modelled: the link is written after it.
unfoldable pub kfree : ℕ → List ℕ → ℕ → Result (List ℕ)
kfree end freelist v =
    if not (v % pgsize == 0) || ltb v end || leb phystop (v2p v)
    then panic "kfree"
    else ok (v ∷ freelist)

-- `kalloc`: `none` is the null pointer.
unfoldable pub kalloc : List ℕ → Option ℕ × List ℕ
kalloc [] = (none, [])
kalloc (r ∷ rest) = (some r, rest)

-- The loop of `freerange` from `p`, with as many rounds at most as the fuel says.
pub free_from : ℕ → ℕ → ℕ → List ℕ → ℕ → Result (List ℕ)
unfolding kfree
free_from end vend zero freelist p = ok freelist
free_from end vend (suc fuel) freelist p =
    if leb (add32 p pgsize) vend
    then (kfree end freelist p >>= λ l. free_from end vend fuel l (add32 p pgsize))
    else ok freelist

-- The range has fewer pages than the 2 ^ 20 of the address space.
pub freerange : ℕ → List ℕ → ℕ → ℕ → Result (List ℕ)
freerange end freelist vstart vend = free_from end vend (2 ^ 20) freelist (pgroundup vstart)
