-- ===== src/Args.antt =====
-- xv6/syscall.c: how the kernel fetches the arguments of a system call from user memory.
pub mod Bounds
mod Tests
use os_lab_course_project.Prelude.{
  ℕ, zero, suc, ◌+◌, ◌-◌, Bool, true, false, ◌||◌, ◌==◌, ltb, leb, if◌then◌else◌, Option, none,
  some, add32, mul32, slt32,
}

-- The current process as these functions see it: its size, its stack pointer, and its memory as the
-- word and the byte at each address. Words are 32-bit patterns, also of an int.
pub record User : Type 0 where
  pub sz : ℕ
  pub esp : ℕ
  pub word : ℕ → ℕ
  pub byte : ℕ → ℕ

-- `none` is -1; otherwise what is stored through the pointer.
pub fetchint : User → ℕ → Option ℕ
fetchint u addr = if leb u.sz addr || ltb u.sz (add32 addr 4) then none else some (u.word addr)

-- The loop of `fetchstr` from `s` to `ep`, with `r` bytes left before `ep`: the pointer at the NUL.
pub find_nul : User → ℕ → ℕ → Option ℕ
find_nul u zero s = none
find_nul u (suc r) s = let rest = find_nul u r (s + 1) in if u.byte s == 0 then some s else rest

-- The string's address and its length.
pub fetchstr : User → ℕ → Option (ℕ × ℕ)
unfolding find_nul
fetchstr u addr =
    if leb u.sz addr
    then none
    else elim (find_nul u (u.sz - addr) addr) [ none ↦ none | some s ↦ some (addr, s - addr) ]

pub argint : User → ℕ → Option ℕ
unfolding fetchint
argint u n = fetchint u (add32 (add32 u.esp 4) (mul32 4 n))

-- The test of `argptr` on the pointer `i` that `argint` has fetched.
pub in_memory : User → ℕ → ℕ → Bool
in_memory u i size = if slt32 size 0 || leb u.sz i || ltb u.sz (add32 i size) then false else true

pub argptr : User → ℕ → ℕ → Option ℕ
unfolding argint in_memory
argptr u n size = elim (argint u n) [
  | none ↦ none
  | some i ↦ if in_memory u i size then some i else none
]

pub argstr : User → ℕ → Option (ℕ × ℕ)
unfolding argint fetchstr
argstr u n = elim (argint u n) [ none ↦ none | some addr ↦ fetchstr u addr ]
