-- ===== src/Args/Bounds.antt =====
-- What the checks of the arguments rule out, without a wrap of the address.
use os_lab_course_project.Prelude.{
  ℕ, zero, suc, ◌+◌, ◌-◌, ◌^◌, ◌≤◌, ◌<◌, ◌≡◌, ◌≢◌, ◌↔◌, ◌⊎◌, inl, inr, true, false, Bool-cases,
  Option-cases, ◌==◌, leb, none, some, arith, add32, mul32, ap,
}
use os_lab_course_project.Args.{User, fetchint, find_nul, fetchstr, argint, in_memory, argptr}

-- A process is smaller than the address at which the kernel begins.
abbrev pub kernbase : ℕ
kernbase = 0x80000000

-- For a process below the kernel, `fetchint` reads exactly where all four bytes of the word lie in
-- the process.
pub fetchint_lem :
    (u : User) (addr : ℕ)
    → u.sz ≤ kernbase
    → addr < 2 ^ 32
    → ((addr + 4 ≤ u.sz) × (fetchint u addr ≡ some (u.word addr)))
      ⊎ ((u.sz < addr + 4) × (fetchint u addr ≡ none))
unfolding fetchint
fetchint_lem u addr h k = ground arith

in_memory_lem :
    (u : User) (i size : ℕ)
    → u.sz ≤ kernbase
    → i < 2 ^ 32
    → size < 2 ^ 32
    → in_memory u i size ≡ true
    → (i + size ≤ u.sz) × (size < 2 ^ 31) × (i < u.sz)
unfolding in_memory
in_memory_lem u i size h k l e = ground arith

-- Where the kernel finds argument `n`, above the return address on the user's stack.
abbrev pub arg_addr : User → ℕ → ℕ
arg_addr u n = add32 (add32 u.esp 4) (mul32 4 n)

in_memory-of :
    (u : User) (i size : ℕ)
    → i + size ≤ u.sz
    → size < 2 ^ 31
    → i < u.sz
    → u.sz ≤ kernbase
    → in_memory u i size ≡ true
unfolding in_memory
in_memory-of u i size a b c h = ground arith

-- For a process below the kernel whose words are 32 bits wide, `argptr` returns a pointer exactly if
-- the argument's own word lies in the process, holds that pointer, and the pointer starts a block of
-- `size` bytes, not negative, that lies in the process.
pub argptr_iff :
    (u : User) (n size i : ℕ)
    → u.sz ≤ kernbase
    → ((a : ℕ) → u.word a < 2 ^ 32)
    → size < 2 ^ 32
    → (argptr u n size ≡ some i) ↔ (
        (arg_addr u n + 4 ≤ u.sz)
        × (u.word (arg_addr u n) ≡ i)
        × (i + size ≤ u.sz)
        × (size < 2 ^ 31)
        × (i < u.sz))
unfolding argptr argint
argptr_iff u n size i h w l = (there, back)
  where
    there :
        argptr u n size ≡ some i
        → (arg_addr u n + 4 ≤ u.sz)
          × (u.word (arg_addr u n) ≡ i)
          × (i + size ≤ u.sz)
          × (size < 2 ^ 31)
          × (i < u.sz)
    there e = elim (fetchint_lem u (arg_addr u n) h (omega arith)) [
      | inr (_, out) ↦ absurd (ground (arith, out))
      | inl (room, got) ↦
          let fetched : u.word (arg_addr u n) ≡ i = ground (arith, got) in
          let inside : in_memory u i size ≡ true = ground (arith, got) in
          let (a, b, c) = in_memory_lem u i size h (ground (arith, w (arg_addr u n))) l inside in
          (room, fetched, a, b, c)
    ]

    back :
        (arg_addr u n + 4 ≤ u.sz)
          × (u.word (arg_addr u n) ≡ i)
          × (i + size ≤ u.sz)
          × (size < 2 ^ 31)
          × (i < u.sz)
        → argptr u n size ≡ some i
    back (room, e, a, b, c) = elim (fetchint_lem u (arg_addr u n) h (omega arith)) [
      | inr (out, _) ↦ absurd (omega arith)
      | inl (_, got) ↦ ground (arith, got, in_memory-of u i size a b c h)
    ]

find_nul_lem :
    (u : User) (r s k : ℕ)
    → find_nul u r s ≡ some k
    → (s ≤ k) × (k < s + r) × (u.byte k ≡ 0) × ((j : ℕ) → s ≤ j → j < k → u.byte j ≢ 0)
unfolding find_nul
find_nul_lem u zero s k e = absurd (cc e)
find_nul_lem u (suc r) s k e = elim (Bool-cases (u.byte s == 0)) [
  | inl z ↦ (
    ground arith,
    ground arith,
    ground (arith, ap u.byte {x = s} {y = k}),
    λ j p q. absurd (ground arith),
  )
  | inr nz ↦
      let (a, b, c, d) = find_nul_lem u r (s + 1) k (ground arith) in
      (omega arith, omega arith, c, λ j p q. ground (arith, d j, ap u.byte {x = s} {y = j}))
]

fetchstr-found :
    (u : User) (addr k : ℕ)
    → leb u.sz addr ≡ false
    → find_nul u (u.sz - addr) addr ≡ some k
    → fetchstr u addr ≡ some (addr, k - addr)
unfolding fetchstr
fetchstr-found u addr k within found = rw (within, found, fetchstr)

fetchstr-missing :
    (u : User) (addr : ℕ)
    → leb u.sz addr ≡ false
    → find_nul u (u.sz - addr) addr ≡ none
    → fetchstr u addr ≡ none
unfolding fetchstr
fetchstr-missing u addr within missing = rw (within, missing, fetchstr)

fetchstr-outside : (u : User) (addr : ℕ) → leb u.sz addr ≡ true → fetchstr u addr ≡ none
unfolding fetchstr
fetchstr-outside u addr out = rw out

find_nul-none : (u : User) (r s j : ℕ) → find_nul u r s ≡ none → s ≤ j → j < s + r → u.byte j ≢ 0
unfolding find_nul
find_nul-none u zero s j e p q = absurd (omega arith)
find_nul-none u (suc r) s j e p q =
    ground (arith, find_nul-none u r (s + 1) j, ap u.byte {x = s} {y = j})

-- `fetchstr` succeeds exactly on an address in the process with a NUL between it and the process's
-- end; the length that it returns is that of the bytes before the first NUL.
pub fetchstr_lem :
    (u : User) (addr : ℕ)
    → ((len : ℕ) × (fetchstr u addr ≡ some (addr, len))
        × (addr + len < u.sz)
        × (u.byte (addr + len) ≡ 0)
        × ((j : ℕ) → j < len → u.byte (addr + j) ≢ 0))
      ⊎ ((fetchstr u addr ≡ none) × ((j : ℕ) → addr + j < u.sz → u.byte (addr + j) ≢ 0))
fetchstr_lem u addr = elim (Bool-cases (leb u.sz addr)) [
  | inl out ↦ inr (fetchstr-outside u addr out, λ j l. absurd (ground arith))
  | inr within ↦ elim (Option-cases (find_nul u (u.sz - addr) addr)) [
    | inl missing ↦ inr (
      fetchstr-missing u addr within missing,
      λ j l. find_nul-none u (u.sz - addr) addr (addr + j) missing (omega arith) (ground arith),
    )
    | inr (k, found) ↦
        let (a, b, c, d) = find_nul_lem u (u.sz - addr) addr k found in
        inl (
          k - addr,
          fetchstr-found u addr k within found,
          ground arith,
          ground (arith, ap u.byte {x = addr + (k - addr)} {y = k}),
          λ j l. d (addr + j) (omega arith) (omega arith),
        )
  ]
]
