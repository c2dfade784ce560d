-- ===== src/Descriptor/Calls.antt =====
-- `sys_dup`, `sys_close` and the opening of a file keep the counts of the files: `others f` is the number
-- of pointers to `f` that are not among the descriptors of the process.
use os_lab_course_project.Prelude.{
  ◌∙◌, if◌then◌else◌, ◌==◌, ℕ, ◌+◌, ◌-◌, ◌^◌, ◌<◌, ◌≡◌, ◌⊎◌, refl, ap, ◌||◌, leb, arith, inl, inr,
  Option, none, some, ok, update, Bool, true, Bool-cases, slt32,
}
use os_lab_course_project.File.{Closing, closing, kept}
use os_lab_course_project.Ptable.Scan.{scan-cases}
use os_lab_course_project.File.{Table}
use os_lab_course_project.Descriptor.{
  nofile, Row, is_null, argfd, fdalloc, Answer, sys_dup, sys_close, open_inode, set_inode,
}
use os_lab_course_project.Descriptor.Count.{here, count, count-le, count-update, count-here}
use os_lab_course_project.Descriptor.Held.{
  Held, Held-ext, filedup-Held, fileclose-Held, filealloc-Held, set_inode-Held,
}

-- The pointers are those of the descriptors and the others.
abbrev pub Shares : Row → (ℕ → ℕ) → Table → Type 0
Shares row others t = Held t (λ f. count f row nofile + others f)

-- The call returns, and the others have kept their pointers.
abbrev pub Kept : (ℕ → ℕ) → Answer → Type 0
Kept others a =
    (r : Option ℕ) × (c : Closing) × (row : Row) × (t : Table) × (a ≡ ok (r, c, row, t))
    × Shares row others t

-- What a call of `fileclose` on file `f` closes or puts, when there are `n` pointers to it.
abbrev pub last : Table → ℕ → ℕ → Closing
last t f n = if n == 1 then closing (t f) else kept

fdalloc-cases :
    (f : ℕ) (row : Row)
    → ((fd : ℕ) × (fdalloc f row ≡ (some fd, update row fd (some f)))
        × (fd < nofile)
        × (row fd ≡ none))
      ⊎ (fdalloc f row ≡ (none, row))
unfolding fdalloc
fdalloc-cases f row = elim (scan-cases (λ fd. is_null (row fd)) nofile 0) [
  | inr (e, full) ↦ inr (rw e refl)
  | inl (fd, e, _, low, free, before) ↦ inl (fd, rw e refl, low, null_is_none (row fd) free)
]
  where
    null_is_none : (p : Option ℕ) → is_null p ≡ true → p ≡ none
    null_is_none none e = refl
    null_is_none (some f) e = absurd (cc)

argfd-cases :
    (fd : ℕ) (row : Row)
    → (argfd fd row ≡ none)
      ⊎ ((f : ℕ) × (argfd fd row ≡ some f) × (fd < nofile) × (row fd ≡ some f))
unfolding argfd
argfd-cases fd row = elim (Bool-cases (slt32 fd 0 || leb nofile fd)) [
  | inl e ↦ inl (rw e refl)
  | inr e ↦ elim (pointer-cases (row fd)) [
    | inl z ↦ inl (rw e z)
    | inr (f, z) ↦ inr (f, rw e z, ground (arith, e), z)
  ]
]
  where
    pointer-cases : (p : Option ℕ) → (p ≡ none) ⊎ ((f : ℕ) × (p ≡ some f))
    pointer-cases none = inl refl
    pointer-cases (some f) = inr (f, refl)

module _ (row : Row) (others : ℕ → ℕ) (few : (f : ℕ) → others f < 2 ^ 30) where
  -- The descriptor is new, for a file that has one more pointer.
  pub count_added :
      (fd k f : ℕ)
      → fd < nofile
      → row fd ≡ none
      → count f row nofile + others f + here f (some k)
        ≡ count f (update row fd (some k)) nofile + others f
  count_added fd k f l free =
      omega (arith, count-update f row fd (some k) nofile l, ap (here f) free)

  pub count_removed :
      (fd k f : ℕ)
      → fd < nofile
      → row fd ≡ some k
      → count f row nofile + others f - here f (some k)
        ≡ count f (update row fd none) nofile + others f
  count_removed fd k f l held = omega (arith, count-update f row fd none nofile l, ap (here f) held)

  module _ (t : Table) (s : Shares row others t) where
    few_pointers : (f : ℕ) → count f row nofile + others f < 2 ^ 31 - 1
    few_pointers f = omega (arith, few f, count-le f row nofile)

    pub sys_dup-Kept : (fd : ℕ) → Kept others (sys_dup fd row t)
    unfolding sys_dup
    sys_dup-Kept fd = elim (argfd-cases fd row) [
      | inl e ↦ (none, kept, row, t, rw (e, sys_dup) refl, s)
      | inr (k, e, l, held) ↦ elim (fdalloc-cases k row) [
        | inr full ↦ (none, kept, row, t, rw (e, sys_dup) (rw full refl), s)
        | inl (new_fd, found, m, free) ↦
            let (t', run, h) =
              filedup-Held s k (omega (arith, count-here k row fd nofile l held))
                (omega (arith, few_pointers k)) in
            (
              some new_fd,
              kept,
              update row new_fd (some k),
              t',
              rw (e, sys_dup) (rw (found, run) refl),
              Held-ext (λ f. count_added new_fd k f m free) h,
            )
      ]
    ]

    pub sys_close-Kept :
        (fd : ℕ)
        → (r : Option ℕ) × (c : Closing) × (row' : Row) × (t' : Table) × (sys_close fd row t
            ≡ ok (r, c, row', t'))
          × Shares row' others t'
          × ((f : ℕ) → argfd fd row ≡ some f → c ≡ last t f (count f row nofile + others f))
    unfolding sys_close
    sys_close-Kept fd = elim (argfd-cases fd row) [
      | inl e ↦ (none, kept, row, t, rw (e, sys_close) refl, s, λ f z. absurd (cc))
      | inr (k, e, l, held) ↦
          let (c, t', run, ends, h) =
            fileclose-Held s k (omega (arith, count-here k row fd nofile l held))
              (omega (arith, few_pointers k)) in
          (
            some 0,
            c,
            update row fd none,
            t',
            rw (e, sys_close) (rw run refl),
            Held-ext (λ f. count_removed fd k f l held) h,
            λ f z.
                let same : k ≡ f = cc in
                ends ∙ ap (λ i. last t i (count i row nofile + others i)) same,
          )
    ]

    pub open_inode-Kept :
        (ip : ℕ) (readable writable : Bool) → Kept others (open_inode ip readable writable row t)
    unfolding open_inode
    open_inode-Kept ip readable writable = elim (filealloc-Held s) [
      | inr e ↦ (none, kept, row, t, rw e refl, s)
      | inl (k, t1, e, free_file, h) ↦ elim (fdalloc-cases k row) [
        | inl (fd, found, m, free) ↦ (
          some fd,
          kept,
          update row fd (some k),
          set_inode ip readable writable k t1,
          rw (e, found) refl,
          set_inode-Held ip readable writable k (Held-ext (λ f. count_added fd k f m free) h),
        )
        | inr full ↦
            let (c, t2, run, _, h2) =
              fileclose-Held h k (ground arith) (ground (arith, few_pointers k)) in
            (none, c, row, t2, rw (e, full, run) refl, Held-ext (λ f. omega arith) h2)
      ]
    ]
