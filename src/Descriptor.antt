-- ===== src/Descriptor.antt =====
-- File descriptors: `argfd`, `fdalloc`, `sys_dup`, `sys_close` and the opening of a file in `sys_open` of
-- xv6/sysfile.c, and the loops over `ofile` in `fork` and `exit` of xv6/proc.c. Only the process itself
-- changes its descriptors, so that each call is one step here.
pub mod Count
pub mod Held
pub mod Calls
pub mod Copies
pub mod Steps
pub mod System
mod Tests
use os_lab_course_project.Prelude.{
  ℕ, zero, suc, ◌+◌, Bool, true, false, ◌||◌, ◌==◌, leb, if◌then◌else◌, Option, none, some, List,
  [], ◌∷◌, Result, ok, panic, ◌>>=◌, update, slt32,
}
use os_lab_course_project.Ptable.Scan.{scan}
use os_lab_course_project.File.{Kind, fd_inode, Table, filealloc, filedup, Closing, kept, fileclose}

abbrev pub nofile : ℕ
nofile = 16

-- `ofile` of a process: the index of the file in the table, or null.
abbrev pub Row : Type 0
Row = ℕ → Option ℕ

abbrev pub is_null : Option ℕ → Bool
is_null none = true
is_null (some f) = false

-- `argfd` of the argument that `argint` has fetched.
unfoldable pub argfd : ℕ → Row → Option ℕ
argfd fd row = if slt32 fd 0 || leb nofile fd then none else row fd

abbrev pub put_file : ℕ → Row → Option ℕ → Option ℕ × Row
put_file f row none = (none, row)
put_file f row (some fd) = (some fd, update row fd (some f))

unfoldable pub fdalloc : ℕ → Row → Option ℕ × Row
fdalloc f row = put_file f row (scan (λ fd. is_null (row fd)) nofile 0)

-- What a call returns, with -1 as `none`; what `fileclose` goes on to close or put, if it was called;
-- the descriptors and the files after it.
abbrev pub Answer : Type 0
Answer = Result (Option ℕ × Closing × Row × Table)

-- `sys_dup` with the file that it found, and what `fdalloc` gives.
abbrev pub dup_into : ℕ → Table → Option ℕ × Row → Answer
dup_into f t (none, row) = ok (none, kept, row, t)
dup_into f t (some fd, row) = filedup f t >>= λ t'. ok (some fd, kept, row, t')

unfoldable pub sys_dup : ℕ → Row → Table → Answer
sys_dup fd row t = elim (argfd fd row) [
  | none ↦ ok (none, kept, row, t)
  | some f ↦ dup_into f t (fdalloc f row)
]

unfoldable pub sys_close : ℕ → Row → Table → Answer
sys_close fd row t = elim (argfd fd row) [
  | none ↦ ok (none, kept, row, t)
  | some f ↦ fileclose f t >>= λ (c, t'). ok (some 0, c, update row fd none, t')
]

-- `f->type = FD_INODE; f->ip = ip; f->off = 0; f->readable = ...; f->writable = ...`
abbrev pub set_inode : ℕ → Bool → Bool → ℕ → Table → Table
set_inode ip readable writable f t =
    update t f
      (record (t f) { kind = fd_inode; ip = ip; off = 0; readable = readable; writable = writable })

abbrev pub open_into : ℕ → Bool → Bool → ℕ → Table → Option ℕ × Row → Answer
open_into ip readable writable f t (none, row) = fileclose f t >>= λ (c, t'). ok (none, c, row, t')
open_into ip readable writable f t (some fd, row) =
    ok (some fd, kept, row, set_inode ip readable writable f t)

abbrev pub open_with : ℕ → Bool → Bool → Row → Option ℕ × Table → Answer
open_with ip readable writable row (none, t) = ok (none, kept, row, t)
open_with ip readable writable row (some f, t) = open_into ip readable writable f t (fdalloc f row)

-- The end of `sys_open`, for the inode that it has found or made.
unfoldable pub open_inode : ℕ → Bool → Bool → Row → Table → Answer
open_inode ip readable writable row t = open_with ip readable writable row (filealloc t)

-- The loop of `fork`, from descriptor `fd` on with `r` left: the descriptors of the child.
unfoldable pub copy_files : Row → ℕ → ℕ → Row → Table → Result (Row × Table)
copy_files row zero fd child t = ok (child, t)
copy_files row (suc r) fd child t = elim (row fd) [
  | none ↦ copy_files row r (fd + 1) child t
  | some f ↦ filedup f t >>= λ t'. copy_files row r (fd + 1) (update child fd (some f)) t'
]

-- The loop of `exit`, with what its calls of `fileclose` close or put, in their order.
unfoldable pub close_files : ℕ → ℕ → Row → Table → Result (List Closing × Row × Table)
close_files zero fd row t = ok ([], row, t)
close_files (suc r) fd row t = elim (row fd) [
  | none ↦ close_files r (fd + 1) row t
  | some f ↦ fileclose f t >>= λ (c, t').
      close_files r (fd + 1) (update row fd none) t' >>= λ (cs, row', t''). ok (c ∷ cs, row', t'')
]

-- `exit` of process `p` up to the end of that loop; `ini` is `initproc`.
unfoldable pub exit_files : ℕ → ℕ → Row → Table → Result (List Closing × Row × Table)
exit_files ini p row t = if p == ini then panic "init exiting" else close_files nofile 0 row t
