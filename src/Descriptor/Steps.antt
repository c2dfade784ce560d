-- ===== src/Descriptor/Steps.antt =====
-- Processes that open, duplicate and close files, fork and exit.
use os_lab_course_project.Prelude.{
  ℕ, ◌<◌, ◌≡◌, ◌==◌, Bool, true, false, Option, none, List, ok, update,
}
use os_lab_course_project.Ptable.{nproc}
use os_lab_course_project.File.{Closing, fd_none, Table}
use os_lab_course_project.Descriptor.{
  nofile, Row, sys_dup, sys_close, open_inode, copy_files, exit_files,
}

-- The table of files, the descriptors of each process, and the slots of the processes that run: from the
-- loop of `fork` to that of `exit`.
pub record Files : Type 0 where
  pub table : Table
  pub rows : ℕ → Row
  pub live : ℕ → Bool

abbrev pub with_row : Files → ℕ → Row → Table → Files
with_row s p row t = record s { table = t; rows = update s.rows p row }

-- `initproc` is the first process, in slot 0.
abbrev pub initproc : ℕ
initproc = 0

-- Calls of a process that runs. `allocproc` gives `fork` a slot that is not in use.
pub data Step (s : Files) : Files → Type 0 where
  dupped :
      (p fd : ℕ) {r : Option ℕ} {x : Closing} {row : Row} {t : Table}
      → p < nproc
      → s.live p ≡ true
      → sys_dup fd (s.rows p) s.table ≡ ok (r, x, row, t)
      → Step s (with_row s p row t)
  closed :
      (p fd : ℕ) {r : Option ℕ} {x : Closing} {row : Row} {t : Table}
      → p < nproc
      → s.live p ≡ true
      → sys_close fd (s.rows p) s.table ≡ ok (r, x, row, t)
      → Step s (with_row s p row t)
  opened :
      (p ip : ℕ) (readable writable : Bool) {r : Option ℕ} {x : Closing} {row : Row} {t : Table}
      → p < nproc
      → s.live p ≡ true
      → open_inode ip readable writable (s.rows p) s.table ≡ ok (r, x, row, t)
      → Step s (with_row s p row t)
  forked :
      (p c : ℕ) {row : Row} {t : Table}
      → p < nproc
      → c < nproc
      → s.live p ≡ true
      → s.live c ≡ false
      → copy_files (s.rows p) nofile 0 (s.rows c) s.table ≡ ok (row, t)
      → Step s (record (with_row s c row t) { live = update s.live c true })
  exited :
      (p : ℕ) {cs : List Closing} {row : Row} {t : Table}
      → p < nproc
      → s.live p ≡ true
      → exit_files initproc p (s.rows p) s.table ≡ ok (cs, row, t)
      → Step s (record (with_row s p row t) { live = update s.live p false })

-- The first process runs, in slot 0; static memory is zero.
abbrev pub booted : Files
booted = record {
  table = λ i. record {
    kind = fd_none;
    ref = 0;
    readable = false;
    writable = false;
    pipe = 0;
    ip = 0;
    off = 0;
  };
  rows = λ p fd. none;
  live = λ p. p == 0;
}

pub data Reach : Files → Type 0 where
  begin : Reach booted
  later : {s t : Files} → Reach s → Step s t → Reach t
