-- ===== src/File.antt =====
-- xv6/file.c: the table of open files, and reads and writes of a file that is an inode.
-- `ftable.lock` makes `filealloc`, `filedup` and `fileclose` one step each.
pub mod References
pub mod Inode
mod Tests
use os_lab_course_project.Prelude.{
  ℕ, zero, suc, ◌==◌, Bool, true, false, if◌then◌else◌, Option, none, some, Result, ok, panic,
  update, add32, sub32, slt32,
}
use os_lab_course_project.Ptable.Scan.{scan}

pub data Kind : Type 0 where
  fd_none fd_pipe fd_inode : Kind

-- `struct file`; `pipe` and `ip` are pointers, `off` and `ref` words.
pub record File : Type 0 where
  pub kind : Kind
  pub ref : ℕ
  pub readable : Bool
  pub writable : Bool
  pub pipe : ℕ
  pub ip : ℕ
  pub off : ℕ

abbrev pub nfile : ℕ
nfile = 100

abbrev pub Table : Type 0
Table = ℕ → File

-- Of the file that is found only `ref` is set; the caller sets the other fields.
abbrev pub take_file : Table → Option ℕ → Option ℕ × Table
take_file t none = (none, t)
take_file t (some i) = (some i, update t i (record (t i) { ref = 1 }))

unfoldable pub filealloc : Table → Option ℕ × Table
filealloc t = take_file t (scan (λ i. (t i).ref == 0) nfile 0)

unfoldable pub filedup : ℕ → Table → Result Table
filedup i t =
    if slt32 (t i).ref 1
    then panic "filedup"
    else ok (update t i (record (t i) { ref = add32 (t i).ref 1 }))

-- What `fileclose` does once it has released the lock: nothing; `pipeclose(ff.pipe, ff.writable)`; or
-- `iput(ff.ip)` in a transaction.
pub data Closing : Type 0 where
  kept : Closing
  close_pipe : ℕ → Bool → Closing
  put_inode : ℕ → Closing

abbrev pub closing : File → Closing
closing f = elim f.kind [
  | fd_none ↦ kept
  | fd_pipe ↦ close_pipe f.pipe f.writable
  | fd_inode ↦ put_inode f.ip
]

unfoldable pub fileclose : ℕ → Table → Result (Closing × Table)
fileclose i t =
    let f = t i in
    let left = sub32 f.ref 1 in
    if slt32 f.ref 1
    then panic "fileclose"
    else if slt32 0 left
    then ok (kept, update t i (record f { ref = left }))
    else ok (closing f, update t i (record f { ref = 0; kind = fd_none }))
