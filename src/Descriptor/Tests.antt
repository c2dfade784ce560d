-- ===== src/Descriptor/Tests.antt =====
-- A process opens a file, and forks.
use os_lab_course_project.Prelude.{ℕ, ◌≡◌, refl, true, false, Option, none, ok, panic, update}
use os_lab_course_project.Ptable.Scan.{scan}
use os_lab_course_project.File.{Closing, kept, Table, filealloc, filedup}
use os_lab_course_project.Descriptor.{nofile, Row, fdalloc, open_inode, copy_files}
use os_lab_course_project.Descriptor.Steps.{Files, with_row, booted}

first_open : Option ℕ × Closing × Row × Table
first_open = elim (open_inode 7 true false (booted.rows 0) booted.table) [
  | ok (r, c, row, t) ↦ (r, c, row, t)
  | panic m ↦ (none, kept, booted.rows 0, booted.table)
]

abbrev one_file : Files
one_file = with_row booted 0 first_open.2 first_open.3

copied : Row × Table
copied = elim (copy_files (one_file.rows 0) nofile 0 (one_file.rows 1) one_file.table) [
  | ok (row, t) ↦ (row, t)
  | panic m ↦ (booted.rows 1, one_file.table)
]

abbrev two_processes : Files
two_processes = record (with_row one_file 1 copied.0 copied.1) { live = update booted.live 1 true }

-- Both descriptors are for file 0.
shared : (two_processes.table 0).ref ≡ 2
unfolding copied first_open open_inode filealloc fdalloc scan copy_files filedup
shared = refl
