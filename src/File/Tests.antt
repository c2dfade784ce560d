-- ===== src/File/Tests.antt =====
-- A file that is opened and duplicated, and an inode that is written through a file.
use os_lab_course_project.Prelude.{
  holders, ℕ, ◌+◌, ◌≡◌, ◌<◌, refl, ◌==◌, if◌then◌else◌, some, ok, panic, ◌⊎◌, get_elem?, update,
  arith,
}
use os_lab_course_project.File.{nfile, Table, filealloc, filedup, kept, closing, fileclose}
use os_lab_course_project.Ptable.Scan.{scan}
use os_lab_course_project.File.References.{Sys, Reach, begin, later, opened, dupped, last_close}
use os_lab_course_project.Fs.Content.Write.{Lacks}
use os_lab_course_project.Fs.Content.Stored.{Wrote}
use os_lab_course_project.Fs.Sample.{super, disk, file, no_devices, fives, file-IsStored}
use os_lab_course_project.File.Inode.{Open, filewrite}
use os_lab_course_project.File.Inode.Chunks.{filewrite_lem}

reached : (s : Sys) × Reach s × (get_elem? s.pointers 1 ≡ some 0)
unfolding filealloc filedup scan
reached =
    let r1 = later begin (opened 0 (omega arith) refl) in
    (_, later r1 (dupped 0 0 (omega arith) refl refl), refl)

abbrev twice : Sys
twice = reached.0

last_close_example :
    ((i : ℕ) → i < nfile → (twice.table i).ref ≡ holders i twice.pointers)
    × ((i : ℕ) (t : Table) → filealloc twice.table ≡ (some i, t) → holders i twice.pointers ≡ 0)
    × ((k i : ℕ)
        → get_elem? twice.pointers k ≡ some i
        → (filedup i twice.table
            ≡ ok (update twice.table i (record (twice.table i) { ref = (twice.table i).ref + 1 })))
          × ((t : Table) × (fileclose i twice.table
                ≡ ok (if holders i twice.pointers == 1 then closing (twice.table i) else kept, t))))
last_close_example = last_close reached.1

-- Two chunks.
abbrev at_90 : Open
at_90 = record { off = 90; ip = file; fs = disk }

filewrite_lem_example :
    ((f' : Open) × (filewrite no_devices super fives 2000 at_90 ≡ ok (some 2000, f'))
      × (f'.off ≡ 2090)
      × Wrote super disk file 90 2000 fives f'.fs f'.ip)
    ⊎ ((filewrite no_devices super fives 2000 at_90 ≡ panic "balloc: out of blocks")
        × Lacks disk file 90 2000)
filewrite_lem_example =
    filewrite_lem no_devices super fives 2000 at_90 file-IsStored (omega arith) (λ x. omega arith)
      (omega arith) (omega arith)
