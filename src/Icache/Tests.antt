-- ===== src/Icache/Tests.antt =====
-- Two calls of `iget` for inode 7.
use os_lab_course_project.Prelude.{ℕ, ◌≡◌, ◌<◌, refl, ok, some, get_elem?, holders, arith}
use os_lab_course_project.Icache.{ninode, look_up, iget, idup}
use os_lab_course_project.Icache.References.{Sys, Reach, begin, later, got, one_entry}

reached :
    (s : Sys) × Reach s × (get_elem? s.pointers 0 ≡ some 0) × (get_elem? s.pointers 1 ≡ some 0)
unfolding iget look_up
reached =
    let r1 = later begin (got 1 7 (omega arith) refl) in
    (_, later r1 (got 1 7 (omega arith) refl), refl, refl)

abbrev twice : Sys
twice = reached.0

one_entry_example :
    ((i : ℕ) → i < ninode → (twice.cache i).ref ≡ holders i twice.pointers)
    × ((k l i j : ℕ)
        → get_elem? twice.pointers k ≡ some i
        → get_elem? twice.pointers l ≡ some j
        → (twice.cache i).dev ≡ (twice.cache j).dev
        → (twice.cache i).inum ≡ (twice.cache j).inum
        → i ≡ j)
    × ((k i : ℕ)
        → get_elem? twice.pointers k ≡ some i
        → iget (twice.cache i).dev (twice.cache i).inum twice.cache ≡ ok (i, idup i twice.cache))
one_entry_example = one_entry reached.1
