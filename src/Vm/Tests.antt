-- ===== src/Vm/Tests.antt =====
-- An empty page table, three free pages, and two pages to map from the middle of a page on.
use os_lab_course_project.Prelude.{ℕ, ◌+◌, ◌*◌, ◌<◌, refl, [], ◌∷◌, arith}
use os_lab_course_project.Kalloc.{kernbase}
use os_lab_course_project.Vm.{Vm, mappages}
use os_lab_course_project.Vm.Tables.{IsFrame, IsTable}
use os_lab_course_project.Vm.Map.{MapResult, mappages_lem}

abbrev page : ℕ → ℕ
page i = kernbase + 4096 * i

abbrev empty : Vm
empty = record { words = λ a. 0; freelist = page 1025 ∷ page 1026 ∷ page 1027 ∷ [] }

frame : (i : ℕ) → i < 1100 → IsFrame (page i)
frame i h = record { aligned = omega arith; above = omega arith; below = omega arith }

empty-IsTable : IsTable (page 1024) empty
empty-IsTable = record {
  dir = frame 1024 (omega arith);
  dir_taken = omega arith;
  frame = λ i h p. cc p;
  apart = λ i h p. cc p;
  taken = λ i h p. cc p;
  distinct = λ i j h l p. cc p;
  free = (
    frame 1025 (omega arith),
    omega arith,
    (frame 1026 (omega arith), omega arith, (frame 1027 (omega arith), tt, tt)),
  );
}

-- 5000 bytes at 4196, with PTE_W and PTE_U.
mappages_lem_example :
    MapResult (page 1024) 6 1 8192 2 empty (mappages (page 1024) 4196 5000 8192 6 empty)
mappages_lem_example =
    mappages_lem (page 1024) 4196 5000 8192 6 1 1 empty empty-IsTable refl (omega arith) refl
      (omega arith) refl (omega arith) (omega arith) (λ n h l. refl)
