-- ===== src/Kalloc/Tests.antt =====
-- A kernel that ends at 0x80100000.
use os_lab_course_project.Prelude.{IsIn, ℕ, ◌≡◌, ◌↔◌, refl, List, [], ◌∷◌, some, ok, panic, arith}
use os_lab_course_project.Kalloc.{kalloc, kfree, freerange}
use os_lab_course_project.Kalloc.Pages.{IsFree, IsWhole, freerange_lem}

kfree_unaligned : kfree 0x80100000 [] 0x80200001 ≡ panic "kfree"
unfolding kfree
kfree_unaligned = refl

kalloc_two : kalloc (0x80201000 ∷ 0x80200000 ∷ []) ≡ (some 0x80201000, 0x80200000 ∷ [])
unfolding kalloc
kalloc_two = refl

freerange_lem_example :
    (l : List ℕ) × (freerange 0x80100000 [] 0x80100001 0x80104000 ≡ ok l)
    × IsFree 0x80100000 l
    × ((v : ℕ) → IsIn v l ↔ IsWhole 0x80100001 0x80104000 v)
freerange_lem_example =
    freerange_lem 0x80100000 0x80100001 0x80104000 (omega arith) (omega arith) (omega arith)
      (omega arith)
