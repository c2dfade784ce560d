-- ===== src/Bcache/Tests.antt =====
-- A cache of two buffers, and the first call after `binit`.
use os_lab_course_project.Prelude.{◌≡◌, refl, true, false, List, [], ◌∷◌, ok, panic}
use os_lab_course_project.Bcache.{Buf, recycled, binit, binit_from, bget, brelse}
use os_lab_course_project.Bcache.Find.{}
use os_lab_course_project.Bcache.Unique.{IsUnique, Reach, start, got, Reach-IsUnique}

abbrev busy : Buf
busy = record { slot = 1; dev = 1; blockno = 40; refcnt = 2; valid = true; dirty = false }

abbrev old : Buf
old = record { slot = 0; dev = 1; blockno = 41; refcnt = 0; valid = true; dirty = false }

bget_recycles : bget 1 42 (busy ∷ old ∷ []) ≡ ok (0, busy ∷ recycled 1 42 old ∷ [])
unfolding bget
bget_recycles = refl

brelse_moves : brelse true 0 (busy ∷ record old { refcnt = 1 } ∷ []) ≡ ok (old ∷ busy ∷ [])
unfolding brelse
brelse_moves = refl

first_call : List Buf
first_call = elim (bget 1 7 binit) [ ok (i, l) ↦ l | panic m ↦ [] ]

first_call-Reach : Reach first_call
unfolding first_call bget binit binit_from
first_call-Reach = got {i = 0} 1 7 start refl

Reach-IsUnique_example : IsUnique first_call
Reach-IsUnique_example = Reach-IsUnique first_call-Reach
