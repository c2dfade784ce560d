-- ===== src/Fs/Path/Tests.antt =====
-- `skipelem` on the examples of its comment, and on an element of 15 bytes.
use os_lab_course_project.Prelude.{◌≡◌, refl, none, some, [], ◌∷◌, List, ℕ}
use os_lab_course_project.Fs.Path.{skipelem}
use os_lab_course_project.Fs.Path.Elements.{skipelem_lem, Taken}

skipelem_a : skipelem (b'a' ∷ []) ≡ some ([], b'a' ∷ [])
unfolding skipelem
skipelem_a = refl

skipelem_slashes : skipelem (b'/' ∷ b'/' ∷ []) ≡ none
unfolding skipelem
skipelem_slashes = refl

abbrev a_bb_c : List ℕ
a_bb_c = b'/' ∷ b'a' ∷ b'/' ∷ b'/' ∷ b'b' ∷ b'b' ∷ b'/' ∷ b'c' ∷ []

skipelem_bb : skipelem a_bb_c ≡ some (b'b' ∷ b'b' ∷ b'/' ∷ b'c' ∷ [], b'a' ∷ [])
unfolding skipelem
skipelem_bb = refl

skipelem_lem_example : Taken a_bb_c
skipelem_lem_example = skipelem_lem a_bb_c
