-- ===== src/CString/Tests.antt =====
-- Small memories: a text at 10, and numbers by their address.
use os_lab_course_project.Prelude.{◌≡◌, refl, inl, ◌==◌, if◌then◌else◌, some, arith}
use os_lab_course_project.CString.{Memory, memset, memmove, memcmp, strncpy, safestrcpy, strlen}
use os_lab_course_project.CString.Move.{memmove_lem}
use os_lab_course_project.CString.Compare.{strlen_lem}
use os_lab_course_project.CString.Copy.{Copied, safestrcpy-Copied}

-- "ab" at 10, and "abc" at 20.
abbrev text : Memory
text x =
    if x == 10
    then b'a'
    else if x == 11
    then b'b'
    else if x == 20
    then b'a'
    else if x == 21
    then b'b'
    else if x == 22
    then b'c'
    else 0

memset_words : memset (λ x. x) 8 0x1ff 8 15 ≡ 255
unfolding memset
memset_words = refl

memmove_overlap : memmove (λ x. x) 12 10 5 16 ≡ 14
unfolding memmove
memmove_overlap = refl

first_difference : memcmp text 10 20 3 ≡ some (0, b'c')
unfolding memcmp
first_difference = refl

padded_copy : strncpy (λ x. if x == 30 then 7 else text x) 40 30 3 41 ≡ 0
unfolding strncpy
padded_copy = refl

memmove_lem_example : memmove (λ x. x) 12 10 5 16 ≡ 14
memmove_lem_example = memmove_lem (λ x. x) 12 10 5 16 (omega arith)

safestrcpy-Copied_example : Copied text (safestrcpy text 40 20 3) 40 20 3
safestrcpy-Copied_example = safestrcpy-Copied 2 text 40 20 (omega arith) (inl (omega arith))

three_letters : strlen 5 text 20 ≡ some 3
three_letters = strlen_lem 5 text 20 3 (omega arith) (λ i h. ground arith) refl
