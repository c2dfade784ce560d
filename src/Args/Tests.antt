-- ===== src/Args/Tests.antt =====
-- A process of 8192 bytes whose words are 100 and whose bytes are a text of five letters at 100.
use os_lab_course_project.Prelude.{
  ℕ, ◌+◌, ◌≤◌, ◌<◌, ◌^◌, ◌≡◌, ◌↔◌, refl, ltb, leb, ◌&&◌, if◌then◌else◌, none, some, arith,
}
use os_lab_course_project.Args.{User, fetchstr, argptr}
use os_lab_course_project.Args.Bounds.{arg_addr, argptr_iff}

abbrev user : User
user = record {
  sz = 8192;
  esp = 8000;
  word = λ a. 100;
  byte = λ a. if leb 100 a && ltb a 105 then 65 else 0;
}

fetchstr_text : fetchstr user 102 ≡ some (102, 3)
unfolding fetchstr
fetchstr_text = refl

argptr_negative : argptr user 0 0xffffffff ≡ none
unfolding argptr
argptr_negative = refl

argptr_iff_example : (argptr user 1 16 ≡ some 100) ↔ (
    (arg_addr user 1 + 4 ≤ 8192)
    × (◌≡◌ {A = ℕ} 100 100)
    × (100 + 16 ≤ 8192)
    × (16 < 2 ^ 31)
    × (100 < 8192))
argptr_iff_example = argptr_iff user 1 16 100 (omega arith) (λ a. omega arith) (omega arith)
