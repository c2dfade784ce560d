-- ===== src/Console/Tests.antt =====
-- A line that is typed, edited and read, with the indices about to wrap.
use os_lab_course_project.Prelude.{◌≡◌, refl, false, List, [], ◌∷◌, ◌-◌, ◌^◌, arith}
use os_lab_course_project.Console.{Input, run}
use os_lab_course_project.Console.Line
use os_lab_course_project.Console.Line.{
  Line, Op, Reply, typed, take_ready, kill_line, delete, newline,
}
use os_lab_course_project.Console.Refine.{Shows, session_refines}

abbrev at_wrap : Input
at_wrap = record { buf = λ i. 0; r = 2 ^ 32 - 1; w = 2 ^ 32 - 1; e = 2 ^ 32 - 1 }

abbrev nothing : Line
nothing = record { ready = []; line = [] }

at_wrap-Shows : Shows at_wrap nothing
at_wrap-Shows = record {
  word = omega arith;
  at_w = refl;
  at_e = refl;
  room = omega arith;
  holds = tt;
  back = tt;
  one_line = tt;
}

abbrev session : List Op
session =
    Op.keys (b'x' ∷ kill_line ∷ b'l' ∷ b'z' ∷ delete ∷ b's' ∷ newline ∷ b'a' ∷ [])
    ∷ Op.read false 2 []
    ∷ Op.read false 9 []
    ∷ Op.read false 1 []
    ∷ []

replies : List Reply
unfolding Line.run
replies = Line.run nothing session

run-session : run at_wrap session ≡ replies
unfolding run replies Line.run
run-session = refl

session_refines_example : run at_wrap session ≡ Line.run nothing session
session_refines_example = session_refines session at_wrap nothing at_wrap-Shows (omega arith)
