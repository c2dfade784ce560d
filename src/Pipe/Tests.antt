-- ===== src/Pipe/Tests.antt =====
-- A pipe whose counters are about to wrap.
use os_lab_course_project.Prelude.{◌-◌, ◌^◌, ◌≡◌, refl, List, [], ◌∷◌, true, false, arith}
use os_lab_course_project.Pipe.{Pipe, pipesize, handle, run}
use os_lab_course_project.Pipe.Fifo
use os_lab_course_project.Pipe.Fifo.{
  Op, write, read, close, wrote_reply, read_reply, wrote, got, serve,
}
use os_lab_course_project.Pipe.Window.{IsValid, contents}
use os_lab_course_project.Pipe.Refine.{handle_refines, run_refines}

abbrev wrapping : Pipe
wrapping = record {
  bytes = λ i. i;
  nread = 2 ^ 32 - 2;
  nwrite = 1;
  readopen = true;
  writeopen = true;
}

abbrev calls : List Op
calls = write false (7 ∷ 8 ∷ []) ∷ read false 4 ∷ close true ∷ read false 9 ∷ []

wrapping-IsValid : IsValid wrapping
wrapping-IsValid = omega arith

run-wrapping :
    run wrapping calls
    ≡ wrote_reply (wrote 2)
      ∷ read_reply (got (510 ∷ 511 ∷ 0 ∷ 7 ∷ []))
      ∷ Fifo.close_reply false
      ∷ read_reply (got (8 ∷ []))
      ∷ []
unfolding run
run-wrapping = refl

handle_refines_example :
    let (o, p') = handle wrapping (read false 1) in
    ((o, contents p') ≡ serve pipesize (contents wrapping) (read false 1)) × IsValid p'
handle_refines_example = handle_refines wrapping (read false 1) wrapping-IsValid

run_refines_example : run wrapping calls ≡ Fifo.run pipesize (contents wrapping) calls
run_refines_example = run_refines calls wrapping wrapping-IsValid
