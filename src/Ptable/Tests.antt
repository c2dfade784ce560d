-- ===== src/Ptable/Tests.antt =====
-- `initproc` in slot 0 and a shell in slot 1, its child.
use os_lab_course_project.Prelude.{◌≡◌, ◌≢◌, refl, ◌==◌, true, false, none, some, ok, arith, update}
use os_lab_course_project.Ptable.{
  unused, is_unused, running, sleeping, zombie, no_chan, proc_chan, Proc, Table, set_proc, nproc,
  allocproc, kill, wakeup1, exit, reparent,
}
use os_lab_course_project.Ptable.Steps.{run_wakeup, Reach, here, later}
use os_lab_course_project.Ptable.Wake.{IsFirst, kill_zero-allocproc}
use os_lab_course_project.Ptable.Numbers.{IsNumbered, Reach-IsNumbered}
use os_lab_course_project.Ptable.Family.{IsFamily, live, parent_of}
use os_lab_course_project.Ptable.Orphans.{exit-adopts, Reach-IsFamily}

abbrev free : Proc
free = record {
  state = unused;
  pid = 0;
  parent = none;
  chan = no_chan;
  killed = false;
  kstack = false;
}

abbrev init_proc : Proc
init_proc = record free { state = sleeping; pid = 1; chan = proc_chan 0; kstack = true }

abbrev shell : Proc
shell = record free { state = running; pid = 2; parent = some 0; kstack = true }

abbrev booted : Table
booted = record { proc = update (update (λ _. free) 0 init_proc) 1 shell; nextpid = 3 }

booted-IsNumbered : IsNumbered booted
booted-IsNumbered = record {
  positive = omega arith;
  below = λ i. ground arith;
  distinct = λ i j e. ground arith;
}

booted-IsFamily : IsFamily 0 booted
booted-IsFamily = record { init_live = refl; parent_live = λ i p h e. ground arith }

abbrev woken : Table
woken = wakeup1 (proc_chan 0) nproc 0 booted

woken-Reach : Reach 0 booted woken
woken-Reach = later here (run_wakeup (proc_chan 0))

Reach-IsNumbered_example : IsNumbered woken
unfolding woken-Reach
Reach-IsNumbered_example = Reach-IsNumbered woken-Reach booted-IsNumbered (omega arith)

Reach-IsFamily_example : IsFamily 0 woken
Reach-IsFamily_example = Reach-IsFamily woken-Reach booted-IsFamily

IsFirst-free : IsFirst (λ j. is_unused (booted.proc j).state) 2
IsFirst-free = (omega arith, refl, λ j h. ground arith)

IsFirst-zero : IsFirst (λ j. (booted.proc j).pid == 0) 2
IsFirst-zero = (omega arith, refl, λ j h. ground arith)

kill_zero-allocproc_example :
    let (done, t') = kill 0 booted in
    let (found, t'') = allocproc true t' in
    (done ≡ true) × (found ≡ some 2) × ((t''.proc 2).killed ≡ true) × ((t''.proc 2).pid ≡ 3)
kill_zero-allocproc_example = kill_zero-allocproc booted 2 IsFirst-zero IsFirst-free

abbrev adopted : Table
adopted = reparent 1 0 nproc 0 (wakeup1 (proc_chan 0) nproc 0 booted)

abbrev shell_exited : Table
shell_exited = set_proc adopted 1 (record (adopted.proc 1) { state = zombie })

exit-shell : exit 0 1 booted ≡ ok shell_exited
unfolding exit
exit-shell = refl

exit-adopts_example :
    (parent_of shell_exited 1 ≡ some 0)
    × (parent_of shell_exited 1 ≢ some 1)
    × (live shell_exited 1 ≡ false)
exit-adopts_example = exit-adopts 0 1 1 booted shell_exited exit-shell (omega arith)
