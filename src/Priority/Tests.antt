-- ===== src/Priority/Tests.antt =====
-- Two processes, of pids 4 and 9, want the lock.
use os_lab_course_project.Prelude.{ℕ, ◌≡◌, ◌≤◌, refl, List, [], ◌∷◌, true, false, ok, update}
use os_lab_course_project.Priority.Queue.{add_queue, rm_queue}
use os_lab_course_project.Priority.Order.{}
use os_lab_course_project.Priority.Steps.{
  outside, waiting, Sys, attempt, enqueue, try_lock, Reach, start, later,
}
use os_lab_course_project.Priority.Safety.{one_inside, largest_first, no_deadlock}

add_queue_order : add_queue (add_queue (add_queue [] 4) 9) 6 ≡ 9 ∷ 6 ∷ 4 ∷ []
unfolding add_queue
add_queue_order = refl

rm_queue_order : rm_queue (9 ∷ 6 ∷ 4 ∷ []) 6 ≡ ok (9 ∷ 4 ∷ [])
unfolding rm_queue
rm_queue_order = refl

abbrev both_wait : Sys
both_wait = record {
  locked = false;
  queue = add_queue (add_queue [] 4) 9;
  place = update (update (λ _. outside) 4 waiting) 9 waiting;
}

both_wait-Reach : Reach both_wait
both_wait-Reach = later (later start (enqueue 4 refl)) (enqueue 9 refl)

attempt-both_wait : attempt false both_wait.queue 9 ≡ ok (true, true, 4 ∷ [])
unfolding attempt add_queue rm_queue
attempt-both_wait = refl

largest_first_example : 4 ≤ 9
largest_first_example = largest_first 9 4 both_wait-Reach refl attempt-both_wait refl

one_inside_example : ◌≡◌ {A = ℕ} 9 9
one_inside_example =
    one_inside 9 9 (later both_wait-Reach (try_lock 9 refl attempt-both_wait)) refl refl

no_deadlock_example :
    (top : ℕ) × (both_wait.place top ≡ waiting)
    × (4 ≤ top)
    × ((xs : List ℕ) × (attempt false both_wait.queue top ≡ ok (true, true, xs)))
no_deadlock_example = no_deadlock 4 both_wait-Reach refl refl
