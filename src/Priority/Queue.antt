-- ===== src/Priority/Queue.antt =====
-- `struct queue` and its operations: a linked list whose nodes belong to one lock, as the list of
-- its pids. A node is a page from `kalloc`; `add_queue` uses it without a test, and what it does with
-- no page is not modelled.
use os_lab_course_project.Prelude.{
  ℕ, ◌==◌, ltb, if◌then◌else◌, List, [], ◌∷◌, Result, ok, panic, ◌>>=◌,
}

-- The walk of `add_queue` from the node before the list: on past each larger pid.
unfoldable pub add_after : List ℕ → ℕ → List ℕ
add_after [] pid = pid ∷ []
add_after (x ∷ xs) pid = if ltb pid x then x ∷ add_after xs pid else pid ∷ x ∷ xs

unfoldable pub add_queue : List ℕ → ℕ → List ℕ
unfolding add_after
add_queue [] pid = pid ∷ []
add_queue (x ∷ xs) pid = if ltb x pid then pid ∷ x ∷ xs else x ∷ add_after xs pid

-- The walk of `rm_queue` from the node before the list.
unfoldable pub rm_after : List ℕ → ℕ → Result (List ℕ)
rm_after [] pid = panic "not found in queu!\n"
rm_after (x ∷ xs) pid = if x == pid then ok xs else (rm_after xs pid >>= λ r. ok (x ∷ r))

unfoldable pub rm_queue : List ℕ → ℕ → Result (List ℕ)
unfolding rm_after
rm_queue [] pid = panic "queue null\n"
rm_queue (x ∷ xs) pid = if x == pid then ok xs else (rm_after xs pid >>= λ r. ok (x ∷ r))
