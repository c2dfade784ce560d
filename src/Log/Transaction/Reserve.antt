-- ===== src/Log/Transaction/Reserve.antt =====
-- Log space: what `begin_op` reserves is there when `log_write` wants it.
use os_lab_course_project.Prelude.{
  ℕ, suc, ◌+◌, ◌-◌, ◌*◌, ◌≤◌, ◌<◌, ◌≡◌, refl, ◌⊎◌, inl, inr, ◌==◌, false, ap, ◌∙◌, if◌then◌else◌,
  arith, update, some, ok, panic, Bool, Bool-cases, leb, List, [], ◌∷◌, length, get_elem?, set,
  remove_at, sum, All, sum-set, sum-remove_at, length-set, length-remove_at, All-get_elem?, All-set,
  All-remove_at, nil_of_length, sym,
}
use os_lab_course_project.Log.Disk.{Store}
use os_lab_course_project.Log.Commit.{Log, commit}
use os_lab_course_project.Log.Commit.Atomic.{commit-cleared}
use os_lab_course_project.Log.Transaction.{
  maxopblocks, logsize, begin_op, end_op, end_commit, log_write, absorb,
}
use os_lab_course_project.Log.Transaction.Write.{log_write-Wrote}
use os_lab_course_project.Log.Transaction.Steps.{
  Sys, Step, start_call, write_call, end_call, run_commit,
}

-- The blocks in the log and those still granted fit into it; a commit has the log for itself.
pub record IsReserved (l : Log) (left : List ℕ) : Type 0 where
  pub space : l.n + sum left ≤ logsize
  pub each : All (λ q. q ≤ maxopblocks) left
  pub calls : length left ≡ l.outstanding
  pub alone : (l.committing ≡ false) ⊎ (left ≡ [])
  pub few : l.outstanding ≤ 3

sum-le : (left : List ℕ) → All (λ q. q ≤ maxopblocks) left → sum left ≤ length left * maxopblocks
sum-le [] a = omega arith
sum-le (q ∷ qs) a = omega (arith, sum-le qs a.1, a.0)

begin_op-IsReserved :
    (l : Log) (left : List ℕ) {l' : Log}
    → IsReserved l left
    → begin_op l ≡ some l'
    → IsReserved l' (maxopblocks ∷ left)
unfolding begin_op
begin_op-IsReserved l left r e = ground (arith, sum-le left r.each)

end_op-IsReserved :
    (l : Log) (left : List ℕ) (i p : ℕ) {l' : Log} {c : Bool}
    → IsReserved l left
    → get_elem? left i ≡ some p
    → end_op l ≡ ok (l', c)
    → IsReserved l' (remove_at left i)
unfolding end_op
end_op-IsReserved l left i p r g e = record {
  space = ground (arith, sum-remove_at left i p g, r.space);
  each = All-remove_at (λ q. q ≤ maxopblocks) left i r.each;
  calls = ground (arith, length-remove_at left i p g, r.calls);
  alone = ground (arith, length-remove_at left i p g, nil_of_length (remove_at left i));
  few = ground (arith, r.few, length-remove_at left i p g, r.calls);
}

log_write-IsReserved :
    (l : Log) (left : List ℕ) (i p q b : ℕ) {l' : Log}
    → IsReserved l left
    → get_elem? left i ≡ some p
    → log_write l b ≡ ok l'
    → q + (l'.n - l.n) ≡ p
    → IsReserved l' (set left i q)
log_write-IsReserved l left i p q b {l'} r g e grow =
    let w = log_write-Wrote l b e in
    record {
      space = omega (arith, sum-set left i p q g, r.space, w.grows);
      each =
          All-set (λ q. q ≤ maxopblocks) left i q r.each
            (omega (arith, All-get_elem? (λ q. q ≤ maxopblocks) left i r.each g));
      calls = length-set left i q ∙ r.calls ∙ sym w.outstanding;
      alone = elim r.alone [
        | inl idle ↦ inl (w.committing ∙ idle)
        | inr none_left ↦ inr (ap (λ xs. set xs i q) none_left)
      ];
      few = omega (arith, w.outstanding, r.few);
    }

commit-IsReserved :
    (l : Log) (s : Store) (left : List ℕ)
    → IsReserved l left
    → IsReserved (end_commit (commit l s).0) left
unfolding end_commit
commit-IsReserved l s left r = rw commit-cleared (record {
  space = omega (arith, r.space);
  each = r.each;
  calls = r.calls;
  alone = inl refl;
  few = r.few;
})

-- Every step keeps the reservation.
pub Step-IsReserved : {s t : Sys} → Step s t → IsReserved s.log s.left → IsReserved t.log t.left
Step-IsReserved {s} (start_call e) r = begin_op-IsReserved s.log s.left r e
Step-IsReserved {s} (write_call i p q b d g h e grow) r =
    log_write-IsReserved s.log s.left i p q b r g e grow
Step-IsReserved {s} (end_call i p g e) r = end_op-IsReserved s.log s.left i p r g e
Step-IsReserved {s} (run_commit e b) r = commit-IsReserved s.log s.store s.left r

-- A system call with a grant left adds its block, which the grant covers, unless all the blocks of the
-- log but the header's are in use; then it has LOGSIZE blocks at most.
pub log_write-cases :
    (l : Log) (left : List ℕ) (i p b : ℕ)
    → IsReserved l left
    → get_elem? left i ≡ some (suc p)
    → ((l' : Log) × (log_write l b ≡ ok l') × (l'.n ≤ l.n + 1) × (l.n < l.size - 1))
      ⊎ ((log_write l b ≡ panic "too big a transaction") × (l.size - 1 ≤ l.n) × (l.size ≤ logsize))
unfolding log_write
log_write-cases l left i p b r g = elim (Bool-cases (leb (l.size - 1) l.n)) [
  | inl full ↦
      inr (ground arith, ground arith, ground (arith, r.space, sum-remove_at left i (suc p) g))
  | inr free ↦ inl (
    record l {
      block = update l.block (absorb l.block b l.n 0) b;
      n = if absorb l.block b l.n 0 == l.n then l.n + 1 else l.n;
    },
    ground (
      arith,
      r.space,
      r.few,
      r.calls,
      sum-remove_at left i (suc p) g,
      length-remove_at left i (suc p) g,
    ),
    ground arith,
    ground arith,
  )
]

-- A call in progress can always end: `end_op` does not panic, and it asks for a commit exactly if
-- the call was the only one.
pub end_op-ok :
    (l : Log) (left : List ℕ) (i p : ℕ)
    → IsReserved l left
    → get_elem? left i ≡ some p
    → (l' : Log) × (end_op l ≡ ok (l', l.outstanding == 1)) × (l'.outstanding + 1 ≡ l.outstanding)
unfolding end_op
end_op-ok l left i p r g =
    let n = length-remove_at left i p g in
    let idle : l.committing ≡ false = elim r.alone [
      | inl e ↦ e
      | inr e ↦ absurd (omega (arith, ap (λ (xs : List ℕ). length xs) e))
    ] in
    (
      record l { outstanding = l.outstanding - 1; committing = l.outstanding == 1 },
      ground (arith, r.few, r.calls),
      omega (arith, r.calls),
    )
