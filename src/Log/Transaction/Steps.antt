-- ===== src/Log/Transaction/Steps.antt =====
-- FS system calls over one log, in any interleaving, while the power holds.
use os_lab_course_project.Prelude.{
  ℕ, ◌+◌, ◌-◌, ◌*◌, ◌<◌, ◌≡◌, true, List, [], ◌∷◌, some, ok, Bool, get_elem?, set, remove_at,
}
use os_lab_course_project.Log.Disk.{Block, Store}
use os_lab_course_project.Log.Commit.{Log, commit, initlog}
use os_lab_course_project.Log.Commit.Loops.{IsHome}
use os_lab_course_project.Log.Transaction.{maxopblocks, begin_op, end_op, end_commit, log_write}
use os_lab_course_project.Log.Transaction.Write.{write_block}

-- `left` has an entry for each system call between its `begin_op` and `end_op`: how many blocks it
-- may still add to the log, of the MAXOPBLOCKS that xv6/param.h grants it.
pub record Sys : Type 0 where
  pub log : Log
  pub store : Store
  pub left : List ℕ

-- `commit` is one step, since no other call touches the log or a logged block while `committing`.
pub data Step (s : Sys) : Sys → Type 0 where
  start_call :
      {l : Log}
      → begin_op s.log ≡ some l
      → Step s (record s { log = l; left = maxopblocks ∷ s.left })
  write_call :
      {l : Log} (i p q b : ℕ) (d : Block)
      → get_elem? s.left i ≡ some p
      → IsHome s.log b
      → log_write s.log b ≡ ok l
      → q + (l.n - s.log.n) ≡ p
      → Step s (record { log = l; store = write_block s.store b d; left = set s.left i q })
  end_call :
      {l : Log} {c : Bool} (i p : ℕ)
      → get_elem? s.left i ≡ some p
      → end_op s.log ≡ ok (l, c)
      → Step s (record s { log = l; left = remove_at s.left i })
  run_commit :
      s.log.committing ≡ true
      → 2 * s.log.n + 1 < s.store.budget
      → Step s
          (record s { log = end_commit (commit s.log s.store).0; store = (commit s.log s.store).1 })

pub data Reach (s : Sys) : Sys → Type 0 where
  here : Reach s s
  later : {t u : Sys} → Reach s t → Step t u → Reach s u

-- The state after `initlog` on a disk whose log is at `start`, `size` blocks long.
abbrev pub booted : ℕ → ℕ → Store → Sys
booted start size st = record {
  log = (initlog start size st).0;
  store = (initlog start size st).1;
  left = [];
}
