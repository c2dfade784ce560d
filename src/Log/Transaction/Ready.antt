-- ===== src/Log/Transaction/Ready.antt =====
-- Every reachable state is ready for a commit, and survives a crash.
use os_lab_course_project.Prelude.{
  ℕ, suc, ◌+◌, ◌≤◌, ◌<◌, ◌≡◌, refl, ◌⊎◌, inr, sym, false, arith, some, ok, panic, inl, get_elem?,
  Bool, List,
}
use os_lab_course_project.Log.Disk.{Store}
use os_lab_course_project.Log.Commit.{Log, commit}
use os_lab_course_project.Log.Commit.Atomic.{IsReady, commit-cleared, commit-IsReady, commit_atomic}
use os_lab_course_project.Log.Commit.Recovery.{IsIdle, cleared}
use os_lab_course_project.Log.Commit.Clean.{initlog-clean}
use os_lab_course_project.Log.Commit.Boot.{boots}
use os_lab_course_project.Log.Transaction.{begin_op, end_op, end_commit, log_write, logsize}
use os_lab_course_project.Log.Transaction.Write.{log_write-IsReady}
use os_lab_course_project.Log.Transaction.Reserve.{IsReserved, Step-IsReserved, log_write-cases}
use os_lab_course_project.Log.Transaction.Steps.{
  Sys, Step, start_call, write_call, end_call, run_commit, Reach, here, later, booted,
}

-- Readiness does not look at the counters.
IsReady-recount :
    (l : Log) (s : Store) (o : ℕ) (c : Bool)
    → IsReady l s
    → IsReady (record l { outstanding = o; committing = c }) s
IsReady-recount l s o c r = record {
  transaction = record {
    fits = record { room = r.transaction.fits.room; home = r.transaction.fits.home };
    distinct = r.transaction.distinct;
  };
  clear = r.clear;
  coherent = r.coherent;
}

begin_op-recounts :
    (l : Log) {l' : Log}
    → begin_op l ≡ some l'
    → l' ≡ record l { outstanding = l'.outstanding; committing = l'.committing }
unfolding begin_op
begin_op-recounts l e = ground arith

end_op-recounts :
    (l : Log) {l' : Log} {c : Bool}
    → end_op l ≡ ok (l', c)
    → l' ≡ record l { outstanding = l'.outstanding; committing = l'.committing }
unfolding end_op
end_op-recounts l e = ground arith

pub Step-IsReady : {s t : Sys} → Step s t → IsReady s.log s.store → IsReady t.log t.store
unfolding end_commit
Step-IsReady {s} (start_call {l = l} e) r =
    rw (begin_op-recounts s.log e) (IsReady-recount s.log s.store l.outstanding l.committing r)
Step-IsReady {s} (write_call i p q b d g h e grow) r = log_write-IsReady s.log s.store b d r h e
Step-IsReady {s} (end_call {l = l} i p g e) r =
    rw (end_op-recounts s.log e) (IsReady-recount s.log s.store l.outstanding l.committing r)
Step-IsReady {s} (run_commit e b) r = rw commit-cleared (
    IsReady-recount (cleared s.log) (commit s.log s.store).1 s.log.outstanding false
      (commit-IsReady s.log s.store r b))

-- The invariant of the log.
pub record IsSound (s : Sys) : Type 0 where
  pub ready : IsReady s.log s.store
  pub reserved : IsReserved s.log s.left

-- From a state in which the log is sound, every interleaving of calls to `begin_op`, `log_write`,
-- `end_op` and `commit` keeps it sound: the transaction fits, names no block twice and no block of
-- the log, the header on the disk is clear, all else in the cache is on the disk, and the blocks
-- logged with those still granted are at most LOGSIZE.
pub Reach-IsSound : {s t : Sys} → Reach s t → IsSound s → IsSound t
Reach-IsSound here i = i
Reach-IsSound (later r st) i =
    let j = Reach-IsSound r i in
    record { ready = Step-IsReady st j.ready; reserved = Step-IsReserved st j.reserved }

Reach-IsReady : {s t : Sys} → Reach s t → IsReady s.log s.store → IsReady t.log t.store
Reach-IsReady here r = r
Reach-IsReady (later p st) r = Step-IsReady st (Reach-IsReady p r)

-- In a state reached from a sound one, a call that may still add a block can: `log_write` does not
-- panic, whatever the block, and the header grows by one block at most; unless the log is full but for
-- the block of its header and has LOGSIZE blocks or fewer, when it panics.
pub log_write_lem :
    {s t : Sys} (i p b : ℕ)
    → Reach s t
    → IsSound s
    → get_elem? t.left i ≡ some (suc p)
    → ((l : Log) × (log_write t.log b ≡ ok l) × (l.n ≤ t.log.n + 1) × (t.log.n + 1 < t.log.size))
      ⊎ ((log_write t.log b ≡ panic "too big a transaction")
          × (t.log.n + 1 ≡ t.log.size)
          × (t.log.size ≤ logsize))
log_write_lem {t} i p b r z g =
    let v = Reach-IsSound r z in
    let room = v.ready.transaction.fits.room in
    elim (log_write-cases t.log t.left i p b v.reserved g) [
      | inl (l, e, grows, free) ↦ inl (l, e, grows, omega (arith, free))
      | inr (e, full, small) ↦ inr (e, omega (arith, full, room), small)
    ]

-- From a state whose log is ready for a commit, let `begin_op`, `log_write`, `end_op` and `commit` run
-- in any interleaving, and let the power fail then, before or in a commit, at whatever block write, and
-- in any number of recoveries. After a recovery with power for `n + 1` writes the home blocks are all
-- as the last completed commit left them on the disk, or all as in the cache.
pub crash_recovery :
    {s t : Sys} (budget k : ℕ) (js : List ℕ)
    → Reach s t
    → IsReady s.log s.store
    → t.log.n < k
    → let st = record t.store { budget = budget } in
      let d = (boots t.log js k (commit t.log st).1).disk in
      (IsIdle t.log t.store.disk d × (budget ≤ t.log.n)) ⊎ IsIdle t.log t.store.view d
crash_recovery {t} budget k js r z h =
    let ready = Reach-IsReady r z in
    commit_atomic t.log (record t.store { budget = budget }) js k
      (record { transaction = ready.transaction; clear = ready.clear; coherent = ready.coherent }) h

-- A boot on a disk whose log holds no transaction gives a sound state.
pub booted-IsSound :
    (start size : ℕ) (st : Store)
    → 0 < size
    → st.disk start 0 ≡ 0
    → ((x : ℕ) → st.view x ≡ st.disk x)
    → IsSound (booted start size st)
booted-IsSound start size st h z v =
    let (c, ready) = initlog-clean start size st (omega arith) z v in
    record {
      ready = ready;
      reserved = record {
        space = omega (arith, c.2);
        each = tt;
        calls = sym c.0;
        alone = inr refl;
        few = omega (arith, c.0);
      };
    }
