-- ===== src/Log/Tests.antt =====
-- A transaction of two blocks on a disk of zeros, and a run of calls.
use os_lab_course_project.Prelude.{
  ◌+◌, ◌≡◌, refl, ◌≤◌, ◌⊎◌, inl, inr, ◌==◌, if◌then◌else◌, [], ◌∷◌, arith, false, true, some, ok,
  panic, ℕ, ◌<◌,
}
use os_lab_course_project.Log.Disk.{Block, Store}
use os_lab_course_project.Log.Commit.{Log, commit}
use os_lab_course_project.Log.Commit.Recovery.{IsIdle}
use os_lab_course_project.Log.Commit.Boot.{boots}
use os_lab_course_project.Log.Commit.Atomic.{IsReady, commit_atomic, commit_durable}
use os_lab_course_project.Log.Transaction.{log_write, begin_op}
use os_lab_course_project.Log.Transaction.Steps.{Sys, start_call, Reach, here, later}
use os_lab_course_project.Log.Transaction.Ready.{
  IsSound, Reach-IsSound, log_write_lem, crash_recovery,
}

abbrev zeros : Block
zeros = λ _. 0

abbrev two_blocks : Log
two_blocks = record {
  start = 2;
  size = 30;
  outstanding = 0;
  committing = true;
  n = 2;
  block = λ i. i + 40;
}

-- Blocks 40 and 41 hold sevens and eights in the cache, and the power lasts for `budget` writes.
abbrev with_power : ℕ → Store
with_power k = record {
  disk = λ _. zeros;
  view = λ b. if b == 40 then (λ _. 7) else if b == 41 then (λ _. 8) else zeros;
  dirty = λ b. b == 40;
  budget = k;
}

two_blocks-IsReady : (k : ℕ) → IsReady two_blocks (with_power k)
two_blocks-IsReady k = record {
  transaction = record {
    fits = record { room = omega arith; home = λ i h. inr (omega arith) };
    distinct = λ i j p q e. omega arith;
  };
  clear = refl;
  coherent = λ x h out. ground (arith, out 0, out 1);
}

-- The power fails in the middle of the install, and once more during recovery.
commit_atomic_example :
    (IsIdle two_blocks
        (with_power 4).disk
        (boots two_blocks (1 ∷ []) 3 (commit two_blocks (with_power 4)).1).disk
      × (4 ≤ 2))
    ⊎ IsIdle two_blocks
        (with_power 4).view
        (boots two_blocks (1 ∷ []) 3 (commit two_blocks (with_power 4)).1).disk
commit_atomic_example =
    commit_atomic two_blocks (with_power 4) (1 ∷ []) 3 (two_blocks-IsReady 4) (omega arith)

commit_durable_example :
    IsIdle two_blocks
      (with_power 3).view
      (boots two_blocks (0 ∷ 1 ∷ []) 3 (commit two_blocks (with_power 3)).1).disk
commit_durable_example =
    commit_durable two_blocks (with_power 3) (0 ∷ 1 ∷ []) 3 (two_blocks-IsReady 3) (omega arith)
      (omega arith)

abbrev clean : Store
clean = record { disk = λ _. zeros; view = λ _. zeros; dirty = λ _. false; budget = 100 }

abbrev quiet : Sys
quiet = record {
  log = record { start = 2; size = 30; outstanding = 0; committing = false; n = 0; block = zeros };
  store = clean;
  left = [];
}

quiet-IsSound : IsSound quiet
quiet-IsSound = record {
  ready = record {
    transaction = record {
      fits = record { room = omega arith; home = λ i h. absurd (omega arith) };
      distinct = λ i j h. absurd (omega arith);
    };
    clear = refl;
    coherent = λ x h _. refl;
  };
  reserved = record {
    space = omega arith;
    each = tt;
    calls = refl;
    alone = inl refl;
    few = omega arith;
  };
}

abbrev busy : Sys
busy = record quiet { log = record (quiet.log) { outstanding = 1 }; left = 10 ∷ [] }

begin_op-quiet : begin_op quiet.log ≡ some busy.log
unfolding begin_op
begin_op-quiet = refl

begun : Reach quiet busy
begun = later here (start_call begin_op-quiet)

Reach-IsSound_example : IsSound busy
Reach-IsSound_example = Reach-IsSound begun quiet-IsSound

-- A log of 30 blocks takes 29.
full_log_panics :
    log_write (record busy.log { n = 29; block = λ i. i + 40 }) 77 ≡ panic "too big a transaction"
unfolding log_write
full_log_panics = refl

log_write_lem_example :
    ((l : Log) × (log_write busy.log 77 ≡ ok l) × (l.n ≤ 1) × (1 < 30))
    ⊎ ((log_write busy.log 77 ≡ panic "too big a transaction") × (◌≡◌ {A = ℕ} 1 30) × (30 ≤ 30))
log_write_lem_example = log_write_lem 0 9 77 begun quiet-IsSound refl

crash_recovery_example :
    (IsIdle busy.log clean.disk
        (boots busy.log [] 1 (commit busy.log (record clean { budget = 0 })).1).disk
      × (0 ≤ 0))
    ⊎ IsIdle busy.log clean.view
        (boots busy.log [] 1 (commit busy.log (record clean { budget = 0 })).1).disk
crash_recovery_example = crash_recovery 0 1 [] begun quiet-IsSound.ready (omega arith)
