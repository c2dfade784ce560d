-- ===== src/Log/Commit/Atomic.antt =====
-- `commit` is atomic: whatever write the power fails at, and however often recovery is cut short,
-- the disk ends with all of the transaction or with none of it.
use os_lab_course_project.Prelude.{
  ℕ, ◌+◌, ◌-◌, ◌≤◌, ◌<◌, ◌≡◌, ◌≢◌, ◌⊎◌, inl, inr, ltb, ◌∙◌, ap, sym, ◌*◌, if◌then◌else◌, arith,
  update, List,
}
use native.Mathlib.Decide.{dec_lt}
use os_lab_course_project.Log.Disk.{Block, Store, bread, bwrite}
use os_lab_course_project.Log.Commit.{
  Log, write_head, write_log, install_from, install_trans, write_blocks, commit,
}
use os_lab_course_project.Log.Commit.Install.{
  install_from-dead, budget-install_from, install_from-view, install_from_other,
}
use os_lab_course_project.Log.Commit.Loops.{
  Fits, IsHome, write_blocks_lem, budget-log_from, view-log_from, disk-log_from,
}
use os_lab_course_project.Log.Commit.Recovery.{
  IsIdle, IsCommitted, IsTransaction, finish_lem, cleared, find_block, write_head-dead,
}
use os_lab_course_project.Log.Commit.Boot.{boots, boots-IsIdle, boots-IsCommitted}

-- What holds when `commit` starts: the header on the disk is clear, and a home block that the
-- transaction does not name is on the disk as it is in the cache.
pub record IsReady (l : Log) (s : Store) : Type 0 where
  pub transaction : IsTransaction l
  pub clear : s.disk l.start 0 ≡ 0
  pub coherent : (x : ℕ) → IsHome l x → ((i : ℕ) → i < l.n → l.block i ≢ x) → s.disk x ≡ s.view x

module _ (l : Log) (s : Store) (r : IsReady l s) where
  open r use {transaction, clear, coherent}

  logged : Store
  logged = write_log l s

  -- With a block write left after `write_log`, the header goes to the disk: the commit point.
  headed : Store
  headed = write_head l logged

  budget-logged : logged.budget ≡ s.budget - l.n
  unfolding logged write_log
  budget-logged = budget-log_from l l.n 0 s

  budget-headed : headed.budget ≡ s.budget - l.n - 1
  unfolding headed write_head bwrite
  budget-headed = ap (λ (b : ℕ). b - 1) budget-logged

  fits : Fits l (0 + l.n)
  fits = record {
    room = omega (arith, transaction.fits.room);
    home = λ i h. transaction.fits.home i (omega arith);
  }

  disk-home : (x : ℕ) → IsHome l x → headed.disk x ≡ s.disk x
  unfolding headed logged write_log write_head bwrite
  disk-home x h = ground (arith, disk-log_from l l.n 0 s x fits, fits.room)

  disk-start : headed.disk l.start ≡ (
      if ltb l.n s.budget
      then write_blocks l.block l.n 0 (update (bread logged l.start) 0 l.n)
      else s.disk l.start)
  unfolding headed logged write_log write_head bwrite
  disk-start = ground (arith, disk-log_from l l.n 0 s l.start fits, budget-log_from l l.n 0 s)

  disk-logged :
      (i : ℕ) → i < l.n → l.n < s.budget → headed.disk (l.start + i + 1) ≡ s.view (l.block i)
  unfolding headed logged write_log write_head bwrite
  disk-logged i h b = ground (arith, disk-log_from l l.n 0 s (l.start + i + 1) fits, index)
    where
      index : l.block (l.start + i + 1 - l.start - 1) ≡ l.block i
      index = ap l.block (omega arith)

  headed-IsIdle : s.budget ≤ l.n → IsIdle l s.disk headed.disk
  headed-IsIdle b = record { clear = ground (arith, disk-start, clear); home = disk-home }

  headed-IsCommitted : l.n < s.budget → IsCommitted l s.view headed.disk
  headed-IsCommitted b = record {
    count =
        ground (
          arith,
          disk-start,
          write_blocks_lem l.block l.n 0 (update (bread logged l.start) 0 l.n) 0,
        );
    names = λ i h. ground (
      arith,
      disk-start,
      write_blocks_lem l.block l.n 0 (update (bread logged l.start) 0 l.n) (i + 1),
      ap l.block {x = i + 1 - 1} {y = i} (omega arith),
    );
    logged = λ i h. disk-logged i h b;
    others = λ x h out. disk-home x h ∙ coherent x h out;
  }

  headed-view : (i : ℕ) → i < l.n → headed.view (l.start + i + 1) ≡ s.view (l.block i)
  unfolding headed logged write_log write_head bwrite
  headed-view i h = ground (arith, view-log_from l l.n 0 s (l.start + i + 1) fits, index, fits.room)
    where
      index : l.block (l.start + i + 1 - l.start - 1) ≡ l.block i
      index = ap l.block (omega arith)

  finished : Store
  finished = write_head (cleared l) (install_trans l headed)

  commit-finished : 0 < l.n → (commit l s).1 ≡ finished
  unfolding commit finished headed logged
  commit-finished z = ground arith

  -- Before the header is written nothing after it reaches the disk.
  finished-early : s.budget ≤ l.n → finished.disk ≡ headed.disk
  unfolding finished install_trans
  finished-early b =
      write_head-dead (cleared l) (install_from l l.n 0 headed)
        (omega (arith, budget-install_from l l.n 0 headed, budget-headed))
      ∙ install_from-dead l l.n 0 headed (omega (arith, budget-headed))

  commit-empty : ¬ (0 < l.n) → (commit l s).1 ≡ s
  unfolding commit
  commit-empty z = ground arith

  -- Where the failure leaves the disk.
  data Outcome (d : ℕ → Block) : Type 0 where
    lost : IsIdle l s.disk d → s.budget ≤ l.n → Outcome d
    pending : IsCommitted l s.view d → s.budget ≤ 2 * l.n + 1 → Outcome d
    applied : IsIdle l s.view d → Outcome d

  commit-Outcome : Outcome (commit l s).1.disk
  unfolding finished
  commit-Outcome = elim (dec_lt 0 l.n) [
    | yes z ↦ rw (commit-finished z) (elim (dec_lt l.n s.budget) [
      | yes more ↦
          elim (finish_lem l s.view headed transaction (headed-IsCommitted more) headed-view) [
            | inl (c, b) ↦ pending c (omega (arith, budget-headed))
            | inr i ↦ applied i
          ]
      | no less ↦
          rw (finished-early (omega arith)) (lost (headed-IsIdle (omega arith)) (omega arith))
    ])
    | no z ↦ rw (commit-empty z) (
        applied
          (record { clear = clear; home = λ x h. coherent x h (λ i k. absurd (omega arith)) }))
  ]

  view-home : (x : ℕ) → IsHome l x → headed.view x ≡ s.view x
  unfolding headed logged write_log write_head bwrite
  view-home x h = ground (arith, view-log_from l l.n 0 s x fits, fits.room)

  finished-view : (x : ℕ) → IsHome l x → finished.view x ≡ (install_trans l headed).view x
  unfolding finished write_head bwrite
  finished-view x h = ground (arith, fits.room)

  -- The cache holds the same home blocks after `commit`.
  commit-view : (x : ℕ) → IsHome l x → (commit l s).1.view x ≡ s.view x
  unfolding install_trans
  commit-view x h = elim (dec_lt 0 l.n) [
    | no z ↦ ap (λ (st : Store). st.view x) (commit-empty z)
    | yes z ↦
        ap (λ (st : Store). st.view x) (commit-finished z)
        ∙ finished-view x h
        ∙ elim (find_block l l.n x) [
          | inl (i, k, e) ↦ rw (← e) (
              install_from-view l l.n l.n 0 headed i (omega arith) transaction.fits
                transaction.distinct (omega arith) k
              ∙ headed-view i k)
          | inr out ↦
              (install_from_other l l.n 0 headed x (λ j _ q. out j (omega arith))).1 ∙ view-home x h
        ]
  ]

pub commit-cleared : (l : Log) (s : Store) → (commit l s).0 ≡ cleared l
unfolding commit
commit-cleared l s = ground arith

-- A commit with power for all its writes leaves an empty transaction, the header clear, and the
-- home blocks on the disk as they are in the cache.
pub commit-IsReady :
    (l : Log) (s : Store)
    → IsReady l s
    → 2 * l.n + 1 < s.budget
    → IsReady (cleared l) (commit l s).1
commit-IsReady l s r b = elim (commit-Outcome l s r) [
  | lost _ h ↦ absurd (omega arith)
  | pending _ h ↦ absurd (omega arith)
  | applied i ↦ record {
    transaction = record {
      fits = record {
        room = omega (arith, r.transaction.fits.room);
        home = λ j h. absurd (omega arith);
      };
      distinct = λ j k h. absurd (omega arith);
    };
    clear = i.clear;
    coherent = λ x hx _. i.home x hx ∙ sym (commit-view l s r x hx);
  }
]

-- Let `commit` start with a clear header on the disk, a transaction that fits into the log and
-- names no block twice nor any block of the log, and a cache that agrees with the disk on the other
-- home blocks. Let the power fail at any block write of it, then at any block write of each of any
-- number of recoveries, and let a last recovery have power for `l.n + 1` writes. Then the home
-- blocks are all as on the disk before `commit`, which happens only if at most `l.n` writes were
-- made before the first failure, or all as in the cache; and the log is empty.
pub commit_atomic :
    (l : Log) (s : Store) (js : List ℕ) (k : ℕ)
    → IsReady l s
    → l.n < k
    → (IsIdle l s.disk (boots l js k (commit l s).1).disk × (s.budget ≤ l.n))
      ⊎ IsIdle l s.view (boots l js k (commit l s).1).disk
commit_atomic l s js k r h = elim (commit-Outcome l s r) [
  | lost i b ↦
      inl (boots-IsIdle l s.disk js k (commit l s).1 (omega (arith, r.transaction.fits.room)) i, b)
  | pending c _ ↦ inr (boots-IsCommitted l s.view js k (commit l s).1 r.transaction h c)
  | applied i ↦
      inr (boots-IsIdle l s.view js k (commit l s).1 (omega (arith, r.transaction.fits.room)) i)
]

-- Under the same conditions, if the power lasts for more than `l.n` block writes of `commit`, then
-- after the recoveries every home block is as it was in the cache: what is committed stays.
pub commit_durable :
    (l : Log) (s : Store) (js : List ℕ) (k : ℕ)
    → IsReady l s
    → l.n < k
    → l.n < s.budget
    → IsIdle l s.view (boots l js k (commit l s).1).disk
commit_durable l s js k r h b = elim (commit_atomic l s js k r h) [
  | inl (_, less) ↦ absurd (omega arith)
  | inr i ↦ i
]
