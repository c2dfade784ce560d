-- ===== src/Log/Commit/Recovery.antt =====
-- What a disk may hold when the power fails, and what `recover_from_log` makes of it.
use os_lab_course_project.Prelude.{
  ℕ, zero, suc, ◌+◌, ◌-◌, ◌≤◌, ◌<◌, ◌≡◌, ◌≢◌, ◌⊎◌, inl, inr, ◌∙◌, ap, arith,
}
use native.Mathlib.Decide.{ℕ_discrete, dec_lt}
use os_lab_course_project.Log.Disk.{Block, Store, bwrite}
use os_lab_course_project.Log.Commit.{Log, install_from, install_trans, write_head, write_blocks}
use os_lab_course_project.Log.Commit.Loops.{Fits, IsHome}
use os_lab_course_project.Log.Commit.Install.{
  IsDistinct, install_from_other, install_from_self, budget-install_from, home-ne-log,
}

-- No transaction is in the log, and the blocks outside it are those of `want`.
pub record IsIdle (l : Log) (want d : ℕ → Block) : Type 0 where
  pub clear : d l.start 0 ≡ 0
  pub home : (x : ℕ) → IsHome l x → d x ≡ want x

-- The transaction of `l` is in the log, and with it the blocks outside are those of `want`.
pub record IsCommitted (l : Log) (want d : ℕ → Block) : Type 0 where
  pub count : d l.start 0 ≡ l.n
  pub names : (i : ℕ) → i < l.n → d l.start (i + 1) ≡ l.block i
  pub logged : (i : ℕ) → i < l.n → d (l.start + i + 1) ≡ want (l.block i)
  pub others : (x : ℕ) → IsHome l x → ((i : ℕ) → i < l.n → l.block i ≢ x) → d x ≡ want x

-- The transaction fits into the log and names no block twice.
pub record IsTransaction (l : Log) : Type 0 where
  pub fits : Fits l l.n
  pub distinct : IsDistinct l l.n

pub find_block :
    (l : Log) (n x : ℕ) → ((i : ℕ) × (i < n) × (l.block i ≡ x)) ⊎ ((i : ℕ) → i < n → l.block i ≢ x)
find_block l zero x = inr (λ i h. absurd (omega arith))
find_block l (suc n) x = elim (ℕ_discrete (l.block n) x) [
  | yes e ↦ inl (n, omega arith, e)
  | no ne ↦ elim (find_block l n x) [
    | inl (i, h, e) ↦ inl (i, omega arith, e)
    | inr all ↦ inr (λ i h e. ground (arith, all i, ne))
  ]
]

module _ (l : Log) (want : ℕ → Block) (s : Store) (t : IsTransaction l) where
  start-not-home : (i : ℕ) → i < l.n → l.block i ≢ l.start
  start-not-home i h e = ground (arith, t.fits.room, t.fits.home i h)

  -- Wherever the power fails, `install_trans` keeps the transaction in the log.
  install-IsCommitted : IsCommitted l want s.disk → IsCommitted l want (install_trans l s).disk
  unfolding install_trans
  install-IsCommitted c = record {
    count = ap (λ (f : Block). f 0) header ∙ c.count;
    names = λ i h. ap (λ (f : Block). f (i + 1)) header ∙ c.names i h;
    logged = λ i h.
        (install_from_other l l.n 0 s (l.start + i + 1)
          (λ j _ q. home-ne-log l t.fits j i (omega arith) h)).0
        ∙ c.logged i h;
    others = λ x hx out.
        (install_from_other l l.n 0 s x (λ j _ q. out j (omega arith))).0 ∙ c.others x hx out;
  }
    where
      header : (install_from l l.n 0 s).disk l.start ≡ s.disk l.start
      header = (install_from_other l l.n 0 s l.start (λ j _ q. start-not-home j (omega arith))).0

  -- With power for all of it, it brings every home block up to date.
  install-home :
      IsCommitted l want s.disk
      → ((i : ℕ) → i < l.n → s.view (l.start + i + 1) ≡ want (l.block i))
      → l.n ≤ s.budget
      → (x : ℕ) → IsHome l x
      → (install_trans l s).disk x ≡ want x
  unfolding install_trans
  install-home c log b x hx = elim (find_block l l.n x) [
    | inl (i, h, e) ↦ rw (← e) (
        install_from_self l l.n l.n 0 s i (omega arith) t.fits t.distinct b (omega arith) h
        ∙ log i h)
    | inr out ↦
        (install_from_other l l.n 0 s x (λ j _ q. out j (omega arith))).0 ∙ c.others x hx out
  ]

abbrev pub cleared : Log → Log
cleared l = record l { n = 0 }

pub write_head-dead : (l : Log) (s : Store) → s.budget ≡ 0 → (write_head l s).disk ≡ s.disk
unfolding write_head bwrite
write_head-dead l s e = rw e

write_head-clear :
    (l : Log) (want : ℕ → Block) (s : Store)
    → 0 < s.budget
    → 0 < l.size
    → ((x : ℕ) → IsHome l x → s.disk x ≡ want x)
    → IsIdle l want (write_head (cleared l) s).disk
unfolding write_head bwrite write_blocks
write_head-clear l want s b z home = record {
  clear = ground arith;
  home = λ x hx. ground (arith, home x hx);
}

-- `install_trans`, then the header with no blocks: the end of `commit` and of `recover_from_log`.
pub finish_lem :
    (l : Log) (want : ℕ → Block) (s : Store)
    → IsTransaction l
    → IsCommitted l want s.disk
    → ((i : ℕ) → i < l.n → s.view (l.start + i + 1) ≡ want (l.block i))
    → let d = (write_head (cleared l) (install_trans l s)).disk in
      (IsCommitted l want d × (s.budget ≤ l.n)) ⊎ IsIdle l want d
finish_lem l want s t c log = elim (dec_lt l.n s.budget) [
  | yes more ↦ inr (
      write_head-clear l want (install_trans l s) (rw left (omega arith))
        (omega (arith, t.fits.room)) (install-home l want s t c log (omega arith)))
  | no less ↦ inl (
    rw (write_head-dead (cleared l) (install_trans l s) (rw left (omega arith)))
        (install-IsCommitted l want s t c),
    omega arith,
  )
]
  where
    left : (install_trans l s).budget ≡ s.budget - l.n
    left = unfold install_trans in budget-install_from l l.n 0 s
