-- ===== src/Log/Commit/Loops.antt =====
-- What the loops of xv6/log.c write, on the disk and in the cache, when the power may fail.
use os_lab_course_project.Prelude.{
  ℕ, zero, suc, ◌+◌, ◌-◌, ◌≤◌, ◌<◌, ◌≡◌, ◌⊎◌, ltb, leb, ◌&&◌, if◌then◌else◌, arith, update,
}
use os_lab_course_project.Log.Disk.{Store, bread, bwrite}
use os_lab_course_project.Log.Commit.{Log, read_blocks, write_blocks, log_from}

pub read_blocks_lem :
    (buf : ℕ → ℕ) (r i : ℕ) (block : ℕ → ℕ) (x : ℕ)
    → read_blocks buf r i block x ≡ (if leb i x && ltb x (i + r) then buf (x + 1) else block x)
unfolding read_blocks
read_blocks_lem buf zero i block x = ground arith
read_blocks_lem buf (suc r) i block x =
    ground (arith, read_blocks_lem buf r (i + 1) (update block i (buf (i + 1))) x)

pub write_blocks_lem :
    (block : ℕ → ℕ) (r i : ℕ) (hb : ℕ → ℕ) (x : ℕ)
    → write_blocks block r i hb x
      ≡ (if leb (i + 1) x && ltb x (i + 1 + r) then block (x - 1) else hb x)
unfolding write_blocks
write_blocks_lem block zero i hb x = ground arith
write_blocks_lem block (suc r) i hb x =
    ground (arith, write_blocks_lem block r (i + 1) (update hb (i + 1) (block i)) x)

-- Block `x` is not in the area that holds the log.
abbrev pub IsHome : Log → ℕ → Type 0
IsHome l x = (x < l.start) ⊎ (l.start + l.size ≤ x)

module _ (l : Log) where
  -- The blocks of the transaction lie outside the log, and fit into it.
  pub record Fits (n : ℕ) : Type 0 where
    pub room : n < l.size
    pub home : (i : ℕ) → i < n → IsHome l (l.block i)

  pub budget-log_from : (r t : ℕ) (s : Store) → (log_from l r t s).budget ≡ s.budget - r
  unfolding log_from bwrite
  budget-log_from zero t s = omega arith
  budget-log_from (suc r) t s =
      let s' = bwrite s (l.start + t + 1) (bread s (l.block t)) in
      ground (arith, budget-log_from r (t + 1) s')

  pub view-log_from :
      (r t : ℕ) (s : Store) (x : ℕ)
      → Fits (t + r)
      → (log_from l r t s).view x ≡ (
          if ltb (l.start + t) x && leb x (l.start + t + r)
          then s.view (l.block (x - l.start - 1))
          else s.view x)
  unfolding log_from bwrite bread
  view-log_from zero t s x h = ground arith
  view-log_from (suc r) t s x h =
      let s' = bwrite s (l.start + t + 1) (bread s (l.block t)) in
      ground (
        arith,
        view-log_from r (t + 1) s' x
            (record { room = omega (arith, h.room); home = λ i k. h.home i (omega arith) }),
        h.home (x - l.start - 1),
      )

  pub disk-log_from :
      (r t : ℕ) (s : Store) (x : ℕ)
      → Fits (t + r)
      → (log_from l r t s).disk x ≡ (
          if ltb (l.start + t) x && (leb x (l.start + t + r) && leb x (l.start + t + s.budget))
          then s.view (l.block (x - l.start - 1))
          else s.disk x)
  unfolding log_from bwrite bread
  disk-log_from zero t s x h = ground arith
  disk-log_from (suc r) t s x h =
      let s' = bwrite s (l.start + t + 1) (bread s (l.block t)) in
      ground (
        arith,
        disk-log_from r (t + 1) s' x
            (record { room = omega (arith, h.room); home = λ i k. h.home i (omega arith) }),
        h.home (x - l.start - 1),
      )
