-- ===== src/Log/Disk.antt =====
-- What xv6/log.c sees of xv6/bio.c and xv6/ide.c: the blocks on the disk, the contents that `bread`
-- returns, and which buffers are dirty, so that the cache may not drop them.
-- `budget` is the number of block writes left before the power fails. Past it a write changes the
-- buffer only, which is lost at the next boot: what the machine computes then never reaches the disk.
use os_lab_course_project.Prelude.{ℕ, ◌-◌, Bool, true, false, ltb, if◌then◌else◌, update}

-- BSIZE bytes, as words: `struct logheader` is laid over them as an array of int.
abbrev pub Block : Type 0
Block = ℕ → ℕ

pub record Store : Type 0 where
  pub disk : ℕ → Block
  pub view : ℕ → Block
  pub dirty : ℕ → Bool
  pub budget : ℕ

-- The data of the buffer of block `b`, from the cache or the disk.
unfoldable pub bread : Store → ℕ → Block
bread s b = s.view b

-- `bwrite` of a buffer that holds `d`: the driver clears B_DIRTY when the block is on the disk.
unfoldable pub bwrite : Store → ℕ → Block → Store
bwrite s b d = record s {
  disk = if ltb 0 s.budget then update s.disk b d else s.disk;
  view = update s.view b d;
  dirty = update s.dirty b false;
  budget = s.budget - 1;
}

-- A caller of `bread` assigns to `b->data`.
unfoldable pub modify : Store → ℕ → Block → Store
modify s b d = record s { view = update s.view b d }

-- `b->flags |= B_DIRTY`
unfoldable pub set_dirty : Store → ℕ → Store
set_dirty s b = record s { dirty = update s.dirty b true }

-- Power fails, and the machine boots with an empty cache; the next failure is `k` writes away.
unfoldable pub reboot : ℕ → Store → Store
reboot k s = record { disk = s.disk; view = s.disk; dirty = λ _. false; budget = k }
