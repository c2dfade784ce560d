-- ===== src/Log/Commit.antt =====
-- xv6/log.c: the header block, `write_log`, `install_trans`, `commit` and `recover_from_log`.
pub mod Loops
pub mod Install
pub mod Recovery
pub mod Boot
pub mod Atomic
pub mod Clean
use os_lab_course_project.Prelude.{ℕ, zero, suc, ◌+◌, ◌==◌, ltb, if◌then◌else◌, update, Bool, false}
use os_lab_course_project.Log.Disk.{Block, Store, bread, bwrite}

-- `struct log`, less its lock and device; `n` and `block` are those of `lh`. The ints are never
-- negative here (`Transaction` shows it of `outstanding`).
pub record Log : Type 0 where
  pub start : ℕ
  pub size : ℕ
  pub outstanding : ℕ
  pub committing : Bool
  pub n : ℕ
  pub block : ℕ → ℕ

-- `for (i = 0; i < n; i++) block[i] = lh->block[i];` with `r` rounds left.
pub read_blocks : Block → ℕ → ℕ → (ℕ → ℕ) → ℕ → ℕ
read_blocks buf zero i block = block
read_blocks buf (suc r) i block = read_blocks buf r (i + 1) (update block i (buf (i + 1)))

pub read_head : Log → Store → Log
read_head l s =
    let buf = bread s l.start in record l { n = buf 0; block = read_blocks buf (buf 0) 0 l.block }

-- `for (i = 0; i < log.lh.n; i++) hb->block[i] = log.lh.block[i];`
pub write_blocks : (ℕ → ℕ) → ℕ → ℕ → Block → Block
write_blocks block zero i hb = hb
write_blocks block (suc r) i hb = write_blocks block r (i + 1) (update hb (i + 1) (block i))

pub write_head : Log → Store → Store
write_head l s =
    let buf = bread s l.start in bwrite s l.start (write_blocks l.block l.n 0 (update buf 0 l.n))

-- The loop of `install_trans`, `r` rounds from `tail`.
pub install_from : Log → ℕ → ℕ → Store → Store
install_from l zero tail s = s
install_from l (suc r) tail s =
    install_from l r (tail + 1) (bwrite s (l.block tail) (bread s (l.start + tail + 1)))

pub install_trans : Log → Store → Store
install_trans l s = install_from l l.n 0 s

-- The loop of `write_log`.
pub log_from : Log → ℕ → ℕ → Store → Store
log_from l zero tail s = s
log_from l (suc r) tail s =
    log_from l r (tail + 1) (bwrite s (l.start + tail + 1) (bread s (l.block tail)))

pub write_log : Log → Store → Store
write_log l s = log_from l l.n 0 s

pub recover_from_log : Log → Store → Log × Store
recover_from_log l s =
    let l' = read_head l s in
    let cleared = record l' { n = 0 } in (cleared, write_head cleared (install_trans l' s))

pub commit : Log → Store → Log × Store
commit l s =
    let cleared = record l { n = 0 } in
    if ltb 0 l.n
    then (cleared, write_head cleared (install_trans l (write_head l (write_log l s))))
    else (l, s)

-- `struct log` as `initlog` sets it before the recovery: a static variable starts as zero.
abbrev pub blank : ℕ → ℕ → Log
blank start size = record {
  start = start;
  size = size;
  outstanding = 0;
  committing = false;
  n = 0;
  block = λ _. 0;
}

-- `initlog`, with the superblock's `logstart` and `nlog`. `struct logheader` has 31 words, so the
-- test against BSIZE does not panic.
pub initlog : ℕ → ℕ → Store → Log × Store
initlog start size s = recover_from_log (blank start size) s
