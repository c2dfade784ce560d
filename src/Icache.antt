-- ===== src/Icache.antt =====
-- The cache of inodes in xv6/fs.c: `iget`, `idup` and the reference that `iput` drops. `icache.lock` makes
-- each one step.
pub mod Lookup
pub mod References
mod Tests
use os_lab_course_project.Prelude.{
  ℕ, zero, suc, ◌+◌, Bool, true, false, ◌&&◌, ◌==◌, if◌then◌else◌, Option, none, some, Result, ok,
  panic, update, add32, sub32, slt32,
}

-- `struct inode`, less its lock and the copy of the inode on the disk.
pub record Entry : Type 0 where
  pub dev : ℕ
  pub inum : ℕ
  pub ref : ℕ
  pub valid : Bool

abbrev pub ninode : ℕ
ninode = 50

abbrev pub Cache : Type 0
Cache = ℕ → Entry

-- How the loop of `iget` ends: at the entry of the inode, or with the empty slot that it remembers.
pub data Found : Type 0 where
  cached : ℕ → Found
  missing : Option ℕ → Found

-- `ip->ref > 0 && ip->dev == dev && ip->inum == inum`
abbrev pub is_entry : ℕ → ℕ → Entry → Bool
is_entry dev inum e = slt32 0 e.ref && e.dev == dev && e.inum == inum

-- `if(empty == 0 && ip->ref == 0) empty = ip;`
abbrev pub remember : Option ℕ → ℕ → Entry → Option ℕ
remember (some k) i e = some k
remember none i e = if e.ref == 0 then some i else none

-- The loop from slot `i`, with `r` slots left.
unfoldable pub look_up : ℕ → ℕ → Cache → ℕ → ℕ → Option ℕ → Found
look_up dev inum t zero i empty = missing empty
look_up dev inum t (suc r) i empty =
    let rest = look_up dev inum t r (i + 1) (remember empty i (t i)) in
    if is_entry dev inum (t i) then cached i else rest

abbrev pub take_slot : ℕ → ℕ → Cache → Found → Result (ℕ × Cache)
take_slot dev inum t (cached i) = ok (i, update t i (record (t i) { ref = add32 (t i).ref 1 }))
take_slot dev inum t (missing none) = panic "iget: no inodes"
take_slot dev inum t (missing (some i)) =
    ok (i, update t i (record { dev = dev; inum = inum; ref = 1; valid = false }))

unfoldable pub iget : ℕ → ℕ → Cache → Result (ℕ × Cache)
iget dev inum t = take_slot dev inum t (look_up dev inum t ninode 0 none)

unfoldable pub idup : ℕ → Cache → Cache
idup i t = update t i (record (t i) { ref = add32 (t i).ref 1 })

-- The end of `iput`: `ip->ref--;`
unfoldable pub drop_inode : ℕ → Cache → Cache
drop_inode i t = update t i (record (t i) { ref = sub32 (t i).ref 1 })
