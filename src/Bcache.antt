-- ===== src/Bcache.antt =====
-- xv6/bio.c: the buffer cache, a list of buffers with the most recently used first.
-- `bcache.lock` makes each function one step; the sleep lock of a buffer is in `Sleeplock`.
pub mod Find
pub mod Unique
mod Tests
use os_lab_course_project.Prelude.{
  ℕ, zero, suc, ◌+◌, Bool, true, false, not, ◌&&◌, ◌||◌, ◌==◌, if◌then◌else◌, Option, none, some,
  List, [], ◌∷◌, Result, ok, panic, ◌>>=◌, add32, sub32,
}

-- `struct buf`, less its lock, its data and the links: `slot` is its place in `bcache.buf`, and the
-- flags are B_VALID and B_DIRTY.
pub record Buf : Type 0 where
  pub slot : ℕ
  pub dev : ℕ
  pub blockno : ℕ
  pub refcnt : ℕ
  pub valid : Bool
  pub dirty : Bool

abbrev pub nbuf : ℕ
nbuf = 30

abbrev pub is_block : ℕ → ℕ → Buf → Bool
is_block dev blockno b = b.dev == dev && b.blockno == blockno

-- `b->refcnt == 0 && (b->flags & B_DIRTY) == 0`
abbrev pub is_idle : Buf → Bool
is_idle b = b.refcnt == 0 && not b.dirty

abbrev pub recycled : ℕ → ℕ → Buf → Buf
recycled dev blockno b = record b {
  dev = dev;
  blockno = blockno;
  valid = false;
  dirty = false;
  refcnt = 1;
}

-- `binit`: each buffer goes to the front, and static memory is zero.
unfoldable pub binit_from : ℕ → ℕ → List Buf → List Buf
binit_from zero i l = l
binit_from (suc r) i l =
    let b : Buf = record {
      slot = i;
      dev = 0;
      blockno = 0;
      refcnt = 0;
      valid = false;
      dirty = false;
    } in
    binit_from r (i + 1) (b ∷ l)

unfoldable pub binit : List Buf
binit = binit_from nbuf 0 []

-- The first loop of `bget`, from the front: the buffer of the block, with one more reference.
unfoldable pub find_block : ℕ → ℕ → List Buf → Option (ℕ × List Buf)
find_block dev blockno [] = none
find_block dev blockno (b ∷ bs) =
    let rest = find_block dev blockno bs in
    if is_block dev blockno b
    then some (b.slot, record b { refcnt = add32 b.refcnt 1 } ∷ bs)
    else elim rest [ none ↦ none | some (i, bs') ↦ some (i, b ∷ bs') ]

-- The second loop, from the back: the idle buffer that was used longest ago.
unfoldable pub recycle : ℕ → ℕ → List Buf → Option (ℕ × List Buf)
recycle dev blockno [] = none
recycle dev blockno (b ∷ bs) = elim (recycle dev blockno bs) [
  | some (i, bs') ↦ some (i, b ∷ bs')
  | none ↦ if is_idle b then some (b.slot, recycled dev blockno b ∷ bs) else none
]

-- `bget` up to the `acquiresleep` of the buffer that it returns.
unfoldable pub bget : ℕ → ℕ → List Buf → Result (ℕ × List Buf)
unfolding find_block recycle
bget dev blockno l = elim (find_block dev blockno l) [
  | some r ↦ ok r
  | none ↦ elim (recycle dev blockno l) [ some r ↦ ok r | none ↦ panic "bget: no buffers" ]
]

-- The buffer of a slot and the others.
unfoldable pub take_out : ℕ → List Buf → Option (Buf × List Buf)
take_out i [] = none
take_out i (b ∷ bs) =
    let rest = take_out i bs in
    if b.slot == i
    then some (b, bs)
    else elim rest [ none ↦ none | some (c, bs') ↦ some (c, b ∷ bs') ]

unfoldable pub drop_ref : ℕ → List Buf → List Buf
drop_ref i [] = []
drop_ref i (b ∷ bs) =
    if b.slot == i then record b { refcnt = sub32 b.refcnt 1 } ∷ bs else b ∷ drop_ref i bs

-- `brelse` of the buffer in slot `i`; `holding` is what `holdingsleep` says.
unfoldable pub brelse : Bool → ℕ → List Buf → Result (List Buf)
unfolding take_out drop_ref
brelse holding i l = if not holding then panic "brelse" else elim (take_out i (drop_ref i l)) [
  | none ↦ ok (drop_ref i l)
  | some (b, others) ↦ if b.refcnt == 0 then ok (b ∷ others) else ok (drop_ref i l)
]

-- The disk driver and the log set the flags of a buffer that is held: `bread` ends with B_VALID set,
-- `bwrite` with B_DIRTY clear, and `log_write` sets B_DIRTY.
unfoldable pub set_flags : Bool → Bool → ℕ → List Buf → List Buf
set_flags valid dirty i [] = []
set_flags valid dirty i (b ∷ bs) =
    if b.slot == i
    then record b { valid = valid; dirty = dirty } ∷ bs
    else b ∷ set_flags valid dirty i bs
