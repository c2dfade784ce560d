-- ===== src/File/Inode.antt =====
-- `fileread` and `filewrite` of a file that is an inode: what they do between their locks, and the offset.
pub mod Chunks
use os_lab_course_project.Prelude.{
  ℕ, zero, suc, ◌+◌, ◌*◌, Bool, true, false, not, ◌==◌, if◌then◌else◌, Option, none, some, Result,
  ok, panic, ◌>>=◌, add32, sub32, slt32,
}
use os_lab_course_project.Fs.Blocks.{Fs}
use os_lab_course_project.Fs.Bitmap.{Super}
use os_lab_course_project.Fs.Inode.{Inode}
use os_lab_course_project.Fs.Content.{Buffer, Device, readi, writei}

-- The offset of the file and the file system.
pub record Open : Type 0 where
  pub off : ℕ
  pub ip : Inode
  pub fs : Fs

-- `((MAXOPBLOCKS-1-1-2) / 2) * 512`
abbrev pub max_chunk : ℕ
max_chunk = 3 * 512

-- `if((r = readi(f->ip, addr, f->off, n)) > 0) f->off += r;`; -1 is `none`.
abbrev advance : ℕ → Option ℕ → ℕ
advance off none = off
advance off (some r) = if slt32 0 r then add32 off r else off

unfoldable pub fileread :
    (ℕ → Option Device) → Super → Buffer → ℕ → Open → Result (Option ℕ × Buffer × Open)
fileread devsw sb addr n f = readi devsw sb f.ip addr f.off n f.fs >>= λ (r, addr', ip', fs').
    ok (r, addr', record { off = advance f.off r; ip = ip'; fs = fs' })

-- The loop of `filewrite` at `i`, which it returns; the panic is the source's. A negative `r` is `none`.
unfoldable pub write_chunks :
    (ℕ → Option Device) → Super → Buffer → ℕ → ℕ → ℕ → Open → Result (ℕ × Open)
write_chunks devsw sb addr n zero i f = ok (i, f)
write_chunks devsw sb addr n (suc fuel) i f = elim (slt32 i n) [
  | false ↦ ok (i, f)
  | true ↦
      let n1 = if slt32 max_chunk (sub32 n i) then max_chunk else sub32 n i in
      writei devsw sb f.ip (λ x. addr (i + x)) f.off n1 f.fs >>= λ (r, ip', fs').
      let f' : Open = record { off = advance f.off r; ip = ip'; fs = fs' } in
      elim r [
        | none ↦ ok (i, f')
        | some r' ↦
            if slt32 r' 0
            then ok (i, f')
            else if not (r' == n1)
            then panic "short filewrite"
            else write_chunks devsw sb addr n fuel (add32 i r') f'
      ]
]

-- Each round but the last writes a byte at least, so `n + 1` rounds are enough. The `begin_op`, `ilock`,
-- `iunlock` and `end_op` of each chunk are not here, and so nothing that other processes do to the
-- file between two chunks.
unfoldable pub filewrite :
    (ℕ → Option Device) → Super → Buffer → ℕ → Open → Result (Option ℕ × Open)
unfolding write_chunks
filewrite devsw sb addr n f =
    write_chunks devsw sb addr n (n + 1) 0 f >>= λ (i, f'). ok (if i == n then some n else none, f')
