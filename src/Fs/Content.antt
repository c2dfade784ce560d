-- ===== src/Fs/Content.antt =====
-- `readi` and `writei` of xv6/fs.c.
pub mod Update
pub mod Data
pub mod Round
pub mod Write
pub mod Stored
pub mod Calls
pub mod Grown
pub mod Writei
pub mod Read
use Prim.Native.Nat.{min}
use os_lab_course_project.Prelude.{
  ℕ, zero, suc, ◌+◌, ◌-◌, ◌*◌, ◌/◌, ◌%◌, ◌^◌, ◌==◌, Bool, true, false, ◌&&◌, ◌||◌, ltb, leb,
  if◌then◌else◌, Option, none, some, Result, ok, panic, ◌>>=◌, add32,
}
use os_lab_course_project.Fs.Blocks.{Block, Fs, bsize, log_data}
use os_lab_course_project.Fs.Bitmap.{Super}
use os_lab_course_project.Fs.Inode.{Inode, maxfile, bmap}
use os_lab_course_project.Fs.Dinode.{iupdate}

-- The caller's buffer, by the distance from the pointer.
abbrev pub Buffer : Type 0
Buffer = ℕ → ℕ

-- `memmove` of `m` bytes from `from` in `src` to `at` in `dst`, which are different objects.
abbrev pub blit : Buffer → ℕ → Buffer → ℕ → ℕ → Buffer
blit dst at src from m x = if leb at x && ltb x (at + m) then src (from + (x - at)) else dst x

abbrev pub t_dev : ℕ
t_dev = 3

abbrev pub ndev : ℕ
ndev = 10

-- A function of `devsw`, which is filled by other files: what it returns, -1 being `none`, and the
-- buffer afterwards.
abbrev pub Device : Type 0
Device = ℕ → Buffer → Option ℕ × Buffer

-- `ip->major < 0 || ip->major >= NDEV || !devsw[ip->major].read`; the short is a pattern of 16 bits.
abbrev pub device : (ℕ → Option Device) → ℕ → Option Device
device devsw major = if leb (2 ^ 15) major || leb ndev major then none else devsw major

-- `min(n - tot, BSIZE - off%BSIZE)`
abbrev pub piece : ℕ → ℕ → ℕ
piece left off = min left (bsize - off % bsize)

-- The loop of `readi`; a round takes at least one byte, so that `n` rounds are enough.
unfoldable pub read_from :
    Super → ℕ → ℕ → ℕ → ℕ → Buffer → Inode → Fs → Result (Buffer × Inode × Fs)
read_from sb zero tot off n dst ip s = ok (dst, ip, s)
read_from sb (suc fuel) tot off n dst ip s = elim (ltb tot n) [
  | false ↦ ok (dst, ip, s)
  | true ↦ bmap sb ip (off / bsize) s >>= λ (a, ip', s').
      let m = piece (n - tot) off in
      read_from sb fuel (tot + m) (add32 off m) n (blit dst tot (s'.blocks a) (off % bsize) m) ip'
        s'
]

-- `readi`; the value is `none` for -1.
unfoldable pub readi :
    (ℕ → Option Device)
    → Super
    → Inode
    → Buffer
    → ℕ
    → ℕ
    → Fs
    → Result (Option ℕ × Buffer × Inode × Fs)
readi devsw sb ip dst off n s =
    if ip.type == t_dev
    then elim (device devsw ip.major) [
      | none ↦ ok (none, dst, ip, s)
      | some read ↦ let (r, dst') = read n dst in ok (r, dst', ip, s)
    ]
    else if ltb ip.size off || ltb (add32 off n) off
    then ok (none, dst, ip, s)
    else (let n' = if ltb ip.size (add32 off n) then ip.size - off else n in
        read_from sb n' 0 off n' dst ip s >>= λ (dst', ip', s'). ok (some n', dst', ip', s'))

-- The loop of `writei`, with the offset at which it ends.
unfoldable pub write_from : Super → ℕ → ℕ → ℕ → ℕ → Buffer → Inode → Fs → Result (ℕ × Inode × Fs)
write_from sb zero tot off n src ip s = ok (off, ip, s)
write_from sb (suc fuel) tot off n src ip s = elim (ltb tot n) [
  | false ↦ ok (off, ip, s)
  | true ↦ bmap sb ip (off / bsize) s >>= λ (a, ip', s').
      let m = piece (n - tot) off in
      write_from sb fuel (tot + m) (add32 off m) n src ip'
        (log_data a (blit (s'.blocks a) (off % bsize) src tot m) s')
]

-- The end of `writei`: the new size goes to the disk.
unfoldable pub grow_size : Super → ℕ → ℕ → Inode → Fs → Inode × Fs
grow_size sb off n ip s =
    let ip' = record ip { size = off } in
    if ltb 0 n && ltb ip.size off then (ip', iupdate sb ip' s) else (ip, s)

unfoldable pub writei :
    (ℕ → Option Device) → Super → Inode → Buffer → ℕ → ℕ → Fs → Result (Option ℕ × Inode × Fs)
unfolding grow_size
writei devsw sb ip src off n s =
    if ip.type == t_dev
    then elim (device devsw ip.major) [
      | none ↦ ok (none, ip, s)
      | some write ↦ let (r, _) = write n src in ok (r, ip, s)
    ]
    else if ltb ip.size off || ltb (add32 off n) off
    then ok (none, ip, s)
    else if ltb (maxfile * bsize) (add32 off n)
    then ok (none, ip, s)
    else (write_from sb n 0 off n src ip s >>= λ (off', ip', s').
        let (ip'', s'') = grow_size sb off' n ip' s' in ok (some n, ip'', s''))
