-- ===== src/Fs/Inode.antt =====
-- The blocks of an inode: `bmap` of xv6/fs.c.
pub mod Owned
pub mod Grow
pub mod Extend
pub mod Slot
pub mod Map
use os_lab_course_project.Prelude.{
  ℕ, zero, suc, ◌+◌, ◌-◌, ◌*◌, ◌==◌, ltb, if◌then◌else◌, update, Result, ok, panic, ◌>>=◌,
}
use os_lab_course_project.Fs.Blocks.{Fs, log_data, get32, put32}
use os_lab_course_project.Fs.Bitmap.{Super, balloc, bfree}

abbrev pub ndirect : ℕ
ndirect = 12

abbrev pub nindirect : ℕ
nindirect = 128

abbrev pub maxfile : ℕ
maxfile = 140

-- `struct inode`, less its device, lock, count and `valid`.
pub record Inode : Type 0 where
  pub inum : ℕ
  pub type : ℕ
  pub major : ℕ
  pub minor : ℕ
  pub nlink : ℕ
  pub size : ℕ
  pub addrs : ℕ → ℕ

-- `if((addr = ip->addrs[i]) == 0) ip->addrs[i] = addr = balloc(ip->dev);`
unfoldable pub slot : Super → Inode → ℕ → Fs → Result (ℕ × Inode × Fs)
slot sb ip i s =
    if ip.addrs i == 0
    then (balloc sb s >>= λ (a, s'). ok (a, record ip { addrs = update ip.addrs i a }, s'))
    else ok (ip.addrs i, ip, s)

-- Entry `bn` of the indirect block `addr`.
unfoldable pub entry : Super → ℕ → ℕ → Fs → Result (ℕ × Fs)
entry sb addr bn s =
    let a = get32 (s.blocks addr) (4 * bn) in
    if a == 0
    then (balloc sb s >>= λ (b, s'). ok (b, log_data addr (put32 (s'.blocks addr) (4 * bn) b) s'))
    else ok (a, s)

unfoldable pub bmap : Super → Inode → ℕ → Fs → Result (ℕ × Inode × Fs)
bmap sb ip bn s =
    if ltb bn ndirect
    then slot sb ip bn s
    else if ltb (bn - ndirect) nindirect
    then (slot sb ip ndirect s >>= λ (addr, ip', s').
        entry sb addr (bn - ndirect) s' >>= λ (a, s''). ok (a, ip', s''))
    else panic "bmap: out of range"
