-- ===== src/Fs/Dinode.antt =====
-- Inodes on the disk: `struct dinode`, `iupdate`, and how `ilock` reads one.
pub mod Layout
use os_lab_course_project.Prelude.{ℕ, zero, suc, ◌+◌, ◌*◌, ◌/◌, ◌%◌, update}
use os_lab_course_project.Fs.Blocks.{Block, Fs, log_data, get16, get32, put16, put32}
use os_lab_course_project.Fs.Bitmap.{Super}
use os_lab_course_project.Fs.Inode.{Inode}

-- Inodes in a block.
abbrev pub ipb : ℕ
ipb = 8

abbrev pub iblock : Super → ℕ → ℕ
iblock sb i = i / ipb + sb.inodestart

-- Where the inode stands in its block: a dinode has 64 bytes.
abbrev pub place : ℕ → ℕ
place inum = 64 * (inum % ipb)

-- `memmove(dip->addrs, ip->addrs, sizeof(ip->addrs))`, `r` words from `i`.
unfoldable pub put_addrs : (ℕ → ℕ) → ℕ → ℕ → ℕ → Block → Block
put_addrs addrs o zero i d = d
put_addrs addrs o (suc r) i d = put_addrs addrs o r (i + 1) (put32 d (o + 12 + 4 * i) (addrs i))

-- The fields of `ip` in the block, at `o`.
unfoldable pub put_dinode : Inode → ℕ → Block → Block
unfolding put_addrs
put_dinode ip o d = put_addrs ip.addrs o 13 0 (
    put32
      (put16 (put16 (put16 (put16 d o ip.type) (o + 2) ip.major) (o + 4) ip.minor) (o + 6) ip.nlink)
      (o + 8) ip.size)

-- What `ilock` reads into a cache entry for inode `inum`.
unfoldable pub get_dinode : ℕ → ℕ → Block → Inode
get_dinode inum o d = record {
  inum = inum;
  type = get16 d o;
  major = get16 d (o + 2);
  minor = get16 d (o + 4);
  nlink = get16 d (o + 6);
  size = get32 d (o + 8);
  addrs = λ i. get32 d (o + 12 + 4 * i);
}

unfoldable pub iupdate : Super → Inode → Fs → Fs
unfolding put_dinode
iupdate sb ip s =
    let b = iblock sb ip.inum in log_data b (put_dinode ip (place ip.inum) (s.blocks b)) s
