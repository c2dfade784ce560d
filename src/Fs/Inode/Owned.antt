-- ===== src/Fs/Inode/Owned.antt =====
-- The blocks that an inode owns.
use os_lab_course_project.Prelude.{ℕ, ◌-◌, ◌*◌, ◌≤◌, ◌<◌, ◌≡◌, ◌≢◌, ◌==◌, false, ltb, if◌then◌else◌}
use os_lab_course_project.Fs.Blocks.{Fs, get32}
use os_lab_course_project.Fs.Bitmap.{Super, bblock}
use os_lab_course_project.Fs.Bitmap.Scan.{is_free}
use os_lab_course_project.Fs.Inode.{Inode, ndirect, maxfile}

-- The block of index `i` of the file, or 0: for `maxfile` the indirect block.
abbrev pub owned : Fs → Inode → ℕ → ℕ
owned s ip i =
    if i == maxfile
    then ip.addrs ndirect
    else if ltb i ndirect
    then ip.addrs i
    else if ip.addrs ndirect == 0
    then 0
    else get32 (s.blocks (ip.addrs ndirect)) (4 * (i - ndirect))

-- Block `x` of the image is in use, and is neither the boot block nor a block of the free map.
pub record IsUsed (sb : Super) (s : Fs) (x : ℕ) : Type 0 where
  pub nonzero : x ≢ 0
  pub within : x < sb.size
  pub used : is_free sb s x ≡ false
  pub off_map : (b : ℕ) → b < sb.size → bblock sb b ≢ x

-- Each block of the inode is in use, and belongs to one index.
pub record IsFile (sb : Super) (s : Fs) (ip : Inode) : Type 0 where
  pub inside : (i : ℕ) → i ≤ maxfile → owned s ip i ≢ 0 → IsUsed sb s (owned s ip i)
  pub distinct :
      (i j : ℕ) → i ≤ maxfile → j ≤ maxfile → owned s ip i ≢ 0 → owned s ip i ≡ owned s ip j → i ≡ j
