-- ===== src/Fs/Tests.antt =====
-- The file system on the sample disk and file.
use os_lab_course_project.Prelude.{
  IsIn, ◌≢◌, suc, ◌||◌, ℕ, ◌≤◌, ◌<◌, ◌≡◌, ◌⊎◌, refl, false, ltb, if◌then◌else◌, Option, some,
  Result, ok, panic, arith,
}
use os_lab_course_project.Fs.Blocks.{Fs}
use os_lab_course_project.Fs.Bits.{is_clear}
use os_lab_course_project.Fs.Bitmap.{bblock, balloc, balloc_from, scan_map}
use os_lab_course_project.Fs.Bitmap.Scan.{is_free, IsFull}
use os_lab_course_project.Fs.Bitmap.Alloc.{Allocated, balloc_lem}
use os_lab_course_project.Fs.Inode.{Inode, maxfile, bmap, slot}
use os_lab_course_project.Fs.Inode.Owned.{}
use os_lab_course_project.Fs.Inode.Map.{MapResult, bmap_lem}
use os_lab_course_project.Fs.Content.{Buffer, readi, writei, write_from, grow_size}
use os_lab_course_project.Fs.Content.Update.{}
use os_lab_course_project.Fs.Content.Read.{readi-writei}
use os_lab_course_project.Fs.Sample.{
  three-IsUsed, super, disk, file, no_devices, fives, disk-IsSane, file-IsFile, file-IsStored,
}
use os_lab_course_project.Fs.Dinode.{place, put_dinode}
use os_lab_course_project.Fs.Inode.Owned.{owned}
use os_lab_course_project.Fs.Inode.{ndirect}
use os_lab_course_project.Fs.Truncate.{itrunc}
use os_lab_course_project.Fs.Truncate.Freed.{owns_below, IsMapBlock}
use os_lab_course_project.Fs.Truncate.Whole.{itrunc_lem}

balloc_lem_example :
    ((a : ℕ) × (s' : Fs) × (balloc super disk ≡ ok (a, s'))
      × Allocated super disk a s'
      × ((j : ℕ) → j < a → is_free super disk j ≡ false))
    ⊎ ((balloc super disk ≡ panic "balloc: out of blocks") × IsFull super disk)
balloc_lem_example = balloc_lem super disk disk-IsSane

bmap_lem_example :
    ((20 < maxfile) × MapResult super disk file 20 (bmap super file 20 disk))
    ⊎ ((maxfile ≤ 20) × (bmap super file 20 disk ≡ panic "bmap: out of range"))
bmap_lem_example = bmap_lem super disk file 20 (omega arith) disk-IsSane file-IsFile

-- What the write of three bytes at 40 returns.
abbrev outcome : Result (Option ℕ × Inode × Fs)
outcome = writei no_devices super file fives 40 3 disk

written : Inode × Fs
written = elim outcome [ ok (r, ip, s) ↦ (ip, s) | panic m ↦ (file, disk) ]

writes : outcome ≡ ok (some 3, written.0, written.1)
unfolding written writei write_from bmap slot grow_size
writes = refl

readi-writei_example :
    (dst' : Buffer) × (readi no_devices super written.0 fives 40 3 written.1
      ≡ ok (some 3, dst', written.0, written.1))
    × ((x : ℕ) → dst' x ≡ (if ltb x 3 then 5 else 5))
readi-writei_example =
    readi-writei no_devices fives fives 40 3 file-IsStored (omega arith) (λ x. omega arith)
      (omega arith) (omega arith) writes

second_block : (elim (balloc super disk) [ ok (a, s) ↦ a | panic m ↦ 0 ]) ≡ 10
unfolding balloc balloc_from scan_map is_clear
second_block = refl

itrunc_lem_example :
    (ip' : Inode) × (s' : Fs) × (itrunc super file disk ≡ ok (ip', s'))
    × (ip'.size ≡ 0)
    × ((i : ℕ) → i ≤ ndirect → ip'.addrs i ≡ 0)
    × (s'.blocks 3 ≡ put_dinode ip' (place 1) (disk.blocks 3))
    × ((b : ℕ)
        → b < 100
        → is_free super s' b
          ≡ (owns_below (owned disk file) (suc maxfile) b || is_free super disk b))
    × ((x : ℕ) → ((b : ℕ) → b < 100 → bblock super b ≢ x) → x ≢ 3 → s'.blocks x ≡ disk.blocks x)
    × ((x : ℕ) → IsIn x s'.logged → (x ≡ 3) ⊎ IsMapBlock super x ⊎ IsIn x disk.logged)
itrunc_lem_example = itrunc_lem super disk file disk-IsSane file-IsFile three-IsUsed
