-- ===== src/Fs/Truncate/Whole.antt =====
-- `itrunc` as a whole.
use os_lab_course_project.Prelude.{
  ℕ, suc, ◌%◌, ◌≤◌, ◌<◌, ◌≡◌, ◌≢◌, ◌∙◌, ◌⊎◌, inl, inr, sym, IsIn, refl, ap, ◌||◌, ok, arith,
}
use mathlib.Core.Path.{subst}
use native.Mathlib.Decide.{}
use os_lab_course_project.Fs.Blocks.{Block, Fs, log_data}
use os_lab_course_project.Fs.Bitmap.{Super, bpb, bblock, bit_free}
use os_lab_course_project.Fs.Bitmap.Scan.{is_free, IsSane}
use os_lab_course_project.Fs.Inode.{Inode, ndirect, maxfile}
use os_lab_course_project.Fs.Inode.Owned.{owned, IsUsed, IsFile}
use os_lab_course_project.Fs.Dinode.{iblock, place, put_dinode, iupdate}
use os_lab_course_project.Fs.Dinode.Layout.{iupdate_here, iupdate_other}
use os_lab_course_project.Fs.Truncate.{free_direct, free_indirect, itrunc}
use os_lab_course_project.Fs.Truncate.Freed.{owns_below, Freed, IsMapBlock}
use os_lab_course_project.Fs.Truncate.Loops.{Freed-none, free_direct_lem, free_indirect_lem}

-- The bits and the data after the inode is written.
module _ {sb : Super} {s s2 : Fs} {ip : Inode} (ip3 : Inode) (u : IsUsed sb s (iblock sb ip.inum))
    (inum : ip3.inum ≡ ip.inum) (d : Freed sb s ip (suc maxfile) s2) where
  apart : (x : ℕ) → x ≢ iblock sb ip.inum → (iupdate sb ip3 s2).blocks x ≡ s2.blocks x
  apart x ne = iupdate_other sb ip3 s2 x (λ e. ne (e ∙ ap (iblock sb) inum))

  bits_after :
      (b : ℕ)
      → b < sb.size
      → is_free sb (iupdate sb ip3 s2) b
        ≡ (owns_below (owned s ip) (suc maxfile) b || is_free sb s b)
  bits_after b h =
      ap (λ (k : Block). bit_free k (b % bpb)) (apart (bblock sb b) (u.off_map b h)) ∙ d.bits b h

  inode_after :
      (iupdate sb ip3 s2).blocks (iblock sb ip.inum)
      ≡ put_dinode ip3 (place ip.inum) (s.blocks (iblock sb ip.inum))
  inode_after =
      subst
        (λ (i : ℕ).
          (iupdate sb ip3 s2).blocks (iblock sb i)
          ≡ put_dinode ip3 (place i) (s2.blocks (iblock sb i)))
        inum (iupdate_here sb ip3 s2)
      ∙ ap (put_dinode ip3 (place ip.inum)) (d.data_kept (iblock sb ip.inum) u.off_map)

itrunc-run :
    (sb : Super) (ip ip1 ip2 : Inode) (s s1 s2 : Fs)
    → free_direct sb ndirect 0 ip s ≡ ok (ip1, s1)
    → free_indirect sb ip1 s1 ≡ ok (ip2, s2)
    → itrunc sb ip s ≡ ok (record ip2 { size = 0 }, iupdate sb (record ip2 { size = 0 }) s2)
unfolding itrunc
itrunc-run sb ip ip1 ip2 s s1 s2 run1 run2 = rw (run1, run2)

-- The blocks that it passes to `log_write`.
calls_after :
    {sb : Super} {s s2 : Fs} {ip : Inode} (ip3 : Inode)
    → ip3.inum ≡ ip.inum
    → Freed sb s ip (suc maxfile) s2
    → (x : ℕ) → IsIn x (iupdate sb ip3 s2).logged
    → (x ≡ iblock sb ip.inum) ⊎ IsMapBlock sb x ⊎ IsIn x s.logged
unfolding iupdate log_data
calls_after {sb} ip3 e d x (inl q) = inl (sym q ∙ ap (iblock sb) e)
calls_after ip3 e d x (inr n) = elim (d.calls x n) [
  | inl before ↦ inr (inr before)
  | inr mapped ↦ inr (inl mapped)
]

-- `itrunc` of a file on a sane disk, whose inode's block is in use: it has no panic of its own (those
-- of `log_write` aside), and every block that it passes to `log_write` is a block of the map or the
-- inode's; afterwards the inode has size 0 and no block, and this is in the inode's block; exactly the
-- blocks that the file had became free in the map, and outside the map and the block of the inode no
-- data changed.
pub itrunc_lem :
    (sb : Super) (s : Fs) (ip : Inode)
    → IsSane sb s
    → IsFile sb s ip
    → IsUsed sb s (iblock sb ip.inum)
    → (ip' : Inode) × (s' : Fs) × (itrunc sb ip s ≡ ok (ip', s'))
      × (ip'.size ≡ 0)
      × ((i : ℕ) → i ≤ ndirect → ip'.addrs i ≡ 0)
      × (s'.blocks (iblock sb ip.inum)
          ≡ put_dinode ip' (place ip.inum) (s.blocks (iblock sb ip.inum)))
      × ((b : ℕ)
          → b < sb.size
          → is_free sb s' b ≡ (owns_below (owned s ip) (suc maxfile) b || is_free sb s b))
      × ((x : ℕ)
          → ((b : ℕ) → b < sb.size → bblock sb b ≢ x)
          → x ≢ iblock sb ip.inum
          → s'.blocks x ≡ s.blocks x)
      × ((x : ℕ) → IsIn x s'.logged → (x ≡ iblock sb ip.inum) ⊎ IsMapBlock sb x ⊎ IsIn x s.logged)
itrunc_lem sb s ip v f u =
    let (ip1, s1, run1, c1, d1) =
      free_direct_lem f ndirect 0 ip s (omega arith)
        (record { zeros = λ j h. absurd (omega arith); others = λ j h. refl; inum = refl })
        (Freed-none sb s ip v) in
    let (ip2, s2, run2, c2, d2) = free_indirect_lem f ip1 s1 c1 d1 in
    let ip3 : Inode = record ip2 { size = 0 } in
    (
      ip3,
      iupdate sb ip3 s2,
      itrunc-run sb ip ip1 ip2 s s1 s2 run1 run2,
      refl,
      λ i h. c2.zeros i (omega arith),
      inode_after ip3 u c2.inum d2,
      bits_after ip3 u c2.inum d2,
      λ x off ne. apart ip3 u c2.inum d2 x ne ∙ d2.data_kept x off,
      calls_after ip3 c2.inum d2,
    )
