-- ===== src/Fs/Dinode/Layout.antt =====
-- The bytes of a dinode: what is written is read back, and the other inodes of the block stay.
use os_lab_course_project.Prelude.{
  ℕ, zero, suc, ◌+◌, ◌*◌, ◌≤◌, ◌<◌, ◌≡◌, ◌≢◌, ◌⊎◌, ◌∙◌, ◌==◌, ==_ne, true, false, refl, arith,
}
use native.Mathlib.Decide.{}
use os_lab_course_project.Fs.Blocks.{
  Block, Fs, log_data, put16, put32, put16_other, put32_other, put16_bytes, put32_bytes,
}
use os_lab_course_project.Fs.Inode.{Inode}
use os_lab_course_project.Fs.Dinode.{iblock, place, put_addrs, put_dinode, iupdate}
use os_lab_course_project.Fs.Bitmap.{Super}

put_addrs_bytes :
    (addrs : ℕ → ℕ) (o r i : ℕ) (d : Block)
    → ((x : ℕ) → d x < 256)
    → (x : ℕ) → put_addrs addrs o r i d x < 256
unfolding put_addrs
put_addrs_bytes addrs o zero i d h x = h x
put_addrs_bytes addrs o (suc r) i d h x =
    put_addrs_bytes addrs o r (i + 1) (put32 d (o + 12 + 4 * i) (addrs i))
      (put32_bytes d (o + 12 + 4 * i) (addrs i) h) x

pub put_dinode_bytes :
    (ip : Inode) (o : ℕ) (d : Block) → ((x : ℕ) → d x < 256) → (x : ℕ) → put_dinode ip o d x < 256
unfolding put_dinode
put_dinode_bytes ip o d h =
    let d1 = put16 d o ip.type in
    let d2 = put16 d1 (o + 2) ip.major in
    let d3 = put16 d2 (o + 4) ip.minor in
    let d4 = put16 d3 (o + 6) ip.nlink in
    put_addrs_bytes ip.addrs o 13 0 (put32 d4 (o + 8) ip.size) (
      put32_bytes d4 (o + 8) ip.size (
        put16_bytes d3 (o + 6) ip.nlink (
          put16_bytes d2 (o + 4) ip.minor
            (put16_bytes d1 (o + 2) ip.major (put16_bytes d o ip.type h)))))

-- The addresses from `i` on leave the bytes before and behind them alone.
put_addrs_other :
    (addrs : ℕ → ℕ) (o r i : ℕ) (d : Block) (x : ℕ)
    → (x < o + 12 + 4 * i) ⊎ (o + 12 + 4 * (i + r) ≤ x)
    → put_addrs addrs o r i d x ≡ d x
unfolding put_addrs
put_addrs_other addrs o zero i d x h = refl
put_addrs_other addrs o (suc r) i d x h =
    put_addrs_other addrs o r (i + 1) (put32 d (o + 12 + 4 * i) (addrs i)) x (omega arith)
    ∙ put32_other d (o + 12 + 4 * i) (addrs i) x (omega arith)

-- A dinode leaves the bytes before and behind it alone.
pub put_dinode_other :
    (ip : Inode) (o : ℕ) (d : Block) (x : ℕ) → (x < o) ⊎ (o + 64 ≤ x) → put_dinode ip o d x ≡ d x
unfolding put_dinode
put_dinode_other ip o d x h =
    let d1 = put16 d o ip.type in
    let d2 = put16 d1 (o + 2) ip.major in
    let d3 = put16 d2 (o + 4) ip.minor in
    let d4 = put16 d3 (o + 6) ip.nlink in
    put_addrs_other ip.addrs o 13 0 (put32 d4 (o + 8) ip.size) x (omega arith)
    ∙ put32_other d4 (o + 8) ip.size x (omega arith)
    ∙ put16_other d3 (o + 6) ip.nlink x (omega arith)
    ∙ put16_other d2 (o + 4) ip.minor x (omega arith)
    ∙ put16_other d1 (o + 2) ip.major x (omega arith)
    ∙ put16_other d o ip.type x (omega arith)

-- What `iupdate` makes of the blocks.
pub iupdate_other :
    (sb : Super) (ip : Inode) (s : Fs) (x : ℕ)
    → x ≢ iblock sb ip.inum
    → (iupdate sb ip s).blocks x ≡ s.blocks x
unfolding iupdate log_data
iupdate_other sb ip s x ne =
    let test : (x == iblock sb ip.inum) ≡ false = ==_ne x (iblock sb ip.inum) ne in rw test

pub iupdate_here :
    (sb : Super) (ip : Inode) (s : Fs)
    → (iupdate sb ip s).blocks (iblock sb ip.inum)
      ≡ put_dinode ip (place ip.inum) (s.blocks (iblock sb ip.inum))
unfolding iupdate log_data
iupdate_here sb ip s =
    let x = iblock sb ip.inum in let test : (x == x) ≡ true = ground arith in rw test
