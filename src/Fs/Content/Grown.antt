-- ===== src/Fs/Content/Grown.antt =====
-- The end of `writei`: the size of the file and the block of its inode.
use Prim.Native.Nat.{}
use os_lab_course_project.Prelude.{
  ℕ, ◌+◌, ◌*◌, ◌≤◌, ◌<◌, ◌≡◌, ◌≢◌, ◌∙◌, refl, sym, ap, ◌&&◌, true, false, ltb, if◌then◌else◌, arith,
}
use mathlib.Core.Path.{subst}
use native.Mathlib.Decide.{dec_lt}
use os_lab_course_project.Fs.Blocks.{Block, Fs, bsize}
use os_lab_course_project.Fs.Bitmap.{Super}
use os_lab_course_project.Fs.Bitmap.Scan.{IsSane}
use os_lab_course_project.Fs.Inode.{Inode, maxfile}
use os_lab_course_project.Fs.Inode.Owned.{owned, IsUsed, IsFile}
use os_lab_course_project.Fs.Dinode.{iblock, place, put_dinode, iupdate}
use os_lab_course_project.Fs.Dinode.Layout.{put_dinode_bytes, iupdate_here}
use os_lab_course_project.Fs.Content.{Buffer, grow_size}
use os_lab_course_project.Fs.Content.Update.{Kept-apart}
use os_lab_course_project.Fs.Content.Data.{
  stored, stored_other, stored-IsSane, stored-IsFile, stored-IsUsed, owned-stored,
  content-stored_other,
}
use os_lab_course_project.Fs.Content.Stored.{IsPlaced, IsStored, Wrote}
use os_lab_course_project.Fs.Content.Round.{}
use os_lab_course_project.Fs.Content.Calls.{}
use os_lab_course_project.Log.Commit.{}
use os_lab_course_project.Log.Transaction.{}
use os_lab_course_project.Log.Transaction.Series.{}
use os_lab_course_project.Fs.Content.Write.{Put}

-- The write of the size.
module _ {sb : Super} {s : Fs} {ip : Inode} (v : IsSane sb s) (f : IsFile sb s ip)
    (h : IsPlaced sb s ip) (top : ℕ) where
  abbrev resized : Inode
  resized = record ip { size = top }

  abbrev inode_data : Block
  inode_data = put_dinode resized (place ip.inum) (s.blocks (iblock sb ip.inum))

  inode_data_small : (y : ℕ) → inode_data y < 256
  inode_data_small =
      put_dinode_bytes resized (place ip.inum) (s.blocks (iblock sb ip.inum))
        (v.bytes (iblock sb ip.inum))

  abbrev saved : Fs
  saved =
      stored v f (iblock sb ip.inum) h.used (h.apart maxfile (omega arith)) inode_data
        inode_data_small

  iupdate-saved : iupdate sb resized s ≡ saved
  unfolding iupdate
  iupdate-saved = refl

-- The loop has put the bytes; `grow_size` follows.
module _ {sb : Super} {s s1 : Fs} {ip ip1 : Inode} {off n : ℕ} {src : Buffer} (t : IsStored sb s ip)
    (q : Put sb s ip off n 0 src s1 ip1) (low : off ≤ ip.size)
    (high : off + n ≤ maxfile * bsize) where
  same_size : ip1.size ≡ ip.size
  same_size = ap (λ (r : Inode). r.size) q.kept.same

  same_inum : ip.inum ≡ ip1.inum
  same_inum = sym (ap (λ (r : Inode). r.inum) q.kept.same)

  put-IsPlaced : IsPlaced sb s1 ip1
  put-IsPlaced = record {
    used =
        subst (λ (j : ℕ). IsUsed sb s1 (iblock sb j)) same_inum
          (q.kept.still (iblock sb ip.inum) t.placed.used);
    apart = λ i h.
        subst (λ (j : ℕ). owned s1 ip1 i ≢ iblock sb j) same_inum
          (Kept-apart q.kept (iblock sb ip.inum) t.placed.used t.placed.apart i h);
  }

  put_old : (i : ℕ) → i * bsize < ip.size → owned s1 ip1 i ≢ 0
  put_old i h z = t.whole i h (sym (q.kept.old i (omega (arith, t.fits)) (t.whole i h)) ∙ z)

  -- No new size.
  Wrote-same :
      ip.size ≡ (if ltb ip.size (off + n) then off + n else ip.size)
      → Wrote sb s ip off n src s1 ip1
  Wrote-same e = record {
    bytes = q.bytes;
    size = same_size ∙ e;
    old = q.kept.old;
    novel = q.kept.novel;
    inum = sym same_inum;
    others = λ b u apart _. q.kept.others b u apart;
    still = q.kept.still;
    type = ap (λ (r : Inode). r.type) q.kept.same;
    stored = record {
      small = t.small;
      sane = q.kept.sane;
      file = q.kept.file;
      placed = put-IsPlaced;
      fits = omega (arith, t.fits, same_size);
      whole = λ i h. put_old i (omega (arith, same_size));
    };
  }

  -- A new size, which goes to the inode's block.
  put_grown : ip.size < off + n → (i : ℕ) → i * bsize < off + n → owned s1 ip1 i ≢ 0
  put_grown more i h = elim (dec_lt (i * bsize) ip.size) [
    | yes l ↦ put_old i l
    | no l ↦ q.mapped i (omega arith)
  ]

  Wrote-grown :
      ip.size < off + n
      → Wrote sb s ip off n src
          (saved q.kept.sane q.kept.file put-IsPlaced (off + n))
          (record ip1 { size = off + n })
  Wrote-grown more =
      let v = q.kept.sane in
      let f = q.kept.file in
      let h = put-IsPlaced in
      let d = inode_data v f h (off + n) in
      let small = inode_data_small v f h (off + n) in
      let x = iblock sb ip1.inum in
      let only = h.apart maxfile (omega arith) in
      let own = owned-stored v f x h.used only d small in
      let file = stored-IsFile v f x h.used only d small in
      record {
        bytes = λ p l. content-stored_other v f x h.used only d small h.apart p l ∙ q.bytes p l;
        size = ground arith;
        old = λ i l ne. own i ∙ q.kept.old i l ne;
        novel =
            λ i l z ne w. q.kept.novel i l z (λ e. ne (own i ∙ e)) (subst (IsUsed sb s) (own i) w);
        inum = sym same_inum;
        others = λ b u apart ne.
            stored_other v f x h.used only d small b (λ e. ne (e ∙ ap (iblock sb) (sym same_inum)))
            ∙ q.kept.others b u apart;
        still = λ b u. stored-IsUsed v f x h.used only d small b (q.kept.still b u);
        type = ap (λ (r : Inode). r.type) q.kept.same;
        stored = record {
          small = t.small;
          sane = stored-IsSane v f x h.used only d small;
          file = record { inside = file.inside; distinct = file.distinct };
          placed = record {
            used = stored-IsUsed v f x h.used only d small x h.used;
            apart = λ i l e. h.apart i l (sym (own i) ∙ e);
          };
          fits = omega arith;
          whole = λ i l z. put_grown more i l (sym (own i) ∙ z);
        };
      }

  pub grow_size-Wrote :
      let (ip2, s2) = grow_size sb (off + n) n ip1 s1 in Wrote sb s ip off n src s2 ip2
  unfolding grow_size
  grow_size-Wrote = elim (dec_lt ip.size (off + n)) [
    | yes more ↦
        let grows : (ltb 0 n && ltb ip1.size (off + n)) ≡ true = ground (arith, same_size) in
        rw (grows, iupdate-saved q.kept.sane q.kept.file put-IsPlaced (off + n)) (Wrote-grown more)
    | no enough ↦
        let stays : (ltb 0 n && ltb ip1.size (off + n)) ≡ false = ground (arith, same_size) in
        rw stays (Wrote-same (ground arith))
  ]

  -- The block of the inode afterwards.
  pub grow_size-inode :
      let (ip2, s2) = grow_size sb (off + n) n ip1 s1 in
      s2.blocks (iblock sb ip.inum) ≡ (
        if ltb ip.size (off + n)
        then put_dinode ip2 (place ip.inum) (s.blocks (iblock sb ip.inum))
        else s.blocks (iblock sb ip.inum))
  unfolding grow_size
  grow_size-inode =
      let x = iblock sb ip.inum in
      let kept : s1.blocks x ≡ s.blocks x = q.kept.others x t.placed.used t.placed.apart in
      elim (dec_lt ip.size (off + n)) [
        | yes more ↦
            let grows : (ltb 0 n && ltb ip1.size (off + n)) ≡ true = ground (arith, same_size) in
            let above : ltb ip.size (off + n) ≡ true = ground arith in
            let ip2 : Inode = record ip1 { size = off + n } in
            rw (grows, above)
              (subst
                  (λ (i : ℕ).
                    (iupdate sb ip2 s1).blocks (iblock sb i)
                    ≡ put_dinode ip2 (place i) (s1.blocks (iblock sb i)))
                  (sym same_inum) (iupdate_here sb ip2 s1)
                ∙ ap (put_dinode ip2 (place ip.inum)) kept)
        | no enough ↦
            let stays : (ltb 0 n && ltb ip1.size (off + n)) ≡ false = ground (arith, same_size) in
            let below : ltb ip.size (off + n) ≡ false = ground arith in rw (stays, below) kept
      ]
