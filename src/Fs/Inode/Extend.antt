-- ===== src/Fs/Inode/Extend.antt =====
-- The three allocations of `bmap`.
use os_lab_course_project.Prelude.{
  ℕ, ◌+◌, ◌-◌, ◌*◌, ◌%◌, ◌^◌, ◌<◌, ◌≡◌, ◌≢◌, refl, sym, update, arith, ap, ◌∙◌,
}
use native.Mathlib.Decide.{ℕ_discrete}
use os_lab_course_project.Fs.Blocks.{
  Block, Fs, log_data, get32, put32, get32-put32, get32-put32_other, put32_bytes,
}
use os_lab_course_project.Fs.Bitmap.{Super, bpb, bblock, bit_free}
use os_lab_course_project.Fs.Bitmap.Scan.{is_free, IsSane}
use os_lab_course_project.Fs.Bitmap.Alloc.{Allocated}
use os_lab_course_project.Fs.Inode.{Inode, ndirect, nindirect, maxfile}
use os_lab_course_project.Fs.Inode.Owned.{IsUsed, IsFile}
use os_lab_course_project.Fs.Inode.Grow.{Extends}

module _ {sb : Super} {s s1 : Fs} {ip : Inode} {a : ℕ} (v : IsSane sb s) (f : IsFile sb s ip)
    (al : Allocated sb s a s1) where
  untouched : (b : ℕ) → IsUsed sb s b → s1.blocks b ≡ s.blocks b
  untouched b u =
      al.others b (λ e. cc (ap (is_free sb s) e, u.used, al.was_free))
        (λ e. u.off_map a al.within (sym e))

  -- A direct block.
  pub direct-Extends :
      (i : ℕ)
      → i < ndirect
      → ip.addrs i ≡ 0
      → Extends sb s ip i a s1 (record ip { addrs = update ip.addrs i a })
  direct-Extends i h z = record {
    within = al.within;
    was_free = al.was_free;
    bits = al.bits;
    top = omega arith;
    empty = ground arith;
    got = ground arith;
    rest = λ j l ne. elim (ℕ_discrete (ip.addrs ndirect) 0) [
      | yes none ↦ ground arith
      | no some ↦ ground (
        arith,
        ap (λ (d : Block). get32 d (4 * (j - ndirect)))
            (untouched (ip.addrs ndirect) (f.inside maxfile (omega arith) some)),
      )
    ];
    zeroed = al.zeroed;
    others = λ b u ne. untouched b u;
    same = refl;
    sane = al.sane;
  }

  -- The indirect block: full of zeros it adds no entry.
  pub indirect-Extends :
      ip.addrs ndirect ≡ 0
      → Extends sb s ip maxfile a s1 (record ip { addrs = update ip.addrs ndirect a })
  unfolding get32
  indirect-Extends z = record {
    within = al.within;
    was_free = al.was_free;
    bits = al.bits;
    top = omega arith;
    empty = z;
    got = ground arith;
    rest = λ j l ne. ground (
      arith,
      al.zeroed (4 * (j - ndirect)),
      al.zeroed (4 * (j - ndirect) + 1),
      al.zeroed (4 * (j - ndirect) + 2),
      al.zeroed (4 * (j - ndirect) + 3),
    );
    zeroed = al.zeroed;
    others = λ b u ne. untouched b u;
    same = refl;
    sane = al.sane;
  }

  -- An entry of the indirect block.
  abbrev pub entered : ℕ → Fs
  entered bn = log_data (ip.addrs ndirect) (put32 (s1.blocks (ip.addrs ndirect)) (4 * bn) a) s1

  module _ (bn : ℕ) (bounded : bn < nindirect) (small : sb.size < 2 ^ 32)
      (some : ip.addrs ndirect ≢ 0) where
    top_used : IsUsed sb s (ip.addrs ndirect)
    top_used = f.inside maxfile (omega arith) some

    entered_other : (b : ℕ) → b ≢ ip.addrs ndirect → (entered bn).blocks b ≡ s1.blocks b
    unfolding log_data
    entered_other b ne = ground arith

    entered_at :
        (entered bn).blocks (ip.addrs ndirect) ≡ put32 (s1.blocks (ip.addrs ndirect)) (4 * bn) a
    unfolding log_data
    entered_at = ground arith

    entered-bits : (b : ℕ) → b < sb.size → is_free sb (entered bn) b ≡ is_free sb s1 b
    entered-bits b h =
        ap (λ (d : Block). bit_free d (b % bpb))
          (entered_other (bblock sb b) (top_used.off_map b h))

    entered-IsSane : IsSane sb (entered bn)
    entered-IsSane = record {
      bytes = entered_bytes;
      boot = entered-bits 0 (omega (arith, al.within)) ∙ al.sane.boot;
      within = al.sane.within;
      map_used = λ b h. entered-bits (bblock sb b) (al.sane.within b h) ∙ al.sane.map_used b h;
    }
      where
        entered_bytes : (b x : ℕ) → (entered bn).blocks b x < 256
        entered_bytes b x = elim (ℕ_discrete b (ip.addrs ndirect)) [
          | yes e ↦
              rw (e, entered_at)
                (put32_bytes (s1.blocks (ip.addrs ndirect)) (4 * bn) a
                  (al.sane.bytes (ip.addrs ndirect)) x)
          | no ne ↦ rw (entered_other b ne) (al.sane.bytes b x)
        ]

    -- The entries of the indirect block.
    entry_self : get32 ((entered bn).blocks (ip.addrs ndirect)) (4 * bn) ≡ a
    entry_self =
        rw entered_at
          (get32-put32 (s1.blocks (ip.addrs ndirect)) (4 * bn) a (omega (arith, al.within)))

    entry-other :
        (j : ℕ)
        → j ≢ bn
        → get32 ((entered bn).blocks (ip.addrs ndirect)) (4 * j)
          ≡ get32 (s.blocks (ip.addrs ndirect)) (4 * j)
    entry-other j ne = rw entered_at (
        get32-put32_other (s1.blocks (ip.addrs ndirect)) (4 * bn) a (4 * j) (ground arith)
        ∙ ap (λ (d : Block). get32 d (4 * j)) (untouched (ip.addrs ndirect) top_used))

    pub entry-Extends :
        get32 (s.blocks (ip.addrs ndirect)) (4 * bn) ≡ 0
        → Extends sb s ip (ndirect + bn) a (entered bn) ip
    entry-Extends z = record {
      within = al.within;
      was_free = al.was_free;
      bits = λ b h. entered-bits b h ∙ al.bits b h;
      top = omega arith;
      empty = ground (
        arith,
        ap (λ (j : ℕ). get32 (s.blocks (ip.addrs ndirect)) (4 * j)) {x = ndirect + bn - ndirect}
            {y = bn} (omega arith),
      );
      got = ground (
        arith,
        entry_self,
        ap (λ (j : ℕ). get32 ((entered bn).blocks (ip.addrs ndirect)) (4 * j))
            {x = ndirect + bn - ndirect} {y = bn} (omega arith),
      );
      rest = λ j l ne. ground (arith, entry-other (j - ndirect));
      zeroed = λ x.
          ap (λ (d : Block). d x)
            (entered_other a (λ e. cc (ap (is_free sb s) e, top_used.used, al.was_free)))
          ∙ al.zeroed x;
      others = λ b u ne. entered_other b ne ∙ untouched b u;
      same = refl;
      sane = entered-IsSane;
    }
