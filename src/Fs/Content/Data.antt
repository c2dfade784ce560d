-- ===== src/Fs/Content/Data.antt =====
-- A write into one data block of a file.
use os_lab_course_project.Prelude.{
  ℕ, ◌-◌, ◌*◌, ◌/◌, ◌%◌, ◌≤◌, ◌<◌, ◌≡◌, ◌≢◌, ◌∙◌, refl, sym, ap, ◌==◌, ==_ne, if◌then◌else◌, ltb,
  arith, Bool-cases, inl, inr,
}
use mathlib.Core.Path.{subst}
use native.Mathlib.Decide.{ℕ_discrete}
use os_lab_course_project.Fs.Blocks.{Block, Fs, bsize, log_data, get32}
use os_lab_course_project.Fs.Bitmap.{Super, bblock, bit_free, bpb}
use os_lab_course_project.Fs.Bitmap.Scan.{is_free, IsSane}
use os_lab_course_project.Fs.Inode.{Inode, ndirect, maxfile}
use os_lab_course_project.Fs.Inode.Owned.{owned, IsUsed, IsFile}
use os_lab_course_project.Fs.Inode.Grow.{}
use os_lab_course_project.Fs.Content.Update.{byte_in, content, Kept}

-- A write of `d` to a block `x` in use, which the file owns as data or not at all.
module _ {sb : Super} {s : Fs} {ip : Inode} (v : IsSane sb s) (f : IsFile sb s ip) (x : ℕ)
    (u : IsUsed sb s x) (data_only : ip.addrs ndirect ≢ x) (d : Block)
    (small : (y : ℕ) → d y < 256) where
  abbrev pub stored : Fs
  stored = log_data x d s

  pub stored_other : (b : ℕ) → b ≢ x → stored.blocks b ≡ s.blocks b
  unfolding log_data
  stored_other b ne = ground arith

  pub stored_at : stored.blocks x ≡ d
  unfolding log_data
  stored_at = ground arith

  pub owned-stored : (i : ℕ) → owned stored ip i ≡ owned s ip i
  owned-stored i =
      ap
        (λ (e : Block).
          if i == maxfile
          then ip.addrs ndirect
          else if ltb i ndirect
          then ip.addrs i
          else if ip.addrs ndirect == 0
          then 0
          else get32 e (4 * (i - ndirect)))
        (stored_other (ip.addrs ndirect) data_only)

  stored-bits : (b : ℕ) → b < sb.size → is_free sb stored b ≡ is_free sb s b
  stored-bits b h =
      ap (λ (e : Block). bit_free e (b % bpb)) (stored_other (bblock sb b) (u.off_map b h))

  stored_bytes : (b y : ℕ) → stored.blocks b y < 256
  stored_bytes b y = elim (ℕ_discrete b x) [
    | yes e ↦ rw (e, stored_at) (small y)
    | no ne ↦ rw (stored_other b ne) (v.bytes b y)
  ]

  pub stored-IsSane : IsSane sb stored
  stored-IsSane = record {
    bytes = stored_bytes;
    boot = stored-bits 0 (omega (arith, u.within)) ∙ v.boot;
    within = v.within;
    map_used = λ b h. stored-bits (bblock sb b) (v.within b h) ∙ v.map_used b h;
  }

  pub stored-IsUsed : (b : ℕ) → IsUsed sb s b → IsUsed sb stored b
  stored-IsUsed b w = record {
    nonzero = w.nonzero;
    within = w.within;
    used = stored-bits b w.within ∙ w.used;
    off_map = w.off_map;
  }

  pub stored-IsFile : IsFile sb stored ip
  stored-IsFile = record {
    inside = λ i h ne.
        let e = owned-stored i in
        subst (IsUsed sb stored) (sym e)
          (stored-IsUsed (owned s ip i) (f.inside i h (λ z. ne (e ∙ z))));
    distinct = λ i j h l ne same.
        f.distinct i j h l (λ z. ne (owned-stored i ∙ z))
          (sym (owned-stored i) ∙ same ∙ owned-stored j);
  }

  -- If the block is the file's, the rest of the disk is kept.
  pub stored-Kept : (k : ℕ) → k ≤ maxfile → owned s ip k ≡ x → Kept sb s ip stored ip
  stored-Kept k h e = record {
    old = λ i l ne. owned-stored i;
    novel = λ i l z ne. absurd (ne (owned-stored i ∙ z));
    still = stored-IsUsed;
    others = λ b w apart. stored_other b (λ same. apart k h (e ∙ sym same));
    same = refl;
    file = stored-IsFile;
    sane = stored-IsSane;
  }

  byte-here : (k p : ℕ) → owned s ip k ≡ x → p / bsize ≡ k → content stored ip p ≡ d (p % bsize)
  byte-here k p e same =
      ap (λ (a : ℕ). byte_in stored a (p % bsize))
        (owned-stored (p / bsize) ∙ ap (owned s ip) same ∙ e)
      ∙ rw (==_ne x 0 u.nonzero) (ap (λ (b : Block). b (p % bsize)) stored_at)

  byte-elsewhere :
      (k p : ℕ)
      → k < maxfile
      → p < maxfile * bsize
      → owned s ip k ≡ x
      → p / bsize ≢ k
      → content stored ip p ≡ content s ip p
  byte-elsewhere k p h l e other =
      let b = owned s ip (p / bsize) in
      let apart = λ (same : b ≡ x). other (
        f.distinct (p / bsize) k (omega arith) (omega arith) (λ z. u.nonzero (sym same ∙ z))
          (same ∙ sym e)) in
      ap (λ (a : ℕ). byte_in stored a (p % bsize)) (owned-stored (p / bsize))
      ∙ ap (λ (c : Block). if b == 0 then 0 else c (p % bsize)) (stored_other b apart)

  -- The bytes of the file afterwards.
  pub content-stored :
      (k p : ℕ)
      → k < maxfile
      → p < maxfile * bsize
      → owned s ip k ≡ x
      → content stored ip p ≡ (if p / bsize == k then d (p % bsize) else content s ip p)
  content-stored k p h l e = elim (Bool-cases (p / bsize == k)) [
    | inl same ↦ byte-here k p e (ground arith) ∙ rw same
    | inr other ↦ byte-elsewhere k p h l e (ground arith) ∙ rw other
  ]

  -- A write to a block that the file does not own changes no byte of it.
  pub content-stored_other :
      ((i : ℕ) → i ≤ maxfile → owned s ip i ≢ x)
      → (p : ℕ) → p < maxfile * bsize
      → content stored ip p ≡ content s ip p
  content-stored_other apart p h =
      let b = owned s ip (p / bsize) in
      ap (λ (a : ℕ). byte_in stored a (p % bsize)) (owned-stored (p / bsize))
      ∙ ap (λ (c : Block). if b == 0 then 0 else c (p % bsize))
          (stored_other b (apart (p / bsize) (omega arith)))
