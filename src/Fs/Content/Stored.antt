-- ===== src/Fs/Content/Stored.antt =====
-- A file as it is stored, what a write makes of it, and writes one after another.
use os_lab_course_project.Prelude.{
  ℕ, ◌+◌, ◌-◌, ◌*◌, ◌^◌, ◌≤◌, ◌<◌, ◌≡◌, ◌≢◌, ◌∙◌, refl, sym, ap, ltb, if◌then◌else◌, arith,
}
use mathlib.Core.Path.{subst}
use native.Mathlib.Decide.{ℕ_discrete}
use os_lab_course_project.Fs.Blocks.{Fs, bsize}
use os_lab_course_project.Fs.Bitmap.{Super}
use os_lab_course_project.Fs.Bitmap.Scan.{IsSane}
use os_lab_course_project.Fs.Inode.{Inode, maxfile}
use os_lab_course_project.Fs.Inode.Owned.{owned, IsUsed, IsFile}
use os_lab_course_project.Fs.Dinode.{iblock}
use os_lab_course_project.Fs.Content.{Buffer}
use os_lab_course_project.Fs.Content.Update.{content}
use os_lab_course_project.Fs.Content.Round.{overlay}

-- The block that holds the inode itself is in use, and no block of the file.
pub record IsPlaced (sb : Super) (s : Fs) (ip : Inode) : Type 0 where
  pub used : IsUsed sb s (iblock sb ip.inum)
  pub apart : (i : ℕ) → i ≤ maxfile → owned s ip i ≢ iblock sb ip.inum

-- A file on a sane disk: its blocks, its inode, and no hole below its size.
pub record IsStored (sb : Super) (s : Fs) (ip : Inode) : Type 0 where
  pub small : sb.size < 2 ^ 32
  pub sane : IsSane sb s
  pub file : IsFile sb s ip
  pub placed : IsPlaced sb s ip
  pub fits : ip.size ≤ maxfile * bsize
  pub whole : (i : ℕ) → i * bsize < ip.size → owned s ip i ≢ 0

-- What `writei` of `n` bytes at `off` makes of the file and the disk.
pub record Wrote (sb : Super) (s : Fs) (ip : Inode) (off n : ℕ) (src : Buffer) (s' : Fs)
    (ip' : Inode) : Type 0 where
  pub bytes :
      (p : ℕ) → p < maxfile * bsize → content s' ip' p ≡ overlay (content s ip) off src 0 n p
  pub size : ip'.size ≡ (if ltb ip.size (off + n) then off + n else ip.size)
  pub old : (i : ℕ) → i ≤ maxfile → owned s ip i ≢ 0 → owned s' ip' i ≡ owned s ip i
  pub novel :
      (i : ℕ) → i ≤ maxfile → owned s ip i ≡ 0 → owned s' ip' i ≢ 0 → ¬ IsUsed sb s (owned s' ip' i)
  pub others :
      (b : ℕ)
      → IsUsed sb s b
      → ((i : ℕ) → i ≤ maxfile → owned s ip i ≢ b)
      → b ≢ iblock sb ip.inum
      → s'.blocks b ≡ s.blocks b
  pub still : (b : ℕ) → IsUsed sb s b → IsUsed sb s' b
  pub type : ip'.type ≡ ip.type
  pub inum : ip'.inum ≡ ip.inum
  pub stored : IsStored sb s' ip'

pub Wrote-none :
    {sb : Super} {s : Fs} {ip : Inode} (off : ℕ) (src : Buffer)
    → IsStored sb s ip
    → off ≤ ip.size
    → Wrote sb s ip off 0 src s ip
Wrote-none off src t low = record {
  bytes = λ p h. ground arith;
  size = ground arith;
  old = λ i h ne. refl;
  novel = λ i h z ne. absurd (ne z);
  others = λ b u apart ne. refl;
  still = λ b u. u;
  type = refl;
  inum = refl;
  stored = t;
}

-- Two writes, the second where the first ends, are one.
module _ {sb : Super} {s s1 s2 : Fs} {ip ip1 ip2 : Inode} {off m k : ℕ} {src : Buffer}
    (p : Wrote sb s ip off m src s1 ip1)
    (q : Wrote sb s1 ip1 (off + m) k (λ x. src (m + x)) s2 ip2) where
  Wrote-apart :
      (b : ℕ)
      → IsUsed sb s b
      → ((i : ℕ) → i ≤ maxfile → owned s ip i ≢ b)
      → (i : ℕ) → i ≤ maxfile
      → owned s1 ip1 i ≢ b
  Wrote-apart b u apart i h e = elim (ℕ_discrete (owned s ip i) 0) [
    | yes z ↦ p.novel i h z (λ w. u.nonzero (sym e ∙ w)) (subst (IsUsed sb s) (sym e) u)
    | no nz ↦ apart i h (sym (p.old i h nz) ∙ e)
  ]

  pub Wrote-trans : Wrote sb s ip off (m + k) src s2 ip2
  Wrote-trans = record {
    bytes = λ x h.
        q.bytes x h
        ∙ ground (
          arith,
          p.bytes x h,
          ap src {x = m + (x - (off + m))} {y = x - off},
          ap src {x = 0 + (x - off)} {y = x - off},
        );
    size = ground (arith, p.size, q.size);
    old = λ i h ne. q.old i h (λ z. ne (sym (p.old i h ne) ∙ z)) ∙ p.old i h ne;
    novel = λ i h e ne w. elim (ℕ_discrete (owned s1 ip1 i) 0) [
      | yes z ↦ q.novel i h z ne (p.still (owned s2 ip2 i) w)
      | no nz ↦ p.novel i h e nz (subst (IsUsed sb s) (q.old i h nz) w)
    ];
    others = λ b u apart ne.
        q.others b (p.still b u) (Wrote-apart b u apart) (λ e. ne (e ∙ ap (iblock sb) p.inum))
        ∙ p.others b u apart ne;
    still = λ b u. q.still b (p.still b u);
    type = q.type ∙ p.type;
    inum = q.inum ∙ p.inum;
    stored = q.stored;
  }
