-- ===== src/Fs/Content/Update.antt =====
-- The bytes of a file, and what may happen to the rest of the disk.
use os_lab_course_project.Prelude.{
  ℕ, ◌*◌, ◌/◌, ◌%◌, ◌≤◌, ◌<◌, ◌≡◌, ◌≢◌, ◌∙◌, refl, sym, ap, ◌==◌, if◌then◌else◌, arith, ==_ne,
}
use mathlib.Core.Path.{subst}
use native.Mathlib.Decide.{ℕ_discrete}
use os_lab_course_project.Fs.Blocks.{Block, Fs, bsize}
use os_lab_course_project.Fs.Bitmap.{Super}
use os_lab_course_project.Fs.Bitmap.Scan.{IsSane}
use os_lab_course_project.Fs.Inode.{Inode, ndirect, maxfile}
use os_lab_course_project.Fs.Inode.Owned.{owned, IsUsed, IsFile}
use os_lab_course_project.Fs.Inode.Grow.{Grew, owned_ne}

-- Byte `x` of block `a`; where there is no block it reads as 0.
abbrev pub byte_in : Fs → ℕ → ℕ → ℕ
byte_in s a x = if a == 0 then 0 else s.blocks a x

-- Byte `p` of the file.
abbrev pub content : Fs → Inode → ℕ → ℕ
content s ip p = byte_in s (owned s ip (p / bsize)) (p % bsize)

-- From `s` and `ip` to `s'` and `ip'` the file has kept its blocks; those it got were not in use; and
-- a block in use that is not the file's keeps its data.
pub record Kept (sb : Super) (s : Fs) (ip : Inode) (s' : Fs) (ip' : Inode) : Type 0 where
  pub old : (i : ℕ) → i ≤ maxfile → owned s ip i ≢ 0 → owned s' ip' i ≡ owned s ip i
  pub novel :
      (i : ℕ) → i ≤ maxfile → owned s ip i ≡ 0 → owned s' ip' i ≢ 0 → ¬ IsUsed sb s (owned s' ip' i)
  pub still : (b : ℕ) → IsUsed sb s b → IsUsed sb s' b
  pub others :
      (b : ℕ)
      → IsUsed sb s b
      → ((i : ℕ) → i ≤ maxfile → owned s ip i ≢ b)
      → s'.blocks b ≡ s.blocks b
  pub same : ip' ≡ record ip { addrs = ip'.addrs }
  pub file : IsFile sb s' ip'
  pub sane : IsSane sb s'

-- A block in use that is not the file's does not become one of the file.
pub Kept-apart :
    {sb : Super} {s s' : Fs} {ip ip' : Inode}
    → Kept sb s ip s' ip'
    → (b : ℕ) → IsUsed sb s b
    → ((i : ℕ) → i ≤ maxfile → owned s ip i ≢ b)
    → (i : ℕ) → i ≤ maxfile
    → owned s' ip' i ≢ b
Kept-apart {sb} {s} {s'} {ip} {ip'} k b u apart i h e = elim (ℕ_discrete (owned s ip i) 0) [
  | yes z ↦ k.novel i h z (λ w. u.nonzero (sym e ∙ w)) (subst (IsUsed sb s) (sym e) u)
  | no nz ↦ apart i h (sym (k.old i h nz) ∙ e)
]

pub Kept-refl :
    {sb : Super} {s : Fs} {ip : Inode} → IsFile sb s ip → IsSane sb s → Kept sb s ip s ip
Kept-refl f v = record {
  old = λ i h ne. refl;
  novel = λ i h e ne. absurd (ne e);
  still = λ b u. u;
  others = λ b u ne. refl;
  same = refl;
  file = f;
  sane = v;
}

pub Kept-trans :
    {sb : Super} {s t u : Fs} {ip iq ir : Inode}
    → Kept sb s ip t iq
    → Kept sb t iq u ir
    → Kept sb s ip u ir
Kept-trans {sb} {s} {t} {u} {ip} {iq} {ir} p q = record {
  old = λ i h ne. q.old i h (λ z. ne (sym (p.old i h ne) ∙ z)) ∙ p.old i h ne;
  novel = λ i h e ne w. elim (ℕ_discrete (owned t iq i) 0) [
    | yes z ↦ q.novel i h z ne (p.still (owned u ir i) w)
    | no nz ↦ p.novel i h e nz (subst (IsUsed sb s) (q.old i h nz) w)
  ];
  still = λ b w. q.still b (p.still b w);
  others = λ b w apart. q.others b (p.still b w) (Kept-apart p b w apart) ∙ p.others b w apart;
  same = q.same ∙ ap (λ (r : Inode). record r { addrs = ir.addrs }) p.same;
  file = q.file;
  sane = q.sane;
}

module _ {sb : Super} {s s' : Fs} {ip ip' : Inode} (g : Grew sb s ip s' ip') where
  -- The indirect block afterwards is no used block of another owner.
  not_indirect :
      (b : ℕ) → IsUsed sb s b → ((i : ℕ) → i ≤ maxfile → owned s ip i ≢ b) → b ≢ ip'.addrs ndirect
  not_indirect b u apart e = elim (ℕ_discrete (ip.addrs ndirect) 0) [
    | yes z ↦ g.novel maxfile (omega arith) z (λ w. u.nonzero (e ∙ w)) (subst (IsUsed sb s) e u)
    | no nz ↦ apart maxfile (omega arith) (sym (g.old maxfile (omega arith) nz) ∙ sym e)
  ]

  pub Grew-Kept : Kept sb s ip s' ip'
  Grew-Kept = record {
    old = g.old;
    novel = g.novel;
    still = g.still;
    others = λ b u apart. g.others b u (not_indirect b u apart);
    same = g.same;
    file = g.file;
    sane = g.sane;
  }

  content-none : (p : ℕ) → p < maxfile * bsize → owned s ip (p / bsize) ≡ 0 → content s' ip' p ≡ 0
  content-none p h z = elim (ℕ_discrete (owned s' ip' (p / bsize)) 0) [
    | yes e ↦ ap (λ (a : ℕ). byte_in s' a (p % bsize)) e
    | no ne ↦
        rw (==_ne (owned s' ip' (p / bsize)) 0 ne)
          (g.fresh (p / bsize) (omega arith) z ne (p % bsize))
  ]

  -- An allocation changes no byte of the file.
  pub content-Grew :
      IsFile sb s ip → (p : ℕ) → p < maxfile * bsize → content s' ip' p ≡ content s ip p
  content-Grew f p h = elim (ℕ_discrete (owned s ip (p / bsize)) 0) [
    | yes z ↦ content-none p h z ∙ sym (ap (λ (a : ℕ). byte_in s a (p % bsize)) z)
    | no ne ↦
        let i = p / bsize in
        let b = owned s ip i in
        let kept = g.old i (omega arith) ne in
        let apart =
          owned_ne i maxfile g.file (omega arith) (omega arith) (λ z. ne (sym kept ∙ z))
            (omega arith) in
        ap (λ (a : ℕ). byte_in s' a (p % bsize)) kept
        ∙ ap (λ (d : Block). if b == 0 then 0 else d (p % bsize))
            (g.others b (f.inside i (omega arith) ne) (λ e. apart (kept ∙ e)))
  ]
