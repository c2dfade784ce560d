-- ===== src/Fs/Inode/Grow.antt =====
-- What an allocation for an inode keeps.
use os_lab_course_project.Prelude.{
  ℕ, ◌≤◌, ◌<◌, ◌≡◌, ◌≢◌, refl, sym, ◌==◌, true, false, if◌then◌else◌, arith, ap, ◌∙◌,
}
use mathlib.Core.Path.{subst}
use native.Mathlib.Decide.{ℕ_discrete}
use os_lab_course_project.Fs.Blocks.{Block, Fs}
use os_lab_course_project.Fs.Bitmap.{Super}
use os_lab_course_project.Fs.Bitmap.Scan.{is_free, IsSane}
use os_lab_course_project.Fs.Bitmap.Alloc.{}
use os_lab_course_project.Fs.Inode.{Inode, ndirect, maxfile}
use os_lab_course_project.Fs.Inode.Owned.{owned, IsUsed, IsFile}

-- From `s` and `ip` to `s'` and `ip'` the file has kept its blocks and perhaps got new ones, which
-- hold zeros; no other block in use has changed, but for the free map and the indirect block.
pub record Grew (sb : Super) (s : Fs) (ip : Inode) (s' : Fs) (ip' : Inode) : Type 0 where
  pub old : (i : ℕ) → i ≤ maxfile → owned s ip i ≢ 0 → owned s' ip' i ≡ owned s ip i
  pub fresh :
      (i : ℕ)
      → i < maxfile
      → owned s ip i ≡ 0
      → owned s' ip' i ≢ 0
      → (x : ℕ) → s'.blocks (owned s' ip' i) x ≡ 0
  pub novel :
      (i : ℕ) → i ≤ maxfile → owned s ip i ≡ 0 → owned s' ip' i ≢ 0 → ¬ IsUsed sb s (owned s' ip' i)
  pub still : (b : ℕ) → IsUsed sb s b → IsUsed sb s' b
  pub others : (b : ℕ) → IsUsed sb s b → b ≢ ip'.addrs ndirect → s'.blocks b ≡ s.blocks b
  pub same : ip' ≡ record ip { addrs = ip'.addrs }
  pub file : IsFile sb s' ip'
  pub sane : IsSane sb s'

pub Grew-refl :
    (sb : Super) (s : Fs) (ip : Inode) → IsFile sb s ip → IsSane sb s → Grew sb s ip s ip
Grew-refl sb s ip f v = record {
  old = λ i h ne. refl;
  fresh = λ i h e ne. absurd (ne e);
  novel = λ i h e ne. absurd (ne e);
  still = λ b u. u;
  others = λ b u ne. refl;
  same = refl;
  file = f;
  sane = v;
}

-- Two blocks of one file are different.
pub owned_ne :
    {sb : Super} {s : Fs} {ip : Inode} (i j : ℕ)
    → IsFile sb s ip
    → i ≤ maxfile
    → j ≤ maxfile
    → owned s ip i ≢ 0
    → i ≢ j
    → owned s ip i ≢ owned s ip j
owned_ne i j f h k ne apart e = apart (f.distinct i j h k ne e)

module _ {sb : Super} {s t u : Fs} {ip iq ir : Inode} (p : Grew sb s ip t iq)
    (q : Grew sb t iq u ir) where
  fresh_trans :
      (i : ℕ)
      → i < maxfile
      → owned s ip i ≡ 0
      → owned u ir i ≢ 0
      → (x : ℕ) → u.blocks (owned u ir i) x ≡ 0
  fresh_trans i h e ne x = elim (ℕ_discrete (owned t iq i) 0) [
    | yes z ↦ q.fresh i h z ne x
    | no nz ↦
        let same = q.old i (omega arith) nz in
        let apart = owned_ne i maxfile q.file (omega arith) (omega arith) ne (omega arith) in
        ap (λ (b : ℕ). u.blocks b x) same
        ∙ ap (λ (d : Block). d x)
            (q.others (owned t iq i) (p.file.inside i (omega arith) nz) (rw same at apart))
        ∙ p.fresh i h e nz x
  ]

  kept-indirect : (b : ℕ) → IsUsed sb s b → b ≢ ir.addrs ndirect → b ≢ iq.addrs ndirect
  kept-indirect b w ne e = ne (e ∙ sym (q.old maxfile (omega arith) (λ z. w.nonzero (e ∙ z))))

  novel_trans :
      (i : ℕ) → i ≤ maxfile → owned s ip i ≡ 0 → owned u ir i ≢ 0 → ¬ IsUsed sb s (owned u ir i)
  novel_trans i h e ne w = elim (ℕ_discrete (owned t iq i) 0) [
    | yes z ↦ q.novel i h z ne (p.still (owned u ir i) w)
    | no nz ↦ p.novel i h e nz (subst (IsUsed sb s) (q.old i h nz) w)
  ]

  pub Grew-trans : Grew sb s ip u ir
  Grew-trans = record {
    old = λ i h ne. q.old i h (λ z. ne (sym (p.old i h ne) ∙ z)) ∙ p.old i h ne;
    fresh = fresh_trans;
    novel = novel_trans;
    still = λ b w. q.still b (p.still b w);
    others = λ b w ne. q.others b (p.still b w) ne ∙ p.others b w (kept-indirect b w ne);
    same = q.same ∙ ap (λ (r : Inode). record r { addrs = ir.addrs }) p.same;
    file = q.file;
    sane = q.sane;
  }

-- An allocation of block `a` for index `k`, which had none, may change the indirect block too.
pub record Extends (sb : Super) (s : Fs) (ip : Inode) (k a : ℕ) (s' : Fs) (ip' : Inode)
    : Type 0 where
  pub within : a < sb.size
  pub was_free : is_free sb s a ≡ true
  pub bits : (b : ℕ) → b < sb.size → is_free sb s' b ≡ (if b == a then false else is_free sb s b)
  pub top : k ≤ maxfile
  pub empty : owned s ip k ≡ 0
  pub got : owned s' ip' k ≡ a
  pub rest : (i : ℕ) → i ≤ maxfile → i ≢ k → owned s' ip' i ≡ owned s ip i
  pub zeroed : (x : ℕ) → s'.blocks a x ≡ 0
  pub others : (b : ℕ) → IsUsed sb s b → b ≢ ip'.addrs ndirect → s'.blocks b ≡ s.blocks b
  pub same : ip' ≡ record ip { addrs = ip'.addrs }
  pub sane : IsSane sb s'

module _ {sb : Super} {s s' : Fs} {ip ip' : Inode} {k a : ℕ} (v : IsSane sb s) (f : IsFile sb s ip)
    (e : Extends sb s ip k a s' ip') where
  new_nonzero : a ≢ 0
  new_nonzero z = absurd (cc (ap (is_free sb s) z, e.was_free, v.boot))

  still-used : (b : ℕ) → IsUsed sb s b → IsUsed sb s' b
  still-used b u = record {
    nonzero = u.nonzero;
    within = u.within;
    used = ground (arith, e.bits b u.within, u.used);
    off_map = u.off_map;
  }

  new-used : IsUsed sb s' a
  new-used = record {
    nonzero = new_nonzero;
    within = e.within;
    used = ground (arith, e.bits a e.within);
    off_map = λ b h same. absurd (cc (ap (is_free sb s) same, e.was_free, v.map_used b h));
  }

  old-ne : (i : ℕ) → i ≤ maxfile → owned s ip i ≢ 0 → owned s ip i ≢ a
  old-ne i h ne same = absurd (cc (ap (is_free sb s) same, e.was_free, (f.inside i h ne).used))

  got-at : (i : ℕ) → i ≡ k → owned s' ip' i ≡ a
  got-at i same = ap (owned s' ip') same ∙ e.got

  extended-inside : (i : ℕ) → i ≤ maxfile → owned s' ip' i ≢ 0 → IsUsed sb s' (owned s' ip' i)
  extended-inside i h ne = elim (ℕ_discrete i k) [
    | yes new ↦ subst (IsUsed sb s') (sym (got-at i new)) new-used
    | no old ↦
        let r = e.rest i h old in
        subst (IsUsed sb s') (sym r) (still-used (owned s ip i) (f.inside i h (λ z. ne (r ∙ z))))
  ]

  -- An old block is not the new one.
  old_index : (i j : ℕ) → j ≤ maxfile → i ≡ k → j ≢ k → owned s' ip' i ≢ owned s' ip' j
  old_index i j l new old same =
      let found = sym (e.rest j l old) ∙ sym same ∙ got-at i new in
      old-ne j l (λ z. new_nonzero (sym found ∙ z)) found

  extended-distinct :
      (i j : ℕ)
      → i ≤ maxfile
      → j ≤ maxfile
      → owned s' ip' i ≢ 0
      → owned s' ip' i ≡ owned s' ip' j
      → i ≡ j
  extended-distinct i j h l ne same = elim (ℕ_discrete i k) [
    | yes new ↦ elim (ℕ_discrete j k) [
      | yes too ↦ new ∙ sym too
      | no old ↦ absurd (old_index i j l new old same)
    ]
    | no old ↦ elim (ℕ_discrete j k) [
      | yes new ↦ absurd (old_index j i h new old (sym same))
      | no other ↦
          f.distinct i j h l (λ z. ne (e.rest i h old ∙ z))
            (sym (e.rest i h old) ∙ same ∙ e.rest j l other)
    ]
  ]

  extended-fresh :
      (i : ℕ)
      → i < maxfile
      → owned s ip i ≡ 0
      → owned s' ip' i ≢ 0
      → (x : ℕ) → s'.blocks (owned s' ip' i) x ≡ 0
  extended-fresh i h z ne x = elim (ℕ_discrete i k) [
    | yes new ↦ ap (λ (b : ℕ). s'.blocks b x) (got-at i new) ∙ e.zeroed x
    | no old ↦ absurd (ne (e.rest i (omega arith) old ∙ z))
  ]

  extended-novel :
      (i : ℕ) → i ≤ maxfile → owned s ip i ≡ 0 → owned s' ip' i ≢ 0 → ¬ IsUsed sb s (owned s' ip' i)
  extended-novel i h z ne w = elim (ℕ_discrete i k) [
    | yes new ↦
        let u : IsUsed sb s a = subst (IsUsed sb s) (got-at i new) w in cc (u.used, e.was_free)
    | no old ↦ ne (e.rest i h old ∙ z)
  ]

  pub Extends-Grew : Grew sb s ip s' ip'
  Extends-Grew = record {
    old = λ i h ne. e.rest i h (λ same. ne (ap (owned s ip) same ∙ e.empty));
    fresh = extended-fresh;
    novel = extended-novel;
    still = still-used;
    others = e.others;
    same = e.same;
    file = record { inside = extended-inside; distinct = extended-distinct };
    sane = e.sane;
  }
