-- ===== src/Fs/Truncate/Freed.antt =====
-- `itrunc` frees the blocks of a file in the order of their indices.
use os_lab_course_project.Prelude.{
  ℕ, zero, suc, ◌≤◌, ◌<◌, ◌≡◌, ◌≢◌, ◌∙◌, ◌⊎◌, ◌∷◌, IsIn, inl, inr, sym, Bool, true, false, not,
  ◌&&◌, ◌||◌, ◌==◌, if◌then◌else◌, ok, arith, Bool-cases,
}
use mathlib.Core.Path.{subst}
use native.Mathlib.Decide.{}
use os_lab_course_project.Fs.Blocks.{Fs, log_data}
use os_lab_course_project.Fs.Bitmap.{Super, bblock, bfree}
use os_lab_course_project.Fs.Bitmap.Scan.{is_free, IsSane}
use os_lab_course_project.Fs.Bitmap.Alloc.{bfree_lem}
use os_lab_course_project.Fs.Inode.{Inode, maxfile}
use os_lab_course_project.Fs.Inode.Owned.{owned, IsFile}
use os_lab_course_project.Fs.Truncate.{}

-- Whether `b` is one of the first `k` blocks of the list `own`.
abbrev pub owns_below : (ℕ → ℕ) → ℕ → ℕ → Bool
owns_below own zero b = false
owns_below own (suc k) b = (own k == b && not (b == 0)) || owns_below own k b

-- Block `x` is one of the free map.
pub record IsMapBlock (sb : Super) (x : ℕ) : Type 0 where
  pub of : ℕ
  pub within : of < sb.size
  pub same : bblock sb of ≡ x

-- From `s` to `t` the first `k` blocks of the file became free, and nothing else changed.
pub record Freed (sb : Super) (s : Fs) (ip : Inode) (k : ℕ) (t : Fs) : Type 0 where
  pub bits :
      (b : ℕ) → b < sb.size → is_free sb t b ≡ (owns_below (owned s ip) k b || is_free sb s b)
  pub data_kept : (x : ℕ) → ((b : ℕ) → b < sb.size → bblock sb b ≢ x) → t.blocks x ≡ s.blocks x
  pub sane : IsSane sb t
  pub calls : (x : ℕ) → IsIn x t.logged → IsIn x s.logged ⊎ IsMapBlock sb x

owns_below-index :
    (own : ℕ → ℕ) (k b : ℕ) → owns_below own k b ≡ true → (j : ℕ) × (j < k) × (own j ≡ b) × (b ≢ 0)
owns_below-index own zero b e = absurd (ground (arith, e))
owns_below-index own (suc k) b e = elim (Bool-cases (owns_below own k b)) [
  | inl f ↦ let (j, l, o, n) = owns_below-index own k b f in (j, omega arith, o, n)
  | inr f ↦ (k, omega arith, ground (arith, e, f), ground (arith, e, f))
]

-- The bit of `b` when block `a` becomes free.
bit-next :
    (a b : ℕ) (was before below now : Bool)
    → a ≢ 0
    → now ≡ (if b == a then true else was)
    → was ≡ (below || before)
    → now ≡ (((a == b && not (b == 0)) || below) || before)
bit-next a b was before below now ne e f = ground (arith, e, f)

bit-skip :
    (a b : ℕ) (was before below : Bool)
    → a ≡ 0
    → was ≡ (below || before)
    → was ≡ (((a == b && not (b == 0)) || below) || before)
bit-skip a b was before below z f = ground (arith, z, f)

bit_used :
    (was before below : Bool)
    → was ≡ (below || before)
    → below ≡ false
    → before ≡ false
    → was ≡ false
bit_used was before below e f g = ground (e, f, g, arith)

bit_other :
    (a b : ℕ) (was now : Bool)
    → now ≡ (if b == a then true else was)
    → was ≡ false
    → a ≢ b
    → now ≡ false
bit_other a b was now e f ne = ground (arith, e, f)

-- `bfree` calls `log_write` for the block of the map alone.
bfree-logged :
    (sb : Super) (t t' : Fs) (a : ℕ) → bfree sb a t ≡ ok t' → t'.logged ≡ (bblock sb a ∷ t.logged)
unfolding bfree log_data
bfree-logged sb t t' a e = ground (arith, e)

calls_next :
    (sb : Super) (s t t' : Fs) (a : ℕ)
    → a < sb.size
    → ((x : ℕ) → IsIn x t.logged → IsIn x s.logged ⊎ IsMapBlock sb x)
    → t'.logged ≡ (bblock sb a ∷ t.logged)
    → (x : ℕ) → IsIn x t'.logged
    → IsIn x s.logged ⊎ IsMapBlock sb x
calls_next sb s t t' a h was e x m = elim (subst (IsIn x) e m) [
  | inl q ↦ inr (record { of = a; within = h; same = q })
  | inr n ↦ was x n
]

module _ {sb : Super} {s : Fs} {ip : Inode} (f : IsFile sb s ip) {k : ℕ} {t : Fs}
    (d : Freed sb s ip k t) (l : k ≤ maxfile) where
  pub Freed-skip : owned s ip k ≡ 0 → Freed sb s ip (suc k) t
  Freed-skip z = record {
    bits = λ b h.
        bit-skip (owned s ip k) b (is_free sb t b) (is_free sb s b) (owns_below (owned s ip) k b) z
          (d.bits b h);
    data_kept = d.data_kept;
    sane = d.sane;
    calls = d.calls;
  }

  still_used : owned s ip k ≢ 0 → is_free sb t (owned s ip k) ≡ false
  still_used ne =
      let u = f.inside k l ne in
      let a = owned s ip k in
      elim (Bool-cases (owns_below (owned s ip) k a)) [
        | inr none_below ↦
            bit_used (is_free sb t a) (is_free sb s a) (owns_below (owned s ip) k a)
              (d.bits a u.within) none_below u.used
        | inl below ↦
            let (j, h, e, _) = owns_below-index (owned s ip) k a below in
            let same : k ≡ j = f.distinct k j l (omega arith) ne (sym e) in
            absurd (omega (arith, same, h))
      ]

  pub Freed-next :
      owned s ip k ≢ 0 → (t' : Fs) × (bfree sb (owned s ip k) t ≡ ok t') × Freed sb s ip (suc k) t'
  Freed-next ne =
      let u = f.inside k l ne in
      let a = owned s ip k in
      let zero_inside : 0 < sb.size = omega (arith, u.within) in
      elim (bfree_lem sb t a d.sane) [
        | inl (free, _) ↦ absurd (cc (sym free ∙ still_used ne))
        | inr (_, (t', r, bits, off, bytes)) ↦ (
          t',
          r,
          record {
            bits = λ b h.
                bit-next a b (is_free sb t b) (is_free sb s b) (owns_below (owned s ip) k b)
                  (is_free sb t' b) ne (bits b h) (d.bits b h);
            data_kept = λ x h. off x (λ e. h a u.within (sym e)) ∙ d.data_kept x h;
            calls = λ x m. calls_next sb s t t' a u.within d.calls (bfree-logged sb t t' a r) x m;
            sane = record {
              bytes = bytes;
              boot =
                  bit_other a 0 (is_free sb t 0) (is_free sb t' 0) (bits 0 zero_inside) d.sane.boot
                    ne;
              within = d.sane.within;
              map_used = λ b h.
                  bit_other a (bblock sb b) (is_free sb t (bblock sb b))
                    (is_free sb t' (bblock sb b)) (bits (bblock sb b) (d.sane.within b h))
                    (d.sane.map_used b h) (λ e. u.off_map b h (sym e));
            };
          },
        )
      ]
