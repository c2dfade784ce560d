-- ===== src/Fs/Inode/Slot.antt =====
-- `slot` and `entry`: one block of a file, allocated if there was none.
use os_lab_course_project.Prelude.{
  ℕ, ◌+◌, ◌-◌, ◌*◌, ◌^◌, ◌<◌, ◌≡◌, ◌≢◌, ◌⊎◌, inl, inr, refl, sym, true, false, update, ok, panic,
  arith, ap, ◌∙◌,
}
use native.Mathlib.Decide.{ℕ_discrete}
use os_lab_course_project.Fs.Blocks.{Fs, log_data, get32, put32}
use os_lab_course_project.Fs.Bitmap.{Super, balloc}
use os_lab_course_project.Fs.Bitmap.Scan.{is_free, IsSane, IsFull}
use os_lab_course_project.Fs.Bitmap.Alloc.{Allocated, balloc_lem}
use os_lab_course_project.Fs.Inode.{Inode, ndirect, nindirect, maxfile, slot, entry}
use os_lab_course_project.Fs.Inode.Owned.{owned, IsFile}
use os_lab_course_project.Fs.Inode.Grow.{Grew, Grew-refl, Extends, Extends-Grew}
use os_lab_course_project.Fs.Inode.Extend.{entry-Extends, entered}

-- Index `k` of the file has block `a` afterwards, and the other indices have what they had.
pub record Mapped (sb : Super) (s : Fs) (ip : Inode) (k a : ℕ) (s' : Fs) (ip' : Inode)
    : Type 0 where
  pub at : owned s' ip' k ≡ a
  pub nonzero : a ≢ 0
  pub only : (i : ℕ) → i < maxfile → i ≢ k → owned s' ip' i ≡ owned s ip i
  pub grew : Grew sb s ip s' ip'

-- Where there was a block, nothing changes.
Mapped-refl :
    (sb : Super) (s : Fs) (ip : Inode) (k : ℕ)
    → IsSane sb s
    → IsFile sb s ip
    → owned s ip k ≢ 0
    → Mapped sb s ip k (owned s ip k) s ip
Mapped-refl sb s ip k v f ne = record {
  at = refl;
  nonzero = ne;
  only = λ i h l. refl;
  grew = Grew-refl sb s ip f v;
}

Extends-Mapped :
    {sb : Super} {s s' : Fs} {ip ip' : Inode} {k a : ℕ}
    → IsSane sb s
    → IsFile sb s ip
    → Extends sb s ip k a s' ip'
    → Mapped sb s ip k a s' ip'
Extends-Mapped {sb} {s} v f e = record {
  at = e.got;
  nonzero = λ z. absurd (cc (ap (is_free sb s) z, e.was_free, v.boot));
  only = λ i h ne. e.rest i (omega arith) ne;
  grew = Extends-Grew v f e;
}

-- The bits that an allocation for a file may set: one at most.
abbrev pub Spends : Super → Fs → Fs → Type 0
Spends sb s s' =
    (c : ℕ) × ((b : ℕ) → b < sb.size → is_free sb s' b ≡ false → b ≢ c → is_free sb s b ≡ false)

-- At most one block of the image is free.
abbrev pub IsNearlyFull : Super → Fs → Type 0
IsNearlyFull sb s =
    (i j : ℕ) → i < sb.size → j < sb.size → is_free sb s i ≡ true → is_free sb s j ≡ true → i ≡ j

module _ (sb : Super) (s : Fs) (ip : Inode) (v : IsSane sb s) (f : IsFile sb s ip) where
  pub slot-old : (i : ℕ) → ip.addrs i ≢ 0 → slot sb ip i s ≡ ok (ip.addrs i, ip, s)
  unfolding slot
  slot-old i ne = ground arith

  slot-new :
      (i : ℕ) {a : ℕ} {s' : Fs}
      → ip.addrs i ≡ 0
      → balloc sb s ≡ ok (a, s')
      → slot sb ip i s ≡ ok (a, record ip { addrs = update ip.addrs i a }, s')
  unfolding slot
  slot-new i z e = rw (z, e)

  slot-full :
      (i : ℕ)
      → ip.addrs i ≡ 0
      → balloc sb s ≡ panic "balloc: out of blocks"
      → slot sb ip i s ≡ panic "balloc: out of blocks"
  unfolding slot
  slot-full i z e = rw (z, e)

  -- `slot` at a direct block, of index `k = i`, and at the indirect block, of index `maxfile`.
  pub slot-Mapped :
      (i k : ℕ)
      → owned s ip k ≡ ip.addrs i
      → ((a : ℕ) (s' : Fs)
          → ip.addrs i ≡ 0
          → Allocated sb s a s'
          → Extends sb s ip k a s' (record ip { addrs = update ip.addrs i a }))
      → ((a : ℕ) × (ip' : Inode) × (s' : Fs) × (slot sb ip i s ≡ ok (a, ip', s'))
          × Mapped sb s ip k a s' ip'
          × Spends sb s s')
        ⊎ ((slot sb ip i s ≡ panic "balloc: out of blocks") × (owned s ip k ≡ 0) × IsFull sb s)
  slot-Mapped i k e extend = elim (ℕ_discrete (ip.addrs i) 0) [
    | no ne ↦ inl (
      ip.addrs i,
      ip,
      s,
      slot-old i ne,
      rw e at (Mapped-refl sb s ip k v f (λ z. ne (sym e ∙ z))),
      (0, λ b h used _. used),
    )
    | yes z ↦ elim (balloc_lem sb s v) [
      | inr (full, all) ↦ inr (slot-full i z full, e ∙ z, all)
      | inl (a, s', got, al, _) ↦ inl (
        a,
        record ip { addrs = update ip.addrs i a },
        s',
        slot-new i z got,
        Extends-Mapped v f (extend a s' z al),
        (a, λ b h used ne. ground (arith, al.bits b h)),
      )
    ]
  ]

  -- `entry` of a file with an indirect block.
  module _ (bn : ℕ) (small : sb.size < 2 ^ 32) (h : bn < nindirect)
      (some : ip.addrs ndirect ≢ 0) where
    abbrev pub cell : ℕ
    cell = get32 (s.blocks (ip.addrs ndirect)) (4 * bn)

    pub owned-cell : owned s ip (ndirect + bn) ≡ cell
    owned-cell = ground (
      arith,
      ap (λ (j : ℕ). get32 (s.blocks (ip.addrs ndirect)) (4 * j)) {x = ndirect + bn - ndirect}
          {y = bn} (omega arith),
    )

    pub entry-old : cell ≢ 0 → entry sb (ip.addrs ndirect) bn s ≡ ok (cell, s)
    unfolding entry
    entry-old ne = ground arith

    entry-new :
        {a : ℕ} {s1 : Fs}
        → cell ≡ 0
        → balloc sb s ≡ ok (a, s1)
        → entry sb (ip.addrs ndirect) bn s
          ≡ ok (a, log_data (ip.addrs ndirect) (put32 (s1.blocks (ip.addrs ndirect)) (4 * bn) a) s1)
    unfolding entry
    entry-new z e = rw (z, e)

    entry-full :
        cell ≡ 0
        → balloc sb s ≡ panic "balloc: out of blocks"
        → entry sb (ip.addrs ndirect) bn s ≡ panic "balloc: out of blocks"
    unfolding entry
    entry-full z e = rw (z, e)

    pub entry-Mapped :
        ((a : ℕ) × (s' : Fs) × (entry sb (ip.addrs ndirect) bn s ≡ ok (a, s'))
          × Mapped sb s ip (ndirect + bn) a s' ip)
        ⊎ ((entry sb (ip.addrs ndirect) bn s ≡ panic "balloc: out of blocks")
            × (owned s ip (ndirect + bn) ≡ 0)
            × IsFull sb s)
    entry-Mapped = elim (ℕ_discrete cell 0) [
      | no ne ↦ inl (
        cell,
        s,
        entry-old ne,
        rw owned-cell at (Mapped-refl sb s ip (ndirect + bn) v f (λ z. ne (sym owned-cell ∙ z))),
      )
      | yes z ↦ elim (balloc_lem sb s v) [
        | inr (full, all) ↦ inr (entry-full z full, owned-cell ∙ z, all)
        | inl (a, s1, got, al, _) ↦ inl (
          a,
          entered v f al bn,
          entry-new z got,
          Extends-Mapped v f (entry-Extends v f al bn h small some z),
        )
      ]
    ]
