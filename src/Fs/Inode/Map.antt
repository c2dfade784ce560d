-- ===== src/Fs/Inode/Map.antt =====
-- `bmap`: the block of an index of the file, allocated if there was none.
use os_lab_course_project.Prelude.{
  ℕ, ◌+◌, ◌-◌, ◌^◌, ◌≤◌, ◌<◌, ◌≡◌, ◌≢◌, ◌⊎◌, inl, inr, refl, sym, true, false, ltb, Result, ok,
  panic, ◌>>=◌, arith, ap, ◌∙◌,
}
use native.Mathlib.Decide.{ℕ_discrete, dec_lt}
use os_lab_course_project.Fs.Blocks.{Fs}
use os_lab_course_project.Fs.Bitmap.{Super}
use os_lab_course_project.Fs.Bitmap.Scan.{IsSane, IsFull}
use os_lab_course_project.Fs.Bitmap.Alloc.{}
use os_lab_course_project.Fs.Inode.{Inode, ndirect, nindirect, maxfile, slot, entry, bmap}
use os_lab_course_project.Fs.Inode.Owned.{owned, IsFile}
use os_lab_course_project.Fs.Inode.Grow.{Grew-trans}
use os_lab_course_project.Fs.Inode.Extend.{direct-Extends, indirect-Extends}
use os_lab_course_project.Fs.Inode.Slot.{
  Mapped, Spends, IsNearlyFull, slot-Mapped, slot-old, entry-Mapped, entry-old, owned-cell,
}

-- The result of `bmap` at index `bn`, or the disk had at most one free block.
abbrev pub MapResult : Super → Fs → Inode → ℕ → Result (ℕ × Inode × Fs) → Type 0
MapResult sb s ip bn r =
    ((a : ℕ) × (ip' : Inode) × (s' : Fs) × (r ≡ ok (a, ip', s')) × Mapped sb s ip bn a s' ip')
    ⊎ ((r ≡ panic "balloc: out of blocks") × (owned s ip bn ≡ 0) × IsNearlyFull sb s)

bmap-below :
    (sb : Super) (s : Fs) (ip : Inode) (bn : ℕ) → bn < ndirect → bmap sb ip bn s ≡ slot sb ip bn s
unfolding bmap
bmap-below sb s ip bn h = ground arith

module _ (sb : Super) (s : Fs) (ip : Inode) (bn : ℕ) (low : ndirect ≤ bn)
    (high : bn < maxfile) where
  abbrev via_indirect : Result (ℕ × Inode × Fs)
  via_indirect = slot sb ip ndirect s >>= λ (addr, ip', s').
      entry sb addr (bn - ndirect) s' >>= λ (a, s''). ok (a, ip', s'')

  bmap-above : bmap sb ip bn s ≡ via_indirect
  unfolding bmap
  bmap-above =
      let far : ltb bn ndirect ≡ false = ground arith in
      let near : ltb (bn - ndirect) nindirect ≡ true = ground arith in rw (far, near)

  via_indirect-ok :
      {addr a : ℕ} {ip' : Inode} {s' s'' : Fs}
      → slot sb ip ndirect s ≡ ok (addr, ip', s')
      → entry sb addr (bn - ndirect) s' ≡ ok (a, s'')
      → bmap sb ip bn s ≡ ok (a, ip', s'')
  via_indirect-ok e f = bmap-above ∙ rw (e, f)

  via_indirect-full :
      {addr : ℕ} {ip' : Inode} {s' : Fs}
      → slot sb ip ndirect s ≡ ok (addr, ip', s')
      → entry sb addr (bn - ndirect) s' ≡ panic "balloc: out of blocks"
      → bmap sb ip bn s ≡ panic "balloc: out of blocks"
  via_indirect-full e f = bmap-above ∙ rw (e, f)

  via_indirect-none :
      slot sb ip ndirect s ≡ panic "balloc: out of blocks"
      → bmap sb ip bn s ≡ panic "balloc: out of blocks"
  via_indirect-none e = bmap-above ∙ rw e

bmap-past :
    (sb : Super) (s : Fs) (ip : Inode) (bn : ℕ)
    → maxfile ≤ bn
    → bmap sb ip bn s ≡ panic "bmap: out of range"
unfolding bmap
bmap-past sb s ip bn h = ground arith

-- Two allocations, of the indirect block and of one of its entries.
Mapped-trans :
    {sb : Super} {s t u : Fs} {ip iq ir : Inode} {b a : ℕ} (k : ℕ)
    → Mapped sb s ip maxfile b t iq
    → Mapped sb t iq k a u ir
    → Mapped sb s ip k a u ir
Mapped-trans k p q = record {
  at = q.at;
  nonzero = q.nonzero;
  only = λ i h ne. q.only i h ne ∙ p.only i h (omega arith);
  grew = Grew-trans p.grew q.grew;
}

IsNearlyFull-of : (sb : Super) (s s' : Fs) → Spends sb s s' → IsFull sb s' → IsNearlyFull sb s
IsNearlyFull-of sb s s' (c, spent) full i j h l fi fj = elim (ℕ_discrete i c) [
  | no ne ↦ absurd (cc (spent i h (full i h) ne, fi))
  | yes e ↦ elim (ℕ_discrete j c) [
    | no ne ↦ absurd (cc (spent j l (full j l) ne, fj))
    | yes e' ↦ e ∙ sym e'
  ]
]

full-nearly : (sb : Super) (s : Fs) → IsFull sb s → IsNearlyFull sb s
full-nearly sb s full i j h l fi fj = absurd (cc (full i h, fi))

module _ (sb : Super) (s : Fs) (ip : Inode) (v : IsSane sb s) (f : IsFile sb s ip) where
  bmap-direct : (bn : ℕ) → bn < ndirect → MapResult sb s ip bn (bmap sb ip bn s)
  bmap-direct bn h =
      rw (bmap-below sb s ip bn h)
        (elim (slot-Mapped sb s ip v f bn bn (ground arith)
          (λ a s' z al. direct-Extends v f al bn h z)) [
            | inl (a, ip', s', e, m, _) ↦ inl (a, ip', s', e, m)
            | inr (e, z, full) ↦ inr (e, z, full-nearly sb s full)
          ])

  entry-after :
      (bn : ℕ) (low : ndirect ≤ bn) (high : bn < maxfile) {addr : ℕ} {ip' : Inode} {s' : Fs}
      → sb.size < 2 ^ 32
      → slot sb ip ndirect s ≡ ok (addr, ip', s')
      → Mapped sb s ip maxfile addr s' ip'
      → Spends sb s s'
      → MapResult sb s ip bn (bmap sb ip bn s)
  entry-after bn low high {addr} {ip'} {s'} small e m sp =
      let same : ndirect + (bn - ndirect) ≡ bn = omega arith in
      elim (entry-Mapped sb s' ip' m.grew.sane m.grew.file (bn - ndirect) small (omega arith)
        (λ z. m.nonzero (sym m.at ∙ z))) [
          | inl (a, u, r, n) ↦ inl (
            a,
            ip',
            u,
            via_indirect-ok sb s ip bn low high e
                (ap (λ (b : ℕ). entry sb b (bn - ndirect) s') (sym m.at) ∙ r),
            Mapped-trans bn m (rw same at n),
          )
          | inr (r, z, full) ↦ inr (
            via_indirect-full sb s ip bn low high e
                (ap (λ (b : ℕ). entry sb b (bn - ndirect) s') (sym m.at) ∙ r),
            sym (m.only bn high (omega arith)) ∙ rw same at z,
            IsNearlyFull-of sb s s' sp full,
          )
        ]

  bmap-indirect :
      (bn : ℕ)
      → ndirect ≤ bn
      → bn < maxfile
      → sb.size < 2 ^ 32
      → MapResult sb s ip bn (bmap sb ip bn s)
  bmap-indirect bn low high small =
      elim (slot-Mapped sb s ip v f ndirect maxfile refl (λ a s' z al. indirect-Extends v f al z)) [
        | inl (addr, ip', s', e, m, sp) ↦ entry-after bn low high small e m sp
        | inr (e, z, full) ↦
            inr (via_indirect-none sb s ip bn low high e, ground (arith, z), full-nearly sb s full)
      ]

-- On a sane file system below 2 ^ 32 blocks, `bmap` of an index below MAXFILE returns the block that
-- the file has there afterwards; no other index changes, a block that is new holds zeros, and a block
-- that the file had is kept, with its data, as is every block in use but the indirect block and the
-- free map. Where it panics instead, the file had no block there and at most one block was free.
-- Past MAXFILE it panics.
pub bmap_lem :
    (sb : Super) (s : Fs) (ip : Inode) (bn : ℕ)
    → sb.size < 2 ^ 32
    → IsSane sb s
    → IsFile sb s ip
    → ((bn < maxfile) × MapResult sb s ip bn (bmap sb ip bn s))
      ⊎ ((maxfile ≤ bn) × (bmap sb ip bn s ≡ panic "bmap: out of range"))
bmap_lem sb s ip bn small v f = elim (dec_lt bn maxfile) [
  | no h ↦ inr (omega arith, bmap-past sb s ip bn (omega arith))
  | yes h ↦ inl (
    h,
    elim (dec_lt bn ndirect) [
      | yes l ↦ bmap-direct sb s ip v f bn l
      | no l ↦ bmap-indirect sb s ip v f bn (omega arith) h small
    ],
  )
]

-- An index that has a block keeps everything as it is.
pub bmap-kept :
    (sb : Super) (s : Fs) (ip : Inode) (bn : ℕ)
    → sb.size < 2 ^ 32
    → IsSane sb s
    → IsFile sb s ip
    → bn < maxfile
    → owned s ip bn ≢ 0
    → bmap sb ip bn s ≡ ok (owned s ip bn, ip, s)
bmap-kept sb s ip bn small v f h ne = elim (dec_lt bn ndirect) [
  | yes l ↦
      let here : owned s ip bn ≡ ip.addrs bn = ground arith in
      bmap-below sb s ip bn l
      ∙ slot-old sb s ip v f bn (λ z. ne (here ∙ z))
      ∙ ap (λ (a : ℕ). ok (a, ip, s)) (sym here)
  | no l ↦
      let some : ip.addrs ndirect ≢ 0 = λ z. ne (ground (arith, z)) in
      let k = bn - ndirect in
      let same : ndirect + k ≡ bn = omega arith in
      let here = sym (ap (owned s ip) same) ∙ owned-cell sb s ip v f k small (omega arith) some in
      via_indirect-ok sb s ip bn (omega arith) h (slot-old sb s ip v f ndirect some)
        (entry-old sb s ip v f k small (omega arith) some (λ z. ne (here ∙ z)))
      ∙ ap (λ (a : ℕ). ok (a, ip, s)) (sym here)
]
