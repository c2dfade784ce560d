-- ===== src/Fs/Content/Round.antt =====
-- One round of the loop of `writei`: the block at an offset, and a piece of the buffer in it.
use Prim.Native.Nat.{}
use os_lab_course_project.Prelude.{
  ℕ, ◌+◌, ◌-◌, ◌*◌, ◌/◌, ◌%◌, ◌≤◌, ◌<◌, ◌≡◌, ◌≢◌, ◌∙◌, refl, sym, ap, ◌==◌, ==_ne, ◌&&◌, ltb, leb,
  if◌then◌else◌, arith, Bool-cases, inl, inr,
}
use mathlib.Core.Path.{subst}
use os_lab_course_project.Fs.Blocks.{Block, Fs, bsize, log_data}
use os_lab_course_project.Fs.Bitmap.{Super}
use os_lab_course_project.Fs.Bitmap.Scan.{IsSane}
use os_lab_course_project.Fs.Inode.{Inode, ndirect, maxfile}
use os_lab_course_project.Fs.Inode.Owned.{owned, IsUsed, IsFile}
use os_lab_course_project.Fs.Inode.Slot.{Mapped}
use os_lab_course_project.Fs.Content.{Buffer, blit, piece}
use os_lab_course_project.Fs.Content.Update.{
  byte_in, content, Kept, Kept-trans, Grew-Kept, content-Grew,
}
use os_lab_course_project.Fs.Content.Data.{owned-stored, stored-Kept, content-stored}

-- The bytes of the buffer from `tot` on, at the `len` places from `off` on.
abbrev pub overlay : (ℕ → ℕ) → ℕ → Buffer → ℕ → ℕ → ℕ → ℕ
overlay old off src tot len p =
    if leb off p && ltb p (off + len) then src (tot + (p - off)) else old p

-- A piece stays in the block of its offset.
piece-le : (left off : ℕ) → off % bsize + piece left off ≤ bsize
piece-le left off = omega arith

-- Seen from the file, a piece in a block is an overlay at its offset.
overlay-piece :
    (old : ℕ → ℕ) (block : Block) (src : Buffer) (off m tot p : ℕ)
    → off % bsize + m ≤ bsize
    → (p / bsize ≡ off / bsize → old p ≡ block (p % bsize))
    → (if p / bsize == off / bsize then blit block (off % bsize) src tot m (p % bsize) else old p)
      ≡ overlay old off src tot m p
overlay-piece old block src off m tot p h e = elim (Bool-cases (p / bsize == off / bsize)) [
  | inr ne ↦ ground arith
  | inl same ↦
      let here = e (ground arith) in
      ground (arith, ap src {x = tot + (p % bsize - off % bsize)} {y = tot + (p - off)})
]

module _ {sb : Super} {s s1 : Fs} {ip ip1 : Inode} {a : ℕ} (off left tot : ℕ) (src : Buffer)
    (v : IsSane sb s) (f : IsFile sb s ip) (m : Mapped sb s ip (off / bsize) a s1 ip1)
    (inside : off < maxfile * bsize) (bytes : (x : ℕ) → src x < 256) where
  here_used : IsUsed sb s1 a
  here_used =
      subst (IsUsed sb s1) m.at
        (m.grew.file.inside (off / bsize) (omega arith) (λ z. m.nonzero (sym m.at ∙ z)))

  not_indirect : ip1.addrs ndirect ≢ a
  not_indirect e =
      let same : off / bsize ≡ maxfile =
        m.grew.file.distinct (off / bsize) maxfile (omega arith) (omega arith)
          (λ z. m.nonzero (sym m.at ∙ z)) (m.at ∙ sym e) in
      omega arith

  abbrev pub filled : Block
  filled = blit (s1.blocks a) (off % bsize) src tot (piece left off)

  filled_small : (y : ℕ) → filled y < 256
  filled_small y = ground (arith, bytes (tot + (y - off % bsize)), m.grew.sane.bytes a y)

  abbrev pub after : Fs
  after = log_data a filled s1

  pub round-Kept : Kept sb s ip after ip1
  round-Kept = Kept-trans (Grew-Kept m.grew) (
      stored-Kept m.grew.sane m.grew.file a here_used not_indirect filled filled_small (off / bsize)
        (omega arith) m.at)

  pub round_mapped : owned after ip1 (off / bsize) ≢ 0
  round_mapped z = m.nonzero (
      sym m.at
      ∙ sym (
          owned-stored m.grew.sane m.grew.file a here_used not_indirect filled filled_small
            (off / bsize))
      ∙ z)

  content-here : (p : ℕ) → p / bsize ≡ off / bsize → content s1 ip1 p ≡ s1.blocks a (p % bsize)
  content-here p e =
      ap (λ (b : ℕ). byte_in s1 b (p % bsize)) (ap (owned s1 ip1) e ∙ m.at)
      ∙ rw (==_ne a 0 m.nonzero) refl

  pub content-round :
      (p : ℕ)
      → p < maxfile * bsize
      → content after ip1 p ≡ overlay (content s ip) off src tot (piece left off) p
  content-round p h =
      content-stored m.grew.sane m.grew.file a here_used not_indirect filled filled_small
        (off / bsize) p (omega arith) h m.at
      ∙ overlay-piece (content s1 ip1) (s1.blocks a) src off (piece left off) tot p
          (piece-le left off) (content-here p)
      ∙ ap
          (λ (c : ℕ).
            if leb off p && ltb p (off + piece left off) then src (tot + (p - off)) else c)
          (content-Grew m.grew f p h)
