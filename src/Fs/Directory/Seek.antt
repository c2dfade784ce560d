-- ===== src/Fs/Directory/Seek.antt =====
-- The loop over the entries of a stored directory.
use os_lab_course_project.Prelude.{
  ℕ, zero, suc, ◌+◌, ◌*◌, ◌≤◌, ◌≡◌, ◌≢◌, ◌⊎◌, ◌∙◌, refl, ap, Bool, true, false, ltb, if◌then◌else◌,
  arith, Bool-cases, inl, inr, Option, none, some, ok, add32,
}
use Prim.Native.String.{String}
use os_lab_course_project.Ptable.Scan.{scan}
use os_lab_course_project.Fs.Blocks.{Fs}
use os_lab_course_project.Fs.Bitmap.{Super}
use os_lab_course_project.Fs.Inode.{Inode}
use os_lab_course_project.Fs.Content.{Buffer, Device, t_dev, readi}
use os_lab_course_project.Fs.Content.Update.{content}
use os_lab_course_project.Fs.Content.Stored.{IsStored}
use os_lab_course_project.Fs.Content.Read.{available, readi_lem}
use os_lab_course_project.Fs.Directory.{dirent_size, seek}
use os_lab_course_project.Fs.Directory.Entries.{entry_of, Same}

module _ (devsw : ℕ → Option Device) (sb : Super) (test : Buffer → Bool) (message : String)
    (fuel off : ℕ) (dp : Inode) (de : Buffer) (s : Fs) where
  seek-end :
      ltb off dp.size ≡ false
      → seek devsw sb test message (suc fuel) off dp de s ≡ ok (false, off, de, dp, s)
  unfolding seek
  seek-end e = rw (e, seek) refl

  seek-hit :
      (de' : Buffer)
      → ltb off dp.size ≡ true
      → readi devsw sb dp de off dirent_size s ≡ ok (some dirent_size, de', dp, s)
      → test de' ≡ true
      → seek devsw sb test message (suc fuel) off dp de s ≡ ok (true, off, de', dp, s)
  unfolding seek
  seek-hit de' e r h = rw (e, seek) (rw (r, seek) (rw h refl))

  seek-next :
      (de' : Buffer)
      → ltb off dp.size ≡ true
      → readi devsw sb dp de off dirent_size s ≡ ok (some dirent_size, de', dp, s)
      → test de' ≡ false
      → seek devsw sb test message (suc fuel) off dp de s
        ≡ seek devsw sb test message fuel (add32 off dirent_size) dp de' s
  unfolding seek
  seek-next de' e r h = rw (e, seek) (rw (r, seek) (rw (h, seek) refl))

module _ (devsw : ℕ → Option Device) {sb : Super} {s : Fs} {dp : Inode} (t : IsStored sb s dp)
    (regular : dp.type ≢ t_dev) where
  abbrev bytes : ℕ → ℕ
  bytes = content s dp

  -- An entry is read whole.
  read_entry :
      (k : ℕ) (de : Buffer)
      → dirent_size * k + dirent_size ≤ dp.size
      → (de' : Buffer) × (readi devsw sb dp de (dirent_size * k) dirent_size s
          ≡ ok (some dirent_size, de', dp, s))
        × Same de' (entry_of bytes k)
  read_entry k de h =
      let off = dirent_size * k in
      let all : available devsw t regular de off dirent_size ≡ dirent_size = ground arith in
      let (de', r, got) =
        readi_lem devsw t regular de off dirent_size (omega arith) (omega (arith, t.fits)) in
      (
        de',
        r ∙ ap (λ (n : ℕ). ok (some n, de', dp, s)) all,
        λ x b. got x ∙ ap (λ (n : ℕ). if ltb x n then bytes (off + x) else de x) all ∙ ground arith,
      )

  module _ (test : Buffer → Bool) (message : String)
      (alike : (d e : Buffer) → Same d e → test d ≡ test e) where
    at_end :
        (fuel k : ℕ) (de : Buffer)
        → dirent_size * k ≡ dp.size
        → seek devsw sb test message fuel (dirent_size * k) dp de s ≡ ok (false, dp.size, de, dp, s)
    unfolding seek
    at_end zero k de e = ap (λ (o : ℕ). ok (false, o, de, dp, s)) e
    at_end (suc fuel) k de e =
        seek-end devsw sb test message fuel (dirent_size * k) dp de s (ground arith)
        ∙ ap (λ (o : ℕ). ok (false, o, de, dp, s)) e

    -- The loop from entry `k` on, with `r` entries left.
    pub seek-scan :
        (fuel r k : ℕ) (de : Buffer)
        → r ≤ fuel
        → dirent_size * (k + r) ≡ dp.size
        → ((j : ℕ) × (de' : Buffer) × (scan (λ i. test (entry_of bytes i)) r k ≡ some j)
            × (seek devsw sb test message fuel (dirent_size * k) dp de s
                ≡ ok (true, dirent_size * j, de', dp, s))
            × Same de' (entry_of bytes j))
          ⊎ ((de' : Buffer) × (scan (λ i. test (entry_of bytes i)) r k ≡ none)
              × (seek devsw sb test message fuel (dirent_size * k) dp de s
                  ≡ ok (false, dp.size, de', dp, s)))
    unfolding scan
    seek-scan zero zero k de h e = inr (de, refl, at_end zero k de (omega arith))
    seek-scan zero (suc r) k de h e = absurd (omega arith)
    seek-scan (suc fuel) zero k de h e = inr (de, refl, at_end (suc fuel) k de (omega arith))
    seek-scan (suc fuel) (suc r) k de h e =
        let (de', read, same) = read_entry k de (omega arith) in
        let more : ltb (dirent_size * k) dp.size ≡ true = ground arith in
        elim (Bool-cases (test (entry_of bytes k))) [
          | inl hit ↦ inl (
            k,
            de',
            rw hit refl,
            seek-hit devsw sb test message fuel (dirent_size * k) dp de s de' more read
                (alike de' (entry_of bytes k) same ∙ hit),
            same,
          )
          | inr miss ↦
              let here : scan (λ i. test (entry_of bytes i)) (suc r) k
                  ≡ scan (λ i. test (entry_of bytes i)) r (k + 1) =
                rw (miss, scan) refl in
              let step =
                seek-next devsw sb test message fuel (dirent_size * k) dp de s de' more read
                  (alike de' (entry_of bytes k) same ∙ miss)
                ∙ ap (λ (o : ℕ). seek devsw sb test message fuel o dp de' s)
                    {y = dirent_size * (k + 1)} (omega (arith, t.fits)) in
              elim (seek-scan fuel r (k + 1) de' (omega arith) (omega arith)) [
                | inl (j, d, found, run, entry) ↦ inl (j, d, here ∙ found, step ∙ run, entry)
                | inr (d, none_left, run) ↦ inr (d, here ∙ none_left, step ∙ run)
              ]
        ]
