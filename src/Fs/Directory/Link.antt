-- ===== src/Fs/Directory/Link.antt =====
-- `dirlink`, and `dirlookup` after it.
use os_lab_course_project.Prelude.{
  Bool-cases, ◌&&◌, ◌==◌, update, add32, ℕ, ◌*◌, ◌/◌, ◌%◌, ◌^◌, ◌<◌, ◌≤◌, ◌≡◌, ◌≢◌, ◌⊎◌, ◌∙◌, refl,
  sym, ap, Bool, true, false, arith, inl, inr, Option, none, some, Result, ok, panic, ◌>>=◌,
}
use mathlib.Core.Path.{subst₂}
use os_lab_course_project.Ptable.Scan.{scan-some}
use os_lab_course_project.Icache.{Cache, Entry, is_entry, ninode, iget, drop_inode}
use os_lab_course_project.Icache.Lookup.{look_up-cases}
use os_lab_course_project.Fs.Blocks.{get16, Fs, bsize}
use os_lab_course_project.Fs.Bitmap.{Super}
use os_lab_course_project.Fs.Inode.{Inode, maxfile}
use os_lab_course_project.Fs.Content.{Buffer, Device}
use os_lab_course_project.Fs.Content.Update.{content}
use os_lab_course_project.Fs.Content.Stored.{IsStored}
use os_lab_course_project.Fs.Content.Writei.{writei-Wrote}
use os_lab_course_project.Fs.Directory.{
  t_dir, dirent_size, is_empty, is_named, fill_entry, add_entry, link_new, refuse, Done, returned,
  asleep, iput, dirlookup, dirlink,
}
use os_lab_course_project.Fs.Directory.Entries.{entry_of, inum_of, find_name, is_empty-Same}
use os_lab_course_project.Fs.Directory.Seek.{seek-scan}
use os_lab_course_project.Fs.Directory.Lookup.{not_device, dirlookup_lem}
use os_lab_course_project.Fs.Directory.Fill.{fill_entry_bytes}
use os_lab_course_project.Fs.Directory.Linked.{Linked, write-Linked}

is_entry-inum : (dev n : ℕ) (e : Entry) → is_entry dev n e ≡ true → e.inum ≡ n
is_entry-inum dev n e h = ground (arith, h)

is_named-used : (name e : Buffer) → is_named name e ≡ true → get16 e 0 ≢ 0
is_named-used name e h = ground (arith, h)

not_last :
    (valid : Bool) (links refs : ℕ)
    → (valid ≡ true → links ≢ 0)
    → (valid && links == 0 && refs == 1) ≡ false
not_last false links refs h = refl
not_last true links refs h = ground (arith, h refl)

module _ (devsw : ℕ → Option Device) {sb : Super} {s : Fs} {dp : Inode} (h : IsStored sb s dp)
    (dir : dp.type ≡ t_dir) (whole : dp.size % dirent_size ≡ 0) (room : dp.size < maxfile * bsize)
    (name : Buffer) (bytes : (x : ℕ) → name x < 256) (inum : ℕ) (used : inum ≢ 0)
    (short : inum < 2 ^ 16) (dev : ℕ) (de : Buffer) (t : Cache) (copies : ℕ → Inode)
    (held : ℕ → Bool) where
  abbrev old : ℕ → ℕ
  old = content s dp

  abbrev put_found : Result (ℕ × Cache) → Result (Done × Inode × Fs × Cache × (ℕ → Inode))
  put_found r = r >>= λ (i, t'). iput sb held i t' copies s >>= λ r. ok (refuse dp s t' copies r)

  abbrev Added : Result (Done × Inode × Fs × Cache × (ℕ → Inode)) → Type 0
  Added r =
      ((j : ℕ) × (dp' : Inode) × (s' : Fs) × (r ≡ ok (returned (some 0), dp', s', t, copies))
        × Linked sb s dp name inum j s' dp')
      ⊎ (r ≡ panic "balloc: out of blocks")

  -- The write at entry `j`, where the second loop has stopped.
  write_entry :
      (j : ℕ) (d : Buffer) (found : Bool)
      → find_name old dp.size name ≡ none
      → j ≤ dp.size / dirent_size
      → (j < dp.size / dirent_size → is_empty (entry_of old j) ≡ true)
      → Added (add_entry devsw sb name inum t copies (found, dirent_size * j, d, dp, s))
  write_entry j d found missing inside was =
      elim (writei-Wrote devsw sb dp (fill_entry name inum d) (dirent_size * j) dirent_size s
        (not_device devsw h dir whole dev name de t) h (fill_entry_bytes name d inum bytes)
        (omega arith) (omega arith)) [
          | inl (dp', s', run, w) ↦ inl (
            j,
            dp',
            s',
            rw run refl,
            write-Linked name d inum j w whole room inside was used short missing,
          )
          | inr (run, lacks) ↦ inr (rw run refl)
        ]

  link_new-Added :
      find_name old dp.size name ≡ none
      → Added (link_new devsw sb held name inum de copies (none, dp, s, t))
  link_new-Added missing =
      elim (seek-scan devsw h (not_device devsw h dir whole dev name de t) is_empty "dirlink read"
        is_empty-Same dp.size (dp.size / dirent_size) 0 de (omega arith) (omega arith)) [
          | inl (j, d, found, run, same) ↦
              let (low, free) =
                scan-some (λ k. is_empty (entry_of old k)) (dp.size / dirent_size) j found in
              rw run (write_entry j d true missing (omega arith) (λ _. free))
          | inr (d, none_left, run) ↦
              let at_end : dp.size ≡ dirent_size * (dp.size / dirent_size) = omega arith in
              rw (run ∙ ap (λ (o : ℕ). ok (false, o, d, dp, s)) at_end) (
                write_entry (dp.size / dirent_size) d false missing (omega arith)
                  (λ l. absurd (omega arith)))
        ]

  dirlink-cases :
      ((j : ℕ) × (find_name old dp.size name ≡ some j)
        × (dirlink devsw sb held dev dp name inum de s t copies
            ≡ put_found (iget dev (inum_of old j) t)))
      ⊎ ((find_name old dp.size name ≡ none)
          × Added (dirlink devsw sb held dev dp name inum de s t copies))
  unfolding dirlink
  dirlink-cases = elim (dirlookup_lem devsw h dir whole dev name de t) [
    | inl (j, found, run) ↦
        inl (j, found, rw run (assoc (iget dev (inum_of old j) t) (dirent_size * j)))
    | inr (missing, run) ↦ inr (missing, rw run (link_new-Added missing))
  ]
    where
      assoc :
          (r : Result (ℕ × Cache)) (off : ℕ)
          → ((r >>= λ (i, t'). ok (some (i, off), dp, s, t'))
              >>= link_new devsw sb held name inum de copies)
            ≡ put_found r
      assoc (ok (i, t')) off = refl
      assoc (panic m) off = refl

  refuse_not :
      (r : Result (Option (Cache × (ℕ → Inode) × Fs))) (t1 : Cache) {dp' : Inode} {s' : Fs}
      {t' : Cache} {copies' : ℕ → Inode}
      → (r >>= λ x. ok (refuse dp s t1 copies x)) ≢ ok (returned (some 0), dp', s', t', copies')
  refuse_not (ok none) t1 e = absurd (cc)
  refuse_not (ok (some (t2, copies2, s2))) t1 e = absurd (cc)
  refuse_not (panic m) t1 e = absurd (cc)

  refused :
      (r : Result (ℕ × Cache)) {dp' : Inode} {s' : Fs} {t' : Cache} {copies' : ℕ → Inode}
      → put_found r ≢ ok (returned (some 0), dp', s', t', copies')
  refused (panic m) e = absurd (cc)
  refused (ok (i, t1)) e = refuse_not (iput sb held i t1 copies s) t1 e

  -- The inode of an entry, if it is in the cache and valid, has a link.
  abbrev AreLinked : Type 0
  AreLinked =
      (k i : ℕ)
      → inum_of old k ≢ 0
      → (t i).inum ≡ inum_of old k
      → (t i).valid ≡ true
      → (copies i).nlink ≢ 0

  -- What comes of an inode that has the name: its slot is in the cache, or there is no room for it. If the
  -- process holds its lock, `iput` sleeps; if not, -1 is returned and every count is as before.
  abbrev Refused : ℕ → Result (Done × Inode × Fs × Cache × (ℕ → Inode)) → Type 0
  Refused n r =
      (r ≡ panic "iget: no inodes")
      ⊎ ((i : ℕ) × (t' : Cache) × ((t' i).inum ≡ n)
          × (held i ≡ true)
          × (r ≡ ok (asleep, dp, s, t', copies)))
      ⊎ ((i : ℕ) × (t' : Cache) × ((t' i).inum ≡ n)
          × (held i ≡ false)
          × (r ≡ ok (returned none, dp, s, t', copies))
          × ((k : ℕ) → (t' k).ref ≡ (t k).ref))

  put_slot :
      (n i : ℕ) (t1 : Cache)
      → (t1 i).inum ≡ n
      → ((t1 i).valid && (copies i).nlink == 0 && (t1 i).ref == 1) ≡ false
      → ((k : ℕ) → (drop_inode i t1 k).ref ≡ (t k).ref)
      → Refused n (put_found (ok (i, t1)))
  unfolding drop_inode iput
  put_slot n i t1 named lasts same = elim (Bool-cases (held i)) [
    | inl e ↦ inr (inl (i, t1, named, e, rw (e, iput) refl))
    | inr e ↦
        inr (inr (i, drop_inode i t1, ground (arith, named), e, rw (e, iput) (rw lasts refl), same))
  ]

  put_found-Refused :
      (n : ℕ)
      → ((i : ℕ) → (t i).ref < 2 ^ 32)
      → ((i : ℕ) → (t i).inum ≡ n → (t i).valid ≡ true → (copies i).nlink ≢ 0)
      → Refused n (put_found (iget dev n t))
  unfolding iget drop_inode
  put_found-Refused n words linked = elim (look_up-cases dev n t ninode 0 none) [
    | inl (i, found, _, entry) ↦ rw found (
        put_slot n i (update t i (record (t i) { ref = add32 (t i).ref 1 }))
          (ground (arith, is_entry-inum dev n (t i) entry))
          (ground (
            arith,
            not_last (t i).valid (copies i).nlink (add32 (t i).ref 1)
                (linked i (is_entry-inum dev n (t i) entry)),
          ))
          (λ k. ground (arith, words i)))
    | inr (spot, found, inl empty, _) ↦ rw (found, empty) (inl refl)
    | inr (spot, found, inr (i, here, _, free), _) ↦
        rw (found, here)
          (put_slot n i (update t i (record { dev = dev; inum = n; ref = 1; valid = false }))
            (ground arith) (ground arith) (λ k. ground (arith, free)))
  ]

  -- `dirlink` of a name for an inode number that is not 0 and has 16 bits, in a stored directory of
  -- whole entries and of less than the largest size, the counts of the inode cache being words and the
  -- valid inodes of its entries having links. If the name is there, either it panics for lack of a slot
  -- in the cache; or the process holds the lock of the inode that has the name, and it sleeps for ever;
  -- or it returns -1, and the directory, the disk and the count of every slot are as before. If the name
  -- is not there, either it returns 0, the name is looked up as that number afterwards and every other
  -- name as before, the directory is stored and of whole entries again, and the inode cache is
  -- unchanged; or it panics, with the message of `balloc`. The panics of `log_write` are aside.
  pub dirlink_lem :
      ((i : ℕ) → (t i).ref < 2 ^ 32)
      → AreLinked
      → ((j : ℕ) × (find_name old dp.size name ≡ some j)
          × Refused (inum_of old j) (dirlink devsw sb held dev dp name inum de s t copies))
        ⊎ ((find_name old dp.size name ≡ none)
            × Added (dirlink devsw sb held dev dp name inum de s t copies))
  dirlink_lem words linked = elim dirlink-cases [
    | inr added ↦ inr added
    | inl (j, found, run) ↦
        let (low, named) =
          scan-some (λ k. is_named name (entry_of old k)) (dp.size / dirent_size) j found in
        inl (
          j,
          found,
          rw run (
              put_found-Refused (inum_of old j) words
                (λ i. linked j i (is_named-used name (entry_of old j) named))),
        )
  ]

  -- When `dirlink` of a name for an inode number has returned 0 (see `dirlink_lem` for the directory),
  -- `dirlookup` of the name returns a reference from `iget` to that inode, and the offset of an entry.
  pub dirlookup-dirlink :
      {dp' : Inode} {s' : Fs} {t' : Cache} {copies' : ℕ → Inode}
      → dirlink devsw sb held dev dp name inum de s t copies
        ≡ ok (returned (some 0), dp', s', t', copies')
      → (j : ℕ) × (dirlookup devsw sb dev dp' name de s' t'
          ≡ (iget dev inum t' >>= λ (i, t''). ok (some (i, dirent_size * j), dp', s', t'')))
  dirlookup-dirlink {dp'} {s'} {t'} {copies'} e = elim dirlink-cases [
    | inl (j, found, run) ↦ absurd (refused (iget dev (inum_of old j) t) (sym run ∙ e))
    | inr (missing, inr full) ↦ absurd (cc)
    | inr (missing, inl (j, dp1, s1, run, l)) ↦
        let a : dp1 ≡ dp' = cc in
        let b : s1 ≡ s' = cc in
        let linked = subst₂ (Linked sb s dp name inum j) b a l in
        elim (dirlookup_lem devsw linked.stored (linked.type ∙ dir) linked.whole dev name de t') [
          | inr (none_there, looked) ↦ absurd (cc)
          | inl (i, found, looked) ↦
              let same : i ≡ j = cc in
              (
                i,
                looked
                    ∙ ap
                        (λ (n : ℕ). iget dev n t' >>= λ (k, t'').
                          ok (some (k, dirent_size * i), dp', s', t''))
                        (ap (inum_of (content s' dp')) same ∙ linked.numbered),
              )
        ]
  ]
