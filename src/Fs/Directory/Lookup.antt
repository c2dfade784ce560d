-- ===== src/Fs/Directory/Lookup.antt =====
-- `dirlookup` finds the first entry with the name.
use os_lab_course_project.Prelude.{
  ℕ, ◌*◌, ◌/◌, ◌%◌, ◌≡◌, ◌≢◌, ◌⊎◌, ◌∙◌, refl, ap, arith, inl, inr, Option, none, some, ok, ◌>>=◌,
}
use os_lab_course_project.Icache.{Cache, iget}
use os_lab_course_project.Fs.Blocks.{Fs}
use os_lab_course_project.Fs.Bitmap.{Super}
use os_lab_course_project.Fs.Inode.{Inode}
use os_lab_course_project.Fs.Content.{Buffer, Device, t_dev}
use os_lab_course_project.Fs.Content.Update.{content}
use os_lab_course_project.Fs.Content.Stored.{IsStored}
use os_lab_course_project.Fs.Directory.{t_dir, dirent_size, fetch, is_named, seek, dirlookup}
use os_lab_course_project.Fs.Directory.Entries.{
  entry_of, inum_of, find_name, get16-Same, is_named-Same,
}
use os_lab_course_project.Fs.Directory.Seek.{seek-scan}

module _ (devsw : ℕ → Option Device) {sb : Super} {s : Fs} {dp : Inode} (h : IsStored sb s dp)
    (dir : dp.type ≡ t_dir) (whole : dp.size % dirent_size ≡ 0) (dev : ℕ) (name de : Buffer)
    (t : Cache) where
  pub not_device : dp.type ≢ t_dev
  not_device = omega arith

  dirlookup-run :
      dirlookup devsw sb dev dp name de s t
      ≡ (seek devsw sb (is_named name) "dirlookup read" dp.size 0 dp de s >>= fetch dev t)
  unfolding dirlookup
  dirlookup-run = rw dir refl

  -- `dirlookup` in a stored directory of whole entries: the entry in use that it finds is the first with
  -- that name, it returns a reference from `iget` to the inode of the entry and the entry's offset, or
  -- 0 if no entry has the name; and the directory and the disk are unchanged.
  pub dirlookup_lem :
      ((j : ℕ) × (find_name (content s dp) dp.size name ≡ some j)
        × (dirlookup devsw sb dev dp name de s t ≡ (
            iget dev (inum_of (content s dp) j) t >>= λ (i, t').
            ok (some (i, dirent_size * j), dp, s, t'))))
      ⊎ ((find_name (content s dp) dp.size name ≡ none)
          × (dirlookup devsw sb dev dp name de s t ≡ ok (none, dp, s, t)))
  dirlookup_lem =
      elim (seek-scan devsw h not_device (is_named name) "dirlookup read" (is_named-Same name)
        dp.size (dp.size / dirent_size) 0 de (omega arith) (omega arith)) [
          | inl (j, de', found, run, same) ↦ inl (
            j,
            found,
            dirlookup-run
                ∙ rw run (
                    ap
                      (λ (n : ℕ).
                        iget dev n t >>= λ (i, t'). ok (some (i, dirent_size * j), dp, s, t'))
                      (get16-Same de' (entry_of (content s dp) j) same)),
          )
          | inr (de', none_left, run) ↦ inr (none_left, dirlookup-run ∙ rw run refl)
        ]
