-- ===== src/Fs/Directory/Linked.antt =====
-- A directory, seen as a map from names to inode numbers, after an entry has been written into it.
use os_lab_course_project.Prelude.{
  ℕ, ◌+◌, ◌-◌, ◌*◌, ◌/◌, ◌%◌, ◌^◌, ◌<◌, ◌≤◌, ◌≡◌, ◌≢◌, ◌∙◌, refl, sym, ap, not, ◌&&◌, ltb,
  if◌then◌else◌, Bool, true, false, arith, inl, inr, Option, none, some,
}
use mathlib.Core.Path.{subst}
use os_lab_course_project.Ptable.Scan.{scan, scan-cases}
use os_lab_course_project.Fs.Blocks.{Fs}
use os_lab_course_project.Fs.Bitmap.{Super}
use os_lab_course_project.Fs.Inode.{Inode, maxfile}
use os_lab_course_project.Fs.Blocks.{bsize}
use os_lab_course_project.Fs.Content.{Buffer}
use os_lab_course_project.Fs.Content.Update.{content}
use os_lab_course_project.Fs.Content.Round.{}
use os_lab_course_project.Fs.Content.Stored.{IsStored, Wrote}
use os_lab_course_project.Fs.Directory.{
  dirent_size, name_of, same_name, is_empty, is_named, fill_entry,
}
use os_lab_course_project.Fs.Directory.Entries.{
  entry_of, inum_of, find_name, Same, get16-Same, is_named-Same,
}
use os_lab_course_project.Fs.Directory.Fill.{same_name_refl, same_name-fill_entry, get16-fill_entry}
use os_lab_course_project.Fs.Directory.Insert.{scan_inserted, scan_kept}

-- The inode number that a name has.
abbrev pub number : (ℕ → ℕ) → ℕ → Buffer → Option ℕ
number c size name = inum_at c (find_name c size name)
  where
    inum_at : (ℕ → ℕ) → Option ℕ → Option ℕ
    inum_at c none = none
    inum_at c (some k) = some (inum_of c k)

-- The directory `dp'` has `name` for `inum`, in entry `slot`, and every other name as `dp` has it.
pub record Linked (sb : Super) (s : Fs) (dp : Inode) (name : Buffer) (inum slot : ℕ) (s' : Fs)
    (dp' : Inode) : Type 0 where
  pub there : find_name (content s' dp') dp'.size name ≡ some slot
  pub numbered : inum_of (content s' dp') slot ≡ inum
  pub others :
      (other : Buffer)
      → same_name other name ≡ false
      → number (content s' dp') dp'.size other ≡ number (content s dp) dp.size other
  pub type : dp'.type ≡ dp.type
  pub whole : dp'.size % dirent_size ≡ 0
  pub stored : IsStored sb s' dp'

not_empty : (a b : Bool) → (not a && b) ≡ true → a ≡ false
not_empty true b h = sym h
not_empty false b h = refl

module _ {sb : Super} {s s' : Fs} {dp dp' : Inode} (name de : Buffer) (inum j : ℕ)
    (w : Wrote sb s dp (dirent_size * j) dirent_size (fill_entry name inum de) s' dp')
    (whole : dp.size % dirent_size ≡ 0) (room : dp.size < maxfile * bsize)
    (inside : j ≤ dp.size / dirent_size)
    (was : j < dp.size / dirent_size → is_empty (entry_of (content s dp) j) ≡ true)
    (used : inum ≢ 0) (short : inum < 2 ^ 16) where
  abbrev old : ℕ → ℕ
  old = content s dp

  abbrev new : ℕ → ℕ
  new = content s' dp'

  abbrev written : Buffer
  written = fill_entry name inum de

  written-Same : Same (entry_of new j) written
  written-Same x h =
      w.bytes (dirent_size * j + x) (omega arith)
      ∙ ground (arith, ap written {x = 0 + (dirent_size * j + x - dirent_size * j)} {y = x})

  kept-Same : (k : ℕ) → k < dp.size / dirent_size → k ≢ j → Same (entry_of new k) (entry_of old k)
  kept-Same k h ne x l = w.bytes (dirent_size * k + x) (omega arith) ∙ ground arith

  inum-written : inum_of new j ≡ inum
  inum-written =
      get16-Same (entry_of new j) written written-Same ∙ get16-fill_entry name de inum short

  named_written : (other : Buffer) → is_named other (entry_of new j) ≡ same_name other name
  named_written other =
      is_named-Same other (entry_of new j) written written-Same
      ∙ rw (get16-fill_entry name de inum short)
          (rw (same_name-fill_entry name de inum other) (ground arith))

  kept_named :
      (other : Buffer) (k : ℕ)
      → k < dp.size / dirent_size
      → k ≢ j
      → is_named other (entry_of new k) ≡ is_named other (entry_of old k)
  kept_named other k h ne = is_named-Same other (entry_of new k) (entry_of old k) (kept-Same k h ne)

  abbrev before : Buffer → ℕ → Bool
  before other k = is_named other (entry_of old k)

  abbrev after : Buffer → ℕ → Bool
  after other k = is_named other (entry_of new k)

  entries :
      (if ltb (dp.size / dirent_size) (j + 1) then j + 1 else dp.size / dirent_size)
      ≡ dp'.size / dirent_size
  entries = ground (arith, w.size)

  find_written : find_name old dp.size name ≡ none → find_name new dp'.size name ≡ some j
  find_written missing =
      ap (λ (n : ℕ). scan (after name) n 0) (sym entries)
      ∙ scan_inserted (before name) (after name) (dp.size / dirent_size) j inside (kept_named name)
          missing (named_written name ∙ same_name_refl name)

  find_other :
      (other : Buffer)
      → same_name other name ≡ false
      → find_name new dp'.size other ≡ find_name old dp.size other
  find_other other differs =
      ap (λ (n : ℕ). scan (after other) n 0) (sym entries)
      ∙ scan_kept (before other) (after other) (dp.size / dirent_size) j inside (kept_named other)
          (named_written other ∙ differs) (λ h. rw (was h) refl)

  number_other :
      (other : Buffer)
      → same_name other name ≡ false
      → number new dp'.size other ≡ number old dp.size other
  number_other other differs = elim (scan-cases (before other) (dp.size / dirent_size) 0) [
    | inr (e, out) ↦ rw (find_other other differs ∙ e) (rw e refl)
    | inl (k, e, p, q, hit, out) ↦
        let apart : k ≢ j = λ same.
          let empty =
            subst (λ (i : ℕ). is_empty (entry_of old i) ≡ true) (sym same) (was (omega arith)) in
          let taken =
            not_empty (is_empty (entry_of old k)) (same_name other (name_of (entry_of old k)))
              hit in
          absurd (cc) in
        rw (find_other other differs ∙ e) (
          rw e (
            ap some
              (get16-Same (entry_of new k) (entry_of old k) (kept-Same k (omega arith) apart))))
  ]

  pub write-Linked : find_name old dp.size name ≡ none → Linked sb s dp name inum j s' dp'
  write-Linked missing = record {
    there = find_written missing;
    numbered = inum-written;
    others = number_other;
    type = w.type;
    whole = ground (arith, w.size);
    stored = w.stored;
  }
