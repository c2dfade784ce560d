-- ===== src/Fs/Directory/Tests.antt =====
-- Directories on the sample disk: a directory of two entries that are in use.
use os_lab_course_project.Prelude.{
  Bool, true, ℕ, ◌≡◌, ◌⊎◌, ◌*◌, ◌>>=◌, refl, false, none, some, Result, ok, panic, arith,
}
use os_lab_course_project.CString.{strncmp}
use os_lab_course_project.Icache.{Cache, iget}
use os_lab_course_project.Ptable.Scan.{}
use os_lab_course_project.Fs.Blocks.{Fs, get16}
use os_lab_course_project.Fs.Inode.{Inode, bmap, slot}
use os_lab_course_project.Fs.Content.{Buffer, readi, read_from, writei, write_from, grow_size}
use os_lab_course_project.Fs.Content.Update.{content}
use os_lab_course_project.Fs.Directory.{Done, returned, asleep, seek, same_name, dirlookup, dirlink}
use os_lab_course_project.Fs.Directory.Entries.{inum_of, find_name}
use os_lab_course_project.Fs.Directory.Lookup.{dirlookup_lem}
use os_lab_course_project.Fs.Directory.Linked.{Linked}
use os_lab_course_project.Fs.Directory.Link.{dirlink_lem, dirlookup-dirlink}
use os_lab_course_project.Fs.Sample.{super, disk, sample, sample-IsStored, no_devices, fives}

abbrev folder : Inode
folder = sample 1 32

abbrev cache : Cache
cache i = record { dev = 0; inum = 0; ref = 0; valid = false }

abbrev copies : ℕ → Inode
copies i = folder

abbrev no_lock : ℕ → Bool
no_lock i = false

abbrev sevens : Buffer
sevens x = 7

dirlookup_lem_example :
    ((j : ℕ) × (find_name (content disk folder) 32 sevens ≡ some j)
      × (dirlookup no_devices super 1 folder sevens fives disk cache ≡ (
          iget 1 (inum_of (content disk folder) j) cache >>= λ (i, t').
          ok (some (i, 16 * j), folder, disk, t'))))
    ⊎ ((find_name (content disk folder) 32 sevens ≡ none)
        × (dirlookup no_devices super 1 folder sevens fives disk cache
            ≡ ok (none, folder, disk, cache)))
dirlookup_lem_example =
    dirlookup_lem no_devices (sample-IsStored 1 32 (omega arith)) refl refl 1 sevens fives cache

-- What the new name for inode 3 gives.
abbrev outcome : Result (Done × Inode × Fs × Cache × (ℕ → Inode))
outcome = dirlink no_devices super no_lock 1 folder fives 3 fives disk cache copies

linked : Inode × Fs × Cache × (ℕ → Inode)
linked = elim outcome [
  | ok (r, dp, s, t, c) ↦ (dp, s, t, c)
  | panic m ↦ (folder, disk, cache, copies)
]

links : outcome ≡ ok (returned (some 0), linked.0, linked.1, linked.2, linked.3)
unfolding linked dirlink dirlookup seek same_name strncmp readi read_from writei write_from bmap
    slot grow_size get16
links = refl

dirlookup-dirlink_example :
    (j : ℕ) × (dirlookup no_devices super 1 linked.0 fives fives linked.1 linked.2
      ≡ (iget 1 3 linked.2 >>= λ (i, t'). ok (some (i, 16 * j), linked.0, linked.1, t')))
dirlookup-dirlink_example =
    dirlookup-dirlink no_devices (sample-IsStored 1 32 (omega arith)) refl refl (omega arith) fives
      (λ x. omega arith) 3 (omega arith) (omega arith) 1 fives cache copies no_lock links

dirlink_lem_example :
    ((j : ℕ) × (find_name (content disk folder) 32 fives ≡ some j)
      × ((outcome ≡ panic "iget: no inodes")
          ⊎ ((i : ℕ) × (t' : Cache) × ((t' i).inum ≡ inum_of (content disk folder) j)
              × (false ≡ true)
              × (outcome ≡ ok (asleep, folder, disk, t', copies)))
          ⊎ ((i : ℕ) × (t' : Cache) × ((t' i).inum ≡ inum_of (content disk folder) j)
              × (no_lock i ≡ false)
              × (outcome ≡ ok (returned none, folder, disk, t', copies))
              × ((k : ℕ) → (t' k).ref ≡ 0))))
    ⊎ ((find_name (content disk folder) 32 fives ≡ none)
        × (((j : ℕ) × (dp' : Inode) × (s' : Fs) × (outcome
                ≡ ok (returned (some 0), dp', s', cache, copies))
              × Linked super disk folder fives 3 j s' dp')
            ⊎ (outcome ≡ panic "balloc: out of blocks")))
dirlink_lem_example =
    dirlink_lem no_devices (sample-IsStored 1 32 (omega arith)) refl refl (omega arith) fives
      (λ x. omega arith) 3 (omega arith) (omega arith) 1 fives cache copies no_lock
      (λ i. omega arith) (λ k i used e v. omega arith)
