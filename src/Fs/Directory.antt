-- ===== src/Fs/Directory.antt =====
-- Directories of xv6/fs.c: `namecmp`, `dirlookup` and `dirlink`, with `iput`, which `dirlink` calls.
pub mod Entries
pub mod Seek
pub mod Lookup
pub mod Fill
pub mod Insert
pub mod Linked
pub mod Link
mod Tests
use os_lab_course_project.Prelude.{
  ℕ, zero, suc, ◌+◌, ◌-◌, ◌==◌, Bool, true, false, not, ◌&&◌, ltb, leb, if◌then◌else◌, Option, none,
  some, Result, ok, panic, ◌>>=◌, update, add32,
}
use Prim.Native.String.{String}
use os_lab_course_project.CString.{Memory, strncmp, strncpy}
use os_lab_course_project.Fs.Path.{dirsiz}
use os_lab_course_project.Icache.{Cache, iget, drop_inode}
use os_lab_course_project.Fs.Blocks.{Fs, get16, put16}
use os_lab_course_project.Fs.Bitmap.{Super}
use os_lab_course_project.Fs.Inode.{Inode}
use os_lab_course_project.Fs.Dinode.{iupdate}
use os_lab_course_project.Fs.Truncate.{itrunc}
use os_lab_course_project.Fs.Content.{Buffer, Device, readi, writei}

abbrev pub t_dir : ℕ
t_dir = 1

-- `sizeof(struct dirent)`: a `ushort inum` and `char name[DIRSIZ]`, which are bytes of a buffer here.
abbrev pub dirent_size : ℕ
dirent_size = 16

abbrev pub name_of : Buffer → Buffer
name_of de x = de (x + 2)

-- Two arrays of DIRSIZ bytes in one memory, so that the pointer to the second is DIRSIZ.
abbrev pub beside : Buffer → Buffer → Memory
beside s t x = if ltb x dirsiz then s x else t (x - dirsiz)

-- Whether the `int` that `strncmp` returns is 0.
abbrev pub is_zero : Option (ℕ × ℕ) → Bool
is_zero none = true
is_zero (some (a, b)) = a == b

-- `namecmp(s, t) == 0`
unfoldable pub same_name : Buffer → Buffer → Bool
same_name s t = is_zero (strncmp (beside s t) 0 dirsiz dirsiz)

-- `readi` has returned `n`.
abbrev pub is_count : ℕ → Option ℕ → Bool
is_count n none = false
is_count n (some k) = k == n

-- The loop over the entries of a directory that `dirlookup` and `dirlink` share, from `off` on: it stops
-- at the first entry that passes the test, or at the end. `de` is the entry that was read last.
unfoldable pub seek :
    (ℕ → Option Device)
    → Super
    → (Buffer → Bool)
    → String
    → ℕ
    → ℕ
    → Inode
    → Buffer
    → Fs
    → Result (Bool × ℕ × Buffer × Inode × Fs)
seek devsw sb test message zero off dp de s = ok (false, off, de, dp, s)
seek devsw sb test message (suc fuel) off dp de s = elim (ltb off dp.size) [
  | false ↦ ok (false, off, de, dp, s)
  | true ↦ readi devsw sb dp de off dirent_size s >>= λ (r, de', dp', s').
      if is_count dirent_size r
      then elim (test de') [
        | true ↦ ok (true, off, de', dp', s')
        | false ↦ seek devsw sb test message fuel (add32 off dirent_size) dp' de' s'
      ]
      else panic message
]

-- `de.inum == 0`
abbrev pub is_empty : Buffer → Bool
is_empty de = get16 de 0 == 0

-- `de.inum != 0 && namecmp(name, de.name) == 0`
abbrev pub is_named : Buffer → Buffer → Bool
is_named name de = not (is_empty de) && same_name name (name_of de)

-- The value is the slot of the inode in the cache, and `*poff`.
abbrev pub fetch :
    ℕ → Cache → Bool × ℕ × Buffer × Inode × Fs → Result (Option (ℕ × ℕ) × Inode × Fs × Cache)
fetch dev t (false, off, de, dp, s) = ok (none, dp, s, t)
fetch dev t (true, off, de, dp, s) =
    iget dev (get16 de 0) t >>= λ (i, t'). ok (some (i, off), dp, s, t')

-- Of the directory `dp` of device `dev`. A round goes on by 16 bytes, so that the size is enough fuel.
-- The bytes of `de` are those of the stack.
unfoldable pub dirlookup :
    (ℕ → Option Device)
    → Super
    → ℕ
    → Inode
    → Buffer
    → Buffer
    → Fs
    → Cache
    → Result (Option (ℕ × ℕ) × Inode × Fs × Cache)
dirlookup devsw sb dev dp name de s t =
    if dp.type == t_dir
    then (seek devsw sb (is_named name) "dirlookup read" dp.size 0 dp de s >>= fetch dev t)
    else panic "dirlookup not DIR"

-- `iput` of slot `i`; `copies` are the inodes in the slots of the cache. `held` says which of their sleep
-- locks the process holds: on such a lock `acquiresleep` never returns, which is `none`.
unfoldable pub iput :
    Super → (ℕ → Bool) → ℕ → Cache → (ℕ → Inode) → Fs → Result (Option (Cache × (ℕ → Inode) × Fs))
iput sb held i t copies s =
    if held i
    then ok none
    else if (t i).valid && (copies i).nlink == 0 && (t i).ref == 1
    then (itrunc sb (copies i) s >>= λ (ip, s').
        let ip' = record ip { type = 0 } in
        ok (
          some (
            drop_inode i (update t i (record (t i) { valid = false })),
            update copies i ip',
            iupdate sb ip' s',
          )))
    else ok (some (drop_inode i t, copies, s))

-- `strncpy(de.name, name, DIRSIZ); de.inum = inum;`, with zeroes beyond the structure, which is all
-- that is written.
unfoldable pub fill_entry : Buffer → ℕ → Buffer → Buffer
fill_entry name inum de =
    let named = strncpy (beside (name_of de) name) 0 dirsiz dirsiz in
    put16 (λ x. if leb 2 x && ltb x dirent_size then named (x - 2) else 0) 0 inum

-- `dirlink` returns, -1 being `none`, or sleeps for ever.
pub data Done : Type 0 where
  returned : Option ℕ → Done
  asleep : Done

-- The entry is written where the loop has stopped.
abbrev pub add_entry :
    (ℕ → Option Device)
    → Super
    → Buffer
    → ℕ
    → Cache
    → (ℕ → Inode)
    → Bool × ℕ × Buffer × Inode × Fs
    → Result (Done × Inode × Fs × Cache × (ℕ → Inode))
add_entry devsw sb name inum t copies (_, off, de, dp, s) =
    writei devsw sb dp (fill_entry name inum de) off dirent_size s >>= λ (r, dp', s').
    if is_count dirent_size r then ok (returned (some 0), dp', s', t, copies) else panic "dirlink"

-- What follows `iput` of an inode that has the name.
abbrev pub refuse :
    Inode
    → Fs
    → Cache
    → (ℕ → Inode)
    → Option (Cache × (ℕ → Inode) × Fs)
    → Done × Inode × Fs × Cache × (ℕ → Inode)
refuse dp s t copies none = (asleep, dp, s, t, copies)
refuse dp s t copies (some (t', copies', s')) = (returned none, dp, s', t', copies')

abbrev pub link_new :
    (ℕ → Option Device)
    → Super
    → (ℕ → Bool)
    → Buffer
    → ℕ
    → Buffer
    → (ℕ → Inode)
    → Option (ℕ × ℕ) × Inode × Fs × Cache
    → Result (Done × Inode × Fs × Cache × (ℕ → Inode))
link_new devsw sb held name inum de copies (some (i, _), dp, s, t) =
    iput sb held i t copies s >>= λ r. ok (refuse dp s t copies r)
link_new devsw sb held name inum de copies (none, dp, s, t) =
    seek devsw sb is_empty "dirlink read" dp.size 0 dp de s
    >>= add_entry devsw sb name inum t copies

unfoldable pub dirlink :
    (ℕ → Option Device)
    → Super
    → (ℕ → Bool)
    → ℕ
    → Inode
    → Buffer
    → ℕ
    → Buffer
    → Fs
    → Cache
    → (ℕ → Inode)
    → Result (Done × Inode × Fs × Cache × (ℕ → Inode))
dirlink devsw sb held dev dp name inum de s t copies =
    dirlookup devsw sb dev dp name de s t >>= link_new devsw sb held name inum de copies
