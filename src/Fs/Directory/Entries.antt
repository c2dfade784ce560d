-- ===== src/Fs/Directory/Entries.antt =====
-- The entries of a directory, as its bytes give them, and the first with a name.
use os_lab_course_project.Prelude.{ℕ, ◌+◌, ◌-◌, ◌*◌, ◌/◌, ◌<◌, ◌≡◌, refl, ap, ◌==◌, arith, Option}
use os_lab_course_project.CString.{}
use os_lab_course_project.CString.Alike.{Equal-Alike, strncmp-Alike}
use os_lab_course_project.Ptable.Scan.{scan}
use os_lab_course_project.Fs.Blocks.{get16}
use os_lab_course_project.Fs.Content.{Buffer}
use os_lab_course_project.Fs.Path.{dirsiz}
use os_lab_course_project.Fs.Directory.{
  dirent_size, name_of, beside, is_zero, same_name, is_empty, is_named,
}

-- Entry `k` of the directory whose bytes are `c`.
abbrev pub entry_of : (ℕ → ℕ) → ℕ → Buffer
entry_of c k x = c (dirent_size * k + x)

abbrev pub inum_of : (ℕ → ℕ) → ℕ → ℕ
inum_of c k = get16 (entry_of c k) 0

-- The first entry of that name, of a directory of `size` bytes.
abbrev pub find_name : (ℕ → ℕ) → ℕ → Buffer → Option ℕ
find_name c size name = scan (λ k. is_named name (entry_of c k)) (size / dirent_size) 0

-- The two buffers hold the same entry.
abbrev pub Same : Buffer → Buffer → Type 0
Same d e = (x : ℕ) → x < dirent_size → d x ≡ e x

pub get16-Same : (d e : Buffer) → Same d e → get16 d 0 ≡ get16 e 0
unfolding get16
get16-Same d e h = omega (arith, h 0 (omega arith), h 1 (omega arith))

pub is_empty-Same : (d e : Buffer) → Same d e → is_empty d ≡ is_empty e
is_empty-Same d e h = ap (λ (w : ℕ). w == 0) (get16-Same d e h)

-- Only the first DIRSIZ bytes of the names count.
pub same_name-Same :
    (s t u : Buffer) → ((x : ℕ) → x < dirsiz → t x ≡ u x) → same_name s t ≡ same_name s u
unfolding same_name
same_name-Same s t u h = ap is_zero (
    strncmp-Alike dirsiz (beside s t) (beside s u) 0 0 dirsiz dirsiz (λ i b. ground arith)
      (Equal-Alike dirsiz (beside s t) (beside s u) dirsiz dirsiz (λ i b. ground (
        arith,
        h i,
        ap t {x = dirsiz + i - dirsiz} {y = i},
        ap u {x = dirsiz + i - dirsiz} {y = i},
      ))))

pub is_named-Same : (name d e : Buffer) → Same d e → is_named name d ≡ is_named name e
is_named-Same name d e h =
    rw
      (
        is_empty-Same d e h,
        same_name-Same name (name_of d) (name_of e) (λ x b. h (x + 2) (omega arith)),
      )
      refl
