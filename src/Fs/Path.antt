-- ===== src/Fs/Path.antt =====
-- `skipelem` of xv6/fs.c. A path is the list of the bytes before its NUL.
pub mod Elements
mod Tests
use os_lab_course_project.Prelude.{
  ℕ, zero, suc, Bool, ◌==◌, if◌then◌else◌, Option, none, some, List, [], ◌∷◌,
}

abbrev pub dirsiz : ℕ
dirsiz = 14

abbrev pub is_slash : ℕ → Bool
is_slash c = c == b'/'

-- `while(*path == '/') path++;`
unfoldable pub skip_slashes : List ℕ → List ℕ
skip_slashes [] = []
skip_slashes (c ∷ path) = if is_slash c then skip_slashes path else c ∷ path

-- `while(*path != '/' && *path != 0) path++;`: the bytes that are passed, and the rest.
unfoldable pub element : List ℕ → List ℕ × List ℕ
element [] = ([], [])
element (c ∷ path) =
    let (e, rest) = element path in if is_slash c then ([], c ∷ path) else (c ∷ e, rest)

abbrev pub take : ℕ → List ℕ → List ℕ
take zero xs = []
take (suc n) [] = []
take (suc n) (x ∷ xs) = x ∷ take n xs

-- What the code stores in `name`: an element of DIRSIZ bytes or more is cut and gets no NUL, a shorter
-- one ends in a NUL. Here it is the bytes before the NUL.
unfoldable pub stored_name : List ℕ → List ℕ
stored_name e = take dirsiz e

-- `none` is the null pointer.
unfoldable pub skipelem : List ℕ → Option (List ℕ × List ℕ)
unfolding skip_slashes element stored_name
skipelem path = elim (skip_slashes path) [
  | [] ↦ none
  | c ∷ r ↦ let (e, rest) = element (c ∷ r) in some (skip_slashes rest, stored_name e)
]
