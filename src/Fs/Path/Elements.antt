-- ===== src/Fs/Path/Elements.antt =====
-- The elements of a path, as `skipelem` takes them off one by one.
use mathlib.Core.Path.{subst}
use os_lab_course_project.Prelude.{
  ℕ, ◌≡◌, ◌⊎◌, ◌∙◌, inl, inr, refl, sym, ap, true, false, if◌then◌else◌, none, some, List, [], ◌∷◌,
  All, Bool-cases,
}
use os_lab_course_project.Fs.Path.{is_slash, skip_slashes, element, stored_name, skipelem}

-- The path cut at every slash: an independent reading, one piece more than there are slashes.
abbrev pub into_first : ℕ → List (List ℕ) → List (List ℕ)
into_first c [] = (c ∷ []) ∷ []
into_first c (e ∷ es) = (c ∷ e) ∷ es

pub split : List ℕ → List (List ℕ)
split [] = [] ∷ []
split (c ∷ path) = if is_slash c then [] ∷ split path else into_first c (split path)

abbrev pub drop_empty : List (List ℕ) → List (List ℕ)
drop_empty [] = []
drop_empty ([] ∷ es) = drop_empty es
drop_empty ((c ∷ e) ∷ es) = (c ∷ e) ∷ drop_empty es

-- The elements of the path: the pieces that are not empty.
abbrev pub elements : List ℕ → List (List ℕ)
elements path = drop_empty (split path)

abbrev pub NoSlash : List ℕ → Type 0
NoSlash e = All (λ c. is_slash c ≡ false) e

-- A path that does not begin with a slash.
abbrev pub IsAtElement : List ℕ → Type 0
IsAtElement [] = Unit
IsAtElement (c ∷ path) = is_slash c ≡ false

elements-slash : (c : ℕ) (path : List ℕ) → is_slash c ≡ true → elements (c ∷ path) ≡ elements path
unfolding split
elements-slash c path e = rw e

elements-skip_slashes : (path : List ℕ) → elements (skip_slashes path) ≡ elements path
unfolding skip_slashes
elements-skip_slashes [] = refl
elements-skip_slashes (c ∷ path) = elim (Bool-cases (is_slash c)) [
  | inl e ↦ rw e (elements-skip_slashes path ∙ sym (elements-slash c path e))
  | inr e ↦ rw e
]

skip_slashes-IsAtElement : (path : List ℕ) → IsAtElement (skip_slashes path)
unfolding skip_slashes
skip_slashes-IsAtElement [] = tt
skip_slashes-IsAtElement (c ∷ path) = elim (Bool-cases (is_slash c)) [
  | inl e ↦ rw e (skip_slashes-IsAtElement path)
  | inr e ↦ rw (e, e)
]

element-NoSlash : (path : List ℕ) → NoSlash (element path).0
unfolding element
element-NoSlash [] = tt
element-NoSlash (c ∷ path) = elim (Bool-cases (is_slash c)) [
  | inl e ↦ rw e tt
  | inr e ↦ rw (e, e) (refl, element-NoSlash path)
]

-- The first piece is the element; what follows the slash after it are the other pieces.
split-element :
    (path : List ℕ)
    → (es : List (List ℕ)) × (split path ≡ (element path).0 ∷ es)
      × (drop_empty es ≡ elements (element path).1)
unfolding split element
split-element [] = ([], refl, refl)
split-element (c ∷ path) = elim (Bool-cases (is_slash c)) [
  | inl e ↦ (split path, rw e refl, rw e (sym (elements-slash c path e)))
  | inr e ↦ let (es, s, d) = split-element path in (es, rw (e, s), rw e d)
]

-- The parts of a path that begins with an element.
element-split :
    (c : ℕ) (r : List ℕ)
    → is_slash c ≡ false
    → elements (c ∷ r) ≡ (element (c ∷ r)).0 ∷ elements (element (c ∷ r)).1
unfolding split element
element-split c r f =
    let (es, s, d) = split-element r in rw (f, s) (ap (λ x. (c ∷ (element r).0) ∷ x) d)

-- What `skipelem` returns: null if the path has no element; else the first element, cut to DIRSIZ bytes, and
-- the path at its next element.
pub Taken : List ℕ → Type 0
Taken path =
    ((skipelem path ≡ none) × (elements path ≡ []))
    ⊎ ((e : List ℕ) × (rest : List ℕ) × (skipelem path ≡ some (rest, stored_name e))
        × (elements path ≡ e ∷ elements rest)
        × NoSlash e
        × IsAtElement rest)

from_skipped : (path r : List ℕ) → r ≡ skip_slashes path → Taken path
unfolding Taken skipelem split
from_skipped path [] q =
    inl ((rw (skipelem, sym q) refl), (sym (elements-skip_slashes path) ∙ ap elements (sym q)))
from_skipped path (c ∷ r) q = inr (
  (element (c ∷ r)).0,
  skip_slashes (element (c ∷ r)).1,
  rw (skipelem, sym q) refl,
  sym (elements-skip_slashes path)
      ∙ ap elements (sym q)
      ∙ element-split c r (subst (λ x. IsAtElement x) (sym q) (skip_slashes-IsAtElement path))
      ∙ ap (λ x. (element (c ∷ r)).0 ∷ x) (sym (elements-skip_slashes (element (c ∷ r)).1)),
  element-NoSlash (c ∷ r),
  skip_slashes-IsAtElement (element (c ∷ r)).1,
)

-- `skipelem` takes the elements of a path, the pieces between slashes that are not empty, off one by one.
pub skipelem_lem : (path : List ℕ) → Taken path
skipelem_lem path = from_skipped path (skip_slashes path) refl
