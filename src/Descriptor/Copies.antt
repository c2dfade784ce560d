-- ===== src/Descriptor/Copies.antt =====
-- The loops of `fork` and `exit` over the descriptors.
use os_lab_course_project.Prelude.{
  List, [], ◌∷◌, ℕ, zero, suc, ◌+◌, ◌^◌, ◌≤◌, ◌<◌, ◌≡◌, ◌⊎◌, ◌∙◌, refl, ap, leb, if◌then◌else◌,
  arith, inl, inr, Option, none, some, List, [], ◌∷◌, ok, update,
}
use os_lab_course_project.File.{Closing, Table}
use os_lab_course_project.Descriptor.{nofile, Row, copy_files, close_files}
use os_lab_course_project.Descriptor.Count.{count, count-le, count-here}
use os_lab_course_project.Descriptor.Held.{Held-ext, filedup-Held, fileclose-Held}
use os_lab_course_project.Descriptor.Calls.{Shares, count_added, count_removed}

pointer-cases : (p : Option ℕ) → (p ≡ none) ⊎ ((f : ℕ) × (p ≡ some f))
pointer-cases none = inl refl
pointer-cases (some f) = inr (f, refl)

-- From `fd` on, with `r` left, the descriptors of the child become those of `row`, which is among the
-- others.
pub copy_files-Shares :
    (row : Row) (others : ℕ → ℕ)
    → ((f : ℕ) → others f < 2 ^ 30)
    → ((f : ℕ) → count f row nofile ≤ others f)
    → (r fd : ℕ) (child : Row) (t : Table) → fd + r ≡ nofile
    → ((x : ℕ) → fd ≤ x → x < nofile → child x ≡ none)
    → Shares child others t
    → (child' : Row) × (t' : Table) × (copy_files row r fd child t ≡ ok (child', t'))
      × Shares child' others t'
      × ((x : ℕ) → x < nofile → child' x ≡ (if leb fd x then row x else child x))
unfolding copy_files
copy_files-Shares row others few among zero fd child t e free s =
    (child, t, refl, s, λ x h. ground arith)
copy_files-Shares row others few among (suc r) fd child t e free s = elim (pointer-cases (row fd)) [
  | inl z ↦
      let (child', t', run, s', copied) =
        copy_files-Shares row others few among r (fd + 1) child t (omega arith)
          (λ x h l. free x (omega arith) l) s in
      (
        child',
        t',
        rw (z, copy_files) run,
        s',
        λ x h. copied x h ∙ ground (arith, z, free x, h, ap row {x = x} {y = fd}),
      )
  | inr (k, z) ↦
      let (t1, dup, h) =
        filedup-Held s k (omega (arith, among k, count-here k row fd nofile (omega arith) z))
          (omega (arith, few k, count-le k child nofile)) in
      let (child', t', run, s', copied) =
        copy_files-Shares row others few among r (fd + 1) (update child fd (some k)) t1
          (omega arith) (λ x h l. ground (arith, free x, l))
          (Held-ext
            (λ f.
              count_added child others few fd k f (omega arith)
                (free fd (omega arith) (omega arith)))
            h) in
      (
        child',
        t',
        rw (z, copy_files) (rw dup run),
        s',
        λ x h. copied x h ∙ ground (arith, z, ap row {x = x} {y = fd}),
      )
]

-- From `fd` on, with `r` left, no descriptor is left open.
pub close_files-Shares :
    (others : ℕ → ℕ)
    → ((f : ℕ) → others f < 2 ^ 30)
    → (r fd : ℕ) (row : Row) (t : Table) → fd + r ≡ nofile
    → ((x : ℕ) → x < fd → row x ≡ none)
    → Shares row others t
    → (cs : List Closing) × (row' : Row) × (t' : Table) × (close_files r fd row t
        ≡ ok (cs, row', t'))
      × Shares row' others t'
      × ((x : ℕ) → x < nofile → row' x ≡ none)
unfolding close_files
close_files-Shares others few zero fd row t e shut s =
    ([], row, t, refl, s, λ x h. shut x (omega arith))
close_files-Shares others few (suc r) fd row t e shut s = elim (pointer-cases (row fd)) [
  | inl z ↦
      let (cs, row', t', run, s', closed) =
        close_files-Shares others few r (fd + 1) row t (omega arith)
          (λ x h. ground (arith, shut x, z, ap row {x = x} {y = fd})) s in
      (cs, row', t', rw (z, close_files) run, s', closed)
  | inr (k, z) ↦
      let (c, t1, close, _, h) =
        fileclose-Held s k (omega (arith, count-here k row fd nofile (omega arith) z))
          (omega (arith, few k, count-le k row nofile)) in
      let (cs, row', t', run, s', closed) =
        close_files-Shares others few r (fd + 1) (update row fd none) t1 (omega arith)
          (λ x h. ground (arith, shut x))
          (Held-ext (λ f. count_removed row others few fd k f (omega arith) z) h) in
      (c ∷ cs, row', t', rw (z, close_files) (rw close (rw run refl)), s', closed)
]
