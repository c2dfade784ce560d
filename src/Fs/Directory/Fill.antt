-- ===== src/Fs/Directory/Fill.antt =====
-- The entry that `dirlink` writes.
use os_lab_course_project.Prelude.{
  ℕ, zero, suc, ◌+◌, ◌-◌, ◌^◌, ◌<◌, ◌≡◌, ◌∙◌, refl, sym, ap, true, ◌&&◌, ltb, leb, if◌then◌else◌,
  arith, inl, inr, Bool-cases,
}
use os_lab_course_project.CString.{Memory, strncmp, strncpy}
use os_lab_course_project.CString.Alike.{
  Equal, Alike, Equal-start, Equal-rest, Alike-move, strncmp-Alike, strncpy-Alike, strncpy_bytes,
}
use os_lab_course_project.Fs.Blocks.{get16, get16-put16, put16_other, put16_bytes}
use os_lab_course_project.Fs.Content.{Buffer}
use os_lab_course_project.Fs.Path.{dirsiz}
use os_lab_course_project.Fs.Directory.{
  dirent_size, name_of, beside, is_zero, same_name, fill_entry,
}

strncmp-Equal : (n : ℕ) (m : Memory) (p q : ℕ) → Equal m p m q n → is_zero (strncmp m p q n) ≡ true
unfolding strncmp
strncmp-Equal zero m p q e = refl
strncmp-Equal (suc n) m p q e =
    let here = Equal-start m m p q n e in
    ground (arith, here, strncmp-Equal n m (p + 1) (q + 1) (Equal-rest m m p q n e))

-- A name is the same as itself.
pub same_name_refl : (name : Buffer) → same_name name name ≡ true
unfolding same_name
same_name_refl name =
    strncmp-Equal dirsiz (beside name name) 0 dirsiz
      (λ i b. ground (arith, ap name {x = 0 + i} {y = dirsiz + i - dirsiz}))

module _ (name de : Buffer) (inum : ℕ) where
  abbrev new_entry : Buffer
  new_entry = fill_entry name inum de

  abbrev named : Memory
  named = strncpy (beside (name_of de) name) 0 dirsiz dirsiz

  name-new_entry : (x : ℕ) → x < dirsiz → new_entry (x + 2) ≡ named x
  unfolding fill_entry
  name-new_entry x h =
      put16_other (λ y. if leb 2 y && ltb y dirent_size then named (y - 2) else 0) 0 inum (x + 2)
        (inr (omega arith))
      ∙ ground (arith, ap named {x = x + 2 - 2} {y = x})

  new_entry-Alike :
      (other : Buffer)
      → Alike (beside other (name_of new_entry)) dirsiz (beside other name) dirsiz dirsiz
  new_entry-Alike other =
      Alike-move dirsiz named (beside other (name_of new_entry)) (beside (name_of de) name)
        (beside other name) 0 dirsiz dirsiz dirsiz
        (λ i b.
          ap named {x = 0 + i} {y = i} (omega arith) ∙ sym (beside_second i b ∙ name-new_entry i b))
        (λ i b. ground (arith))
        (strncpy-Alike dirsiz 0 dirsiz (beside (name_of de) name) (omega arith))
    where
      beside_second :
          (i : ℕ) → i < dirsiz → beside other (name_of new_entry) (dirsiz + i) ≡ new_entry (i + 2)
      beside_second i b = ground (arith, ap new_entry {x = dirsiz + i - dirsiz + 2} {y = i + 2})

  -- A name is that of the entry just when it is `name`.
  pub same_name-fill_entry :
      (other : Buffer) → same_name other (name_of new_entry) ≡ same_name other name
  unfolding same_name
  same_name-fill_entry other = ap is_zero (
      strncmp-Alike dirsiz (beside other (name_of new_entry)) (beside other name) 0 0 dirsiz dirsiz
        (λ i b. ground arith) (new_entry-Alike other))

  pub get16-fill_entry : inum < 2 ^ 16 → get16 new_entry 0 ≡ inum
  unfolding fill_entry
  get16-fill_entry h =
      get16-put16 (λ y. if leb 2 y && ltb y dirent_size then named (y - 2) else 0) 0 inum h

  pub fill_entry_bytes : ((x : ℕ) → name x < 256) → (x : ℕ) → new_entry x < 256
  unfolding fill_entry
  fill_entry_bytes h =
      put16_bytes (λ y. if leb 2 y && ltb y dirent_size then named (y - 2) else 0) 0 inum inner
    where
      inner : (x : ℕ) → (if leb 2 x && ltb x dirent_size then named (x - 2) else 0) < 256
      inner x = elim (Bool-cases (leb 2 x && ltb x dirent_size)) [
        | inr e ↦ rw e (omega arith)
        | inl e ↦ rw e (
            strncpy_bytes dirsiz 0 dirsiz (x - 2) (beside (name_of de) name) (omega arith)
              (λ y a b. ground (arith, h (y - dirsiz))) (omega arith) (ground arith))
      ]
