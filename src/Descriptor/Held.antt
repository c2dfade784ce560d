-- ===== src/Descriptor/Held.antt =====
-- The table of files, when `n f` is the number of pointers to file `f`.
use os_lab_course_project.Prelude.{
  if◌then◌else◌, ◌==◌, ℕ, ◌+◌, ◌-◌, ◌^◌, ◌≤◌, ◌<◌, ◌≡◌, ◌⊎◌, ◌∙◌, sym, ap, arith, inl, inr, none,
  some, ok, update, Bool,
}
use os_lab_course_project.File.{nfile, Table, filealloc, filedup, Closing, closing, kept, fileclose}
use os_lab_course_project.File.References.{
  filedup-held, fileclose-held, filealloc-cases, without_one,
}
use os_lab_course_project.Descriptor.{set_inode}
use os_lab_course_project.Descriptor.Count.{here}

pub record Held (t : Table) (n : ℕ → ℕ) : Type 0 where
  pub refs : (f : ℕ) → f < nfile → (t f).ref ≡ n f
  pub inside : (f : ℕ) → nfile ≤ f → n f ≡ 0

pub Held-ext : {t : Table} {n m : ℕ → ℕ} → ((f : ℕ) → n f ≡ m f) → Held t n → Held t m
Held-ext e h = record { refs = λ f l. h.refs f l ∙ e f; inside = λ f l. sym (e f) ∙ h.inside f l }

module _ {t : Table} {n : ℕ → ℕ} (h : Held t n) (k : ℕ) where
  in_table : 0 < n k → k < nfile
  in_table pos = ground (arith, h.inside k)

  pub filedup-Held :
      0 < n k
      → n k < 2 ^ 31
      → (t' : Table) × (filedup k t ≡ ok t') × Held t' (λ f. n f + here f (some k))
  filedup-Held pos few =
      let l = in_table pos in
      let r = h.refs k l in
      (
        update t k (record (t k) { ref = (t k).ref + 1 }),
        filedup-held k t (omega (arith, r)) (omega (arith, r)),
        record {
          refs = λ f m. ground (arith, h.refs f m, r);
          inside = λ f m. ground (arith, h.inside f m);
        },
      )

  pub fileclose-Held :
      0 < n k
      → n k < 2 ^ 31
      → (c : Closing) × (t' : Table) × (fileclose k t ≡ ok (c, t'))
        × (c ≡ (if n k == 1 then closing (t k) else kept))
        × Held t' (λ f. n f - here f (some k))
  fileclose-Held pos few =
      let l = in_table pos in
      let r = h.refs k l in
      (
        (without_one k t).0,
        (without_one k t).1,
        fileclose-held k t (omega (arith, r)) (omega (arith, r)),
        ground (arith, r),
        record {
          refs = λ f m. ground (arith, h.refs f m, r);
          inside = λ f m. ground (arith, h.inside f m);
        },
      )

pub filealloc-Held :
    {t : Table} {n : ℕ → ℕ}
    → Held t n
    → ((k : ℕ) × (t' : Table) × (filealloc t ≡ (some k, t'))
        × (n k ≡ 0)
        × Held t' (λ f. n f + here f (some k)))
      ⊎ (filealloc t ≡ (none, t))
filealloc-Held {t} {n} h = elim (filealloc-cases t) [
  | inr (e, full) ↦ inr e
  | inl (k, e, l, free) ↦ inl (
    k,
    update t k (record (t k) { ref = 1 }),
    e,
    sym (h.refs k l) ∙ free,
    record {
      refs = λ f m. ground (arith, h.refs f m, h.refs k l);
      inside = λ f m. ground (arith, h.inside f m);
    },
  )
]

-- Setting the fields of a file does not change the count.
pub set_inode-Held :
    {t : Table} {n : ℕ → ℕ} (ip : ℕ) (readable writable : Bool) (k : ℕ)
    → Held t n
    → Held (set_inode ip readable writable k t) n
set_inode-Held {t} ip readable writable k h = record {
  refs = λ f m. ground (arith, h.refs f m, ap (λ x. (t x).ref) {x = f} {y = k});
  inside = h.inside;
}
