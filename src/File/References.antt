-- ===== src/File/References.antt =====
-- The reference count of a file is the number of pointers to it that the callers hold.
use os_lab_course_project.Prelude.{
  ℕ, ◌+◌, ◌-◌, ◌^◌, ◌≤◌, ◌<◌, ◌≡◌, ◌≢◌, ◌⊎◌, inl, inr, refl, sym, ap, ◌∙◌, ◌==◌, false,
  if◌then◌else◌, none, some, List, [], ◌∷◌, length, get_elem?, remove_at, length-remove_at, ok,
  update, add32, sub32, arith,
}
use os_lab_course_project.Prelude.{holders, holders-remove_at, holders-le, holders-here}
use os_lab_course_project.Ptable.Scan.{scan-cases}
use os_lab_course_project.File.{
  fd_none, File, nfile, Table, filealloc, filedup, Closing, kept, closing, fileclose,
}

-- The table, and all pointers to its files: in the file tables of the processes and on their stacks.
pub record Sys : Type 0 where
  pub table : Table
  pub pointers : List ℕ

-- The number of pointers stays below the largest int; `set_up` sets the fields of a file that is held.
pub data Step (s : Sys) : Sys → Type 0 where
  opened :
      (i : ℕ) {t : Table}
      → length s.pointers < 2 ^ 31 - 1
      → filealloc s.table ≡ (some i, t)
      → Step s (record { table = t; pointers = i ∷ s.pointers })
  dupped :
      (k i : ℕ) {t : Table}
      → length s.pointers < 2 ^ 31 - 1
      → get_elem? s.pointers k ≡ some i
      → filedup i s.table ≡ ok t
      → Step s (record { table = t; pointers = i ∷ s.pointers })
  set_up :
      (k i : ℕ) (f : File)
      → get_elem? s.pointers k ≡ some i
      → f.ref ≡ (s.table i).ref
      → Step s (record s { table = update s.table i f })
  closed :
      (k i : ℕ) {c : Closing} {t : Table}
      → get_elem? s.pointers k ≡ some i
      → fileclose i s.table ≡ ok (c, t)
      → Step s (record { table = t; pointers = remove_at s.pointers k })

-- Static memory is zero.
abbrev pub init : Sys
init = record {
  table = λ i. record {
    kind = fd_none;
    ref = 0;
    readable = false;
    writable = false;
    pipe = 0;
    ip = 0;
    off = 0;
  };
  pointers = [];
}

pub data Reach : Sys → Type 0 where
  begin : Reach init
  later : {s t : Sys} → Reach s → Step s t → Reach t

record IsCounted (s : Sys) : Type 0 where
  refs : (i : ℕ) → i < nfile → (s.table i).ref ≡ holders i s.pointers
  inside : (i : ℕ) → nfile ≤ i → holders i s.pointers ≡ 0
  few : length s.pointers < 2 ^ 31

pub filedup-held :
    (i : ℕ) (t : Table)
    → 0 < (t i).ref
    → (t i).ref < 2 ^ 31
    → filedup i t ≡ ok (update t i (record (t i) { ref = (t i).ref + 1 }))
unfolding filedup
filedup-held i t h l =
    let same : add32 (t i).ref 1 ≡ (t i).ref + 1 = omega arith in
    ground (arith, ap (λ r. update t i (record (t i) { ref = r })) same)

-- The last pointer closes what the file stands for.
abbrev pub without_one : ℕ → Table → Closing × Table
without_one i t =
    if (t i).ref == 1
    then (closing (t i), update t i (record (t i) { ref = 0; kind = fd_none }))
    else (kept, update t i (record (t i) { ref = (t i).ref - 1 }))

pub fileclose-held :
    (i : ℕ) (t : Table) → 0 < (t i).ref → (t i).ref < 2 ^ 31 → fileclose i t ≡ ok (without_one i t)
unfolding fileclose
fileclose-held i t h l =
    let same : sub32 (t i).ref 1 ≡ (t i).ref - 1 = omega arith in
    ground (arith, ap (λ r. update t i (record (t i) { ref = r })) same)

pub filealloc-cases :
    (t : Table)
    → ((k : ℕ) × (filealloc t ≡ (some k, update t k (record (t k) { ref = 1 })))
        × (k < nfile)
        × ((t k).ref ≡ 0))
      ⊎ ((filealloc t ≡ (none, t)) × ((k : ℕ) → k < nfile → (t k).ref ≢ 0))
unfolding filealloc
filealloc-cases t = elim (scan-cases (λ i. (t i).ref == 0) nfile 0) [
  | inr (n, all) ↦ inr (rw n, λ k l. ground (arith, all k))
  | inl (k, f, _, h, z, _) ↦ inl (k, rw f, h, ground arith)
]

module _ (s : Sys) (v : IsCounted s) where
  -- A file that is held is in the table, with a count that is no negative int.
  held :
      (k i : ℕ)
      → get_elem? s.pointers k ≡ some i
      → (i < nfile) × (0 < (s.table i).ref) × ((s.table i).ref ≤ length s.pointers)
  held k i h = (
    ground (arith, v.inside i, holders-here s.pointers k i h),
    ground (arith, v.inside i, v.refs i, holders-here s.pointers k i h),
    ground (arith, v.inside i, v.refs i, holders-here s.pointers k i h, holders-le i s.pointers),
  )

  open-IsCounted :
      (i : ℕ)
      → i < nfile
      → (s.table i).ref ≡ 0
      → length s.pointers < 2 ^ 31 - 1
      → IsCounted (record {
        table = update s.table i (record (s.table i) { ref = 1 });
        pointers = i ∷ s.pointers;
      })
  open-IsCounted i l z m = record {
    refs = λ a h. ground (arith, v.refs a h, v.refs i l);
    inside = λ a h. ground (arith, v.inside a h);
    few = omega (arith, m);
  }

  dup-IsCounted :
      (k i : ℕ)
      → get_elem? s.pointers k ≡ some i
      → length s.pointers < 2 ^ 31 - 1
      → IsCounted (record {
        table = update s.table i (record (s.table i) { ref = (s.table i).ref + 1 });
        pointers = i ∷ s.pointers;
      })
  dup-IsCounted k i h m =
      let (l, _, _) = held k i h in
      record {
        refs = λ a p. ground (arith, v.refs a p, v.refs i l);
        inside = λ a p. ground (arith, v.inside a p);
        few = omega (arith, m);
      }

  close-IsCounted :
      (k i : ℕ)
      → get_elem? s.pointers k ≡ some i
      → IsCounted (record { table = (without_one i s.table).1; pointers = remove_at s.pointers k })
  close-IsCounted k i h =
      let (l, pos, _) = held k i h in
      record {
        refs = λ a p. ground (arith, v.refs a p, v.refs i l, holders-remove_at a s.pointers k i h);
        inside = λ a p. ground (arith, v.inside a p, holders-remove_at a s.pointers k i h);
        few = omega (arith, v.few, length-remove_at s.pointers k i h);
      }

step-IsCounted : {s t : Sys} → IsCounted s → Step s t → IsCounted t
step-IsCounted {s} v (opened i {t} m e) = elim (filealloc-cases s.table) [
  | inr (n, _) ↦ absurd (ground (arith, n, e))
  | inl (k, f, l, z) ↦
      let (same, table) : (i ≡ k) × (t ≡ update s.table k (record (s.table k) { ref = 1 })) =
        (ground (arith, f, e), ground (arith, f, e)) in
      rw (same, table) (open-IsCounted s v k l z m)
]
step-IsCounted {s} v (dupped k i {t} m h e) =
    let (_, pos, le) = held s v k i h in
    let table : t ≡ update s.table i (record (s.table i) { ref = (s.table i).ref + 1 }) =
      ground (arith, filedup-held i s.table pos (omega (arith, m)), e) in
    rw table (dup-IsCounted s v k i h m)
step-IsCounted {s} v (set_up k i f h e) = record {
  refs = λ a l. ground (arith, e, v.refs a l, ap (λ x. (s.table x).ref) {x = a} {y = i});
  inside = v.inside;
  few = v.few;
}
step-IsCounted {s} v (closed k i {c} {t} h e) =
    let (_, pos, le) = held s v k i h in
    let table : t ≡ (without_one i s.table).1 =
      ground (arith, fileclose-held i s.table pos (omega (arith, v.few)), e) in
    rw table (close-IsCounted s v k i h)

Reach-IsCounted : {s : Sys} → Reach s → IsCounted s
Reach-IsCounted begin = record { refs = λ i l. refl; inside = λ i l. refl; few = omega arith }
Reach-IsCounted (later r st) = step-IsCounted (Reach-IsCounted r) st

-- In every reachable state the count of each file in the table is the number of pointers to it, so that
-- `filealloc` gives out only a file that nobody holds; and on a file that is held neither `filedup` nor
-- `fileclose` panics, and `fileclose` closes the pipe or the inode exactly if the pointer is the last.
pub last_close :
    {s : Sys}
    → Reach s
    → ((i : ℕ) → i < nfile → (s.table i).ref ≡ holders i s.pointers)
      × ((i : ℕ) (t : Table) → filealloc s.table ≡ (some i, t) → holders i s.pointers ≡ 0)
      × ((k i : ℕ)
          → get_elem? s.pointers k ≡ some i
          → (filedup i s.table
              ≡ ok (update s.table i (record (s.table i) { ref = (s.table i).ref + 1 })))
            × ((t : Table) × (fileclose i s.table
                  ≡ ok (if holders i s.pointers == 1 then closing (s.table i) else kept, t))))
last_close {s} r =
    let v = Reach-IsCounted r in
    (
      v.refs,
      λ i t e. elim (filealloc-cases s.table) [
        | inr (n, _) ↦ absurd (ground (arith, n, e))
        | inl (k, f, l, z) ↦
            let same : i ≡ k = ground (arith, f, e) in rw same (sym (v.refs k l) ∙ z)
      ],
      λ k i h.
          let (l, pos, le) = held s v k i h in
          (
            filedup-held i s.table pos (omega (arith, v.few)),
            (
              (without_one i s.table).1,
              fileclose-held i s.table pos (omega (arith, v.few)) ∙ ground (arith, v.refs i l),
            ),
          ),
    )
