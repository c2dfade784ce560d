-- ===== src/Vm/Entry.antt =====
-- A write of one page table entry.
use Prim.Native.Nat.{}
use os_lab_course_project.Prelude.{
  ℕ, ◌+◌, ◌*◌, ◌<◌, ◌≡◌, ◌≢◌, inl, inr, refl, sym, ap, ◌∙◌, Bool-cases, true, false, ◌&&◌, ◌==◌,
  ==_ne, if◌then◌else◌, List, update, arith,
}
use mathlib.Core.Path.{subst}
use native.Mathlib.Decide.{ℕ_discrete}
use os_lab_course_project.Kalloc.Pages.{NotIn}
use os_lab_course_project.Vm.{p2v, pte_addr, is_present}
use os_lab_course_project.Vm.Tables.{
  IsFrame, has, table, entry_at, IsTable, word_apart, entry_at-table, entry_at_none,
}

words_of : (t h k : ℕ) → (t + 4 * h == t + 4 * k) ≡ (h == k)
words_of t h k = ground arith

-- A write of entry `k` of the table of index `i`.
module _ (d i k e : ℕ) (w : ℕ → ℕ) (l : List ℕ) (v : IsTable d (record { words = w; freelist = l }))
    (p : has w d i ≡ true) (hi : i < 1024) (hk : k < 1024) where
  abbrev pub written : ℕ → ℕ
  written = update w (table w d i + 4 * k) e

  written_dir : (j : ℕ) → j < 1024 → written (d + 4 * j) ≡ w (d + 4 * j)
  written_dir j h =
      let other : (d + 4 * j == table w d i + 4 * k) ≡ false =
        ==_ne (d + 4 * j) (table w d i + 4 * k) (
          word_apart d (table w d i) j k v.dir (v.frame i hi p) (λ q. v.apart i hi p (sym q)) h
            hk) in
      rw other

  written-has : (j : ℕ) → j < 1024 → has written d j ≡ has w d j
  written-has j h = ap is_present (written_dir j h)

  written_table : (j : ℕ) → j < 1024 → table written d j ≡ table w d j
  written_table j h = ap (λ (x : ℕ). p2v (pte_addr x)) (written_dir j h)

  pub written-IsTable : IsTable d (record { words = written; freelist = l })
  written-IsTable = record {
    dir = v.dir;
    dir_taken = v.dir_taken;
    frame =
        λ j h q. subst IsFrame (sym (written_table j h)) (v.frame j h (sym (written-has j h) ∙ q));
    apart = λ j h q r. v.apart j h (sym (written-has j h) ∙ q) (sym (written_table j h) ∙ r);
    taken = λ j h q.
        subst (λ (x : ℕ). NotIn x l) (sym (written_table j h))
          (v.taken j h (sym (written-has j h) ∙ q));
    distinct = λ a b ha hb pa pb r.
        v.distinct a b ha hb (sym (written-has a ha) ∙ pa) (sym (written-has b hb) ∙ pb)
          (sym (written_table a ha) ∙ r ∙ written_table b hb);
    free = v.free;
  }

  same_table :
      (j h : ℕ)
      → j ≡ i
      → written (table w d j + 4 * h) ≡ (if j == i && h == k then e else w (table w d j + 4 * h))
  same_table j h r =
      let word : (table w d j + 4 * h == table w d i + 4 * k) ≡ (h == k) =
        ap (λ (x : ℕ). table w d x + 4 * h == table w d i + 4 * k) r ∙ words_of (table w d i) h k in
      let here : (j == i) ≡ true = ground (arith, r) in rw (word, here)

  -- A word of a table, by the indices that lead to it.
  written_word :
      (j h : ℕ)
      → j < 1024
      → h < 1024
      → has w d j ≡ true
      → written (table w d j + 4 * h) ≡ (if j == i && h == k then e else w (table w d j + 4 * h))
  written_word j h hj hh q = elim (ℕ_discrete j i) [
    | no ne ↦
        let apart : (table w d j + 4 * h == table w d i + 4 * k) ≡ false =
          ==_ne (table w d j + 4 * h) (table w d i + 4 * k) (
            word_apart (table w d j) (table w d i) h k (v.frame j hj q) (v.frame i hi p)
              (λ r. ne (v.distinct j i hj hi q p r)) hh hk) in
        rw (apart, ==_ne j i ne)
    | yes r ↦ same_table j h r
  ]

  differ : (j : ℕ) → has w d j ≡ false → j ≢ i
  differ j q r = absurd (cc (sym q ∙ ap (has w d) r ∙ p))

  pub written_entry :
      (j h : ℕ)
      → j < 1024
      → h < 1024
      → entry_at written d j h ≡ (if j == i && h == k then e else entry_at w d j h)
  written_entry j h hj hh = elim (Bool-cases (has w d j)) [
    | inl q ↦
        entry_at-table written d j h (table w d j) (written-has j hj ∙ q) (written_table j hj)
        ∙ written_word j h hj hh q
        ∙ ap (λ (x : ℕ). if j == i && h == k then e else x)
            (sym (entry_at-table w d j h (table w d j) q refl))
    | inr q ↦
        let ne : (j == i) ≡ false = ==_ne j i (differ j q) in
        entry_at_none written d j h (written-has j hj ∙ q) ∙ rw ne (sym (entry_at_none w d j h q))
  ]
