-- ===== src/Vm/Walk.antt =====
-- `walkpgdir` changes no mapping.
use Prim.Native.Nat.{bit_or}
use os_lab_course_project.Prelude.{
  ℕ, ◌+◌, ◌*◌, ◌<◌, ◌≡◌, ◌≢◌, ◌⊎◌, inl, inr, refl, sym, ap, ◌∙◌, Bool-cases, true, false, ◌&&◌,
  ◌==◌, ==_ne, leb, ltb, none, some, List, [], ◌∷◌, update, arith,
}
use mathlib.Core.Path.{subst}
use native.Mathlib.Decide.{ℕ_discrete}
use os_lab_course_project.Kalloc.{v2p, kalloc}
use os_lab_course_project.Kalloc.Pages.{NotIn}
use os_lab_course_project.Vm.{
  Vm, pdx, ptx, p2v, pte_addr, pte_all, is_present, clear_page, walkpgdir,
}
use os_lab_course_project.Vm.Tables.{
  IsFrame, has, table, entry_at, IsTable, entry_frame, frame_apart, word_apart, entry_at-table,
  entry_at_none,
}

-- What `walkpgdir` gives for index `i` of the directory and `k` of the table: the entry's address.
pub record Walked (d i k : ℕ) (m : Vm) (a : ℕ) (m' : Vm) : Type 0 where
  pub tables : IsTable d m'
  pub same : (j l : ℕ) → j < 1024 → l < 1024 → entry_at m'.words d j l ≡ entry_at m.words d j l
  pub there : has m'.words d i ≡ true
  pub at : a ≡ table m'.words d i + 4 * k

-- A new table `t` in entry `i`.
module _ (d i t : ℕ) (w : ℕ → ℕ) (l : List ℕ)
    (v : IsTable d (record { words = w; freelist = t ∷ l })) (none_yet : has w d i ≡ false)
    (small : i < 1024) where
  abbrev grown : ℕ → ℕ
  grown = update (clear_page w t) (d + 4 * i) (bit_or (v2p t) pte_all)

  t_ne : t ≢ d
  t_ne = v.dir_taken.0

  dir_word : (j : ℕ) → j < 1024 → j ≢ i → grown (d + 4 * j) ≡ w (d + 4 * j)
  dir_word j h ne =
      let other : (d + 4 * j == d + 4 * i) ≡ false = ground arith in
      rw (other, frame_apart d t j v.dir v.free.0 (λ e. t_ne (sym e)) h)

  dir_here : grown (d + 4 * i) ≡ bit_or (v2p t) pte_all
  dir_here = let here : (d + 4 * i == d + 4 * i) ≡ true = ground arith in rw here

  -- A word of another table.
  table_word : (p k : ℕ) → IsFrame p → p ≢ d → p ≢ t → k < 1024 → grown (p + 4 * k) ≡ w (p + 4 * k)
  table_word p k f nd nt h =
      let other : (p + 4 * k == d + 4 * i) ≡ false =
        ==_ne (p + 4 * k) (d + 4 * i) (word_apart p d k i f v.dir nd h small) in
      rw (other, frame_apart p t k f v.free.0 nt h)

  new_word : (k : ℕ) → k < 1024 → grown (t + 4 * k) ≡ 0
  new_word k h =
      let other : (t + 4 * k == d + 4 * i) ≡ false =
        ==_ne (t + 4 * k) (d + 4 * i) (word_apart t d k i v.free.0 v.dir t_ne h small) in
      let inside : (leb t (t + 4 * k) && ltb (t + 4 * k) (t + 4096)) ≡ true = ground arith in
      rw (other, inside)

  has_new : has grown d i ≡ true
  has_new = rw dir_here ((entry_frame t v.free.0).0)

  table_new : table grown d i ≡ t
  table_new = ap (λ (e : ℕ). p2v (pte_addr e)) dir_here ∙ (entry_frame t v.free.0).1

  has_old : (j : ℕ) → j < 1024 → j ≢ i → has grown d j ≡ has w d j
  has_old j h ne = ap is_present (dir_word j h ne)

  table_old : (j : ℕ) → j < 1024 → j ≢ i → table grown d j ≡ table w d j
  table_old j h ne = ap (λ (e : ℕ). p2v (pte_addr e)) (dir_word j h ne)

  -- Another table is not the new one.
  old_ne : (j : ℕ) → j < 1024 → has w d j ≡ true → table w d j ≢ t
  old_ne j h p = λ e. (v.taken j h p).0 (sym e)

  here_same : (k : ℕ) → k < 1024 → entry_at grown d i k ≡ entry_at w d i k
  here_same k h =
      entry_at-table grown d i k t has_new table_new
      ∙ new_word k h
      ∙ sym (entry_at_none w d i k none_yet)

  there_same : (j k : ℕ) → j < 1024 → k < 1024 → j ≢ i → entry_at grown d j k ≡ entry_at w d j k
  there_same j k h l ne = elim (Bool-cases (has w d j)) [
    | inr no_table ↦
        entry_at_none grown d j k (has_old j h ne ∙ no_table) ∙ sym (entry_at_none w d j k no_table)
    | inl p ↦
        entry_at-table grown d j k (table w d j) (has_old j h ne ∙ p) (table_old j h ne)
        ∙ table_word (table w d j) k (v.frame j h p) (v.apart j h p) (old_ne j h p) l
        ∙ sym (entry_at-table w d j k (table w d j) p refl)
  ]

  -- What holds of the new table and of each old one holds of every table.
  each_table :
      (P : ℕ → ℕ → Type 0)
      → P i t
      → ((j : ℕ) → j < 1024 → has w d j ≡ true → j ≢ i → P j (table w d j))
      → (j : ℕ) → j < 1024
      → has grown d j ≡ true
      → P j (table grown d j)
  each_table P new old j h p = elim (ℕ_discrete j i) [
    | yes e ↦
        subst (λ (x : ℕ). P j x) (sym table_new ∙ ap (table grown d) (sym e))
          (subst (λ (x : ℕ). P x t) (sym e) new)
    | no ne ↦
        subst (λ (x : ℕ). P j x) (sym (table_old j h ne)) (old j h (sym (has_old j h ne) ∙ p) ne)
  ]

  grown-IsTable : IsTable d (record { words = grown; freelist = l })
  grown-IsTable = record {
    dir = v.dir;
    dir_taken = v.dir_taken.1;
    frame = each_table (λ j x. IsFrame x) v.free.0 (λ j h p ne. v.frame j h p);
    apart = each_table (λ j x. x ≢ d) t_ne (λ j h p ne. v.apart j h p);
    taken = each_table (λ j x. NotIn x l) v.free.1 (λ j h p ne. (v.taken j h p).1);
    distinct = λ j k hj hk pj pk.
        each_table (λ a x. x ≡ table grown d k → a ≡ k)
          (each_table (λ b y. t ≡ y → i ≡ b) (λ e. refl)
            (λ b h p ne e. absurd (old_ne b h p (sym e))) k hk pk)
          (λ a ha pa nea.
            each_table (λ b y. table w d a ≡ y → a ≡ b) (λ e. absurd (old_ne a ha pa e))
              (λ b hb pb neb e. v.distinct a b ha hb pa pb e) k hk pk)
          j hj pj;
    free = v.free.2;
  }

  grown-Walked :
      (k : ℕ)
      → Walked d i k
          (record { words = w; freelist = t ∷ l })
          (t + 4 * k)
          (record { words = grown; freelist = l })
  grown-Walked k = record {
    tables = grown-IsTable;
    same = λ j k' h h'. elim (ℕ_discrete j i) [
      | yes e ↦
          subst (λ (x : ℕ). entry_at grown d x k' ≡ entry_at w d x k') (sym e) (here_same k' h')
      | no ne ↦ there_same j k' h h' ne
    ];
    there = has_new;
    at = ap (λ (x : ℕ). x + 4 * k) (sym table_new);
  }

walk_new :
    (d va : ℕ) (w : ℕ → ℕ) (l : List ℕ)
    → IsTable d (record { words = w; freelist = l })
    → has w d (pdx va) ≡ false
    → ((a : ℕ) × (m' : Vm) × (walkpgdir d va true (record { words = w; freelist = l })
          ≡ (some a, m'))
        × Walked d (pdx va) (ptx va) (record { words = w; freelist = l }) a m')
      ⊎ ((walkpgdir d va true (record { words = w; freelist = l })
            ≡ (none, record { words = w; freelist = l }))
          × (l ≡ [])
          × (has w d (pdx va) ≡ false))
unfolding walkpgdir kalloc
walk_new d va w [] v p = inr (rw p refl, refl, p)
walk_new d va w (t ∷ l) v p = inl (
  t + 4 * ptx va,
  record { words = grown d (pdx va) t w l v p (omega arith); freelist = l },
  rw p refl,
  grown-Walked d (pdx va) t w l v p (omega arith) (ptx va),
)

-- With `alloc`, on a page table: it returns the entry's address and has changed no mapping, or null, for
-- lack of a page, and has changed nothing.
pub walkpgdir_lem :
    (d va : ℕ) (w : ℕ → ℕ) (l : List ℕ)
    → IsTable d (record { words = w; freelist = l })
    → ((a : ℕ) × (m' : Vm) × (walkpgdir d va true (record { words = w; freelist = l })
          ≡ (some a, m'))
        × Walked d (pdx va) (ptx va) (record { words = w; freelist = l }) a m')
      ⊎ ((walkpgdir d va true (record { words = w; freelist = l })
            ≡ (none, record { words = w; freelist = l }))
          × (l ≡ [])
          × (has w d (pdx va) ≡ false))
unfolding walkpgdir kalloc
walkpgdir_lem d va w l v = elim (Bool-cases (has w d (pdx va))) [
  | inl p ↦ inl (
    table w d (pdx va) + 4 * ptx va,
    record { words = w; freelist = l },
    rw p refl,
    record { tables = v; same = λ j k h h'. refl; there = p; at = refl },
  )
  | inr p ↦ walk_new d va w l v p
]
