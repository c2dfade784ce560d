-- ===== src/Log/Commit/Install.antt =====
-- `install_trans`: which blocks it writes, and with what.
use os_lab_course_project.Prelude.{ℕ, zero, suc, ◌+◌, ◌-◌, ◌≤◌, ◌<◌, ◌≡◌, refl, ◌≢◌, ◌∙◌, ap, arith}
use native.Mathlib.Decide.{ℕ_discrete}
use os_lab_course_project.Log.Disk.{Store, bread, bwrite}
use os_lab_course_project.Log.Commit.{Log, install_from}
use os_lab_course_project.Log.Commit.Loops.{Fits}

module _ (l : Log) where
  round : Store → ℕ → Store
  round s t = bwrite s (l.block t) (bread s (l.start + t + 1))

  pub budget-install_from : (r t : ℕ) (s : Store) → (install_from l r t s).budget ≡ s.budget - r
  unfolding install_from bwrite
  budget-install_from zero t s = omega arith
  budget-install_from (suc r) t s =
      let s' = bwrite s (l.block t) (bread s (l.start + t + 1)) in
      ground (arith, budget-install_from r (t + 1) s')

  budget-round : (t : ℕ) (s : Store) → (round s t).budget ≡ s.budget - 1
  unfolding round bwrite
  budget-round t s = refl

  -- A block that is not in the transaction is left alone.
  pub install_from_other :
      (r t : ℕ) (s : Store) (x : ℕ)
      → ((i : ℕ) → t ≤ i → i < t + r → l.block i ≢ x)
      → ((install_from l r t s).disk x ≡ s.disk x) × ((install_from l r t s).view x ≡ s.view x)
  unfolding install_from bwrite
  install_from_other zero t s x h = (refl, refl)
  install_from_other (suc r) t s x h =
      let s' = bwrite s (l.block t) (bread s (l.start + t + 1)) in
      ground
        (arith, install_from_other r (t + 1) s' x (λ i p q. h i (omega arith) (omega arith)), h t)

  abbrev pub IsDistinct : ℕ → Type 0
  IsDistinct n = (i j : ℕ) → i < n → j < n → l.block i ≡ l.block j → i ≡ j

  -- One round writes its own home block, and no block of the log.
  round-disk :
      (t : ℕ) (s : Store) → 0 < s.budget → (round s t).disk (l.block t) ≡ s.view (l.start + t + 1)
  unfolding round bwrite bread
  round-disk t s h = ground arith

  round-view : (t : ℕ) (s : Store) (x : ℕ) → l.block t ≢ x → (round s t).view x ≡ s.view x
  unfolding round bwrite
  round-view t s x h = ground arith

  pub home-ne-log : {n : ℕ} → Fits l n → (i j : ℕ) → i < n → j < n → l.block i ≢ l.start + j + 1
  home-ne-log f i j p q e = ground (arith, f.room, f.home i p)

  -- With power for the whole loop, each home block gets what its log block holds.
  pub install_from_self :
      (n r t : ℕ) (s : Store) (i : ℕ)
      → n ≡ t + r
      → Fits l n
      → IsDistinct n
      → r ≤ s.budget
      → t ≤ i
      → i < n
      → (install_from l r t s).disk (l.block i) ≡ s.view (l.start + i + 1)
  unfolding install_from round
  install_from_self n zero t s i e f d p q k = absurd (omega arith)
  install_from_self n (suc r) t s i e f d p q k =
      let b = budget-round t s in
      elim (ℕ_discrete t i) [
        | yes same ↦
            (install_from_other r (t + 1) (round s t) (l.block i)
              (λ j u v w. absurd (omega (arith, d j i (omega arith) k w)))).0
            ∙ rw (← same) (round-disk t s (omega arith))
        | no later ↦
            install_from_self n r (t + 1) (round s t) i (omega arith) f d (omega arith)
              (omega arith) k
            ∙ round-view t s (l.start + i + 1) (home-ne-log f t i (omega arith) k)
      ]

-- With the power off nothing reaches the disk.
pub install_from-dead :
    (l : Log) (r t : ℕ) (s : Store) → s.budget ≡ 0 → (install_from l r t s).disk ≡ s.disk
unfolding install_from bwrite
install_from-dead l zero t s e = refl
install_from-dead l (suc r) t s e =
    ground (arith, install_from-dead l r (t + 1) (bwrite s (l.block t) (bread s (l.start + t + 1))))

-- The cache sees each write of `install_trans`, whether the power holds or not.
pub install_from-view :
    (l : Log) (n r t : ℕ) (s : Store) (i : ℕ)
    → n ≡ t + r
    → Fits l n
    → IsDistinct l n
    → t ≤ i
    → i < n
    → (install_from l r t s).view (l.block i) ≡ s.view (l.start + i + 1)
unfolding install_from round bwrite bread
install_from-view l n zero t s i e f d p k = absurd (omega arith)
install_from-view l n (suc r) t s i e f d p k = elim (ℕ_discrete t i) [
  | yes same ↦
      (install_from_other l r (t + 1) (round l s t) (l.block i)
        (λ j u v w. absurd (omega (arith, d j i (omega arith) k w)))).1
      ∙ ground (arith, ap l.block same, same)
  | no later ↦
      install_from-view l n r (t + 1) (round l s t) i (omega arith) f d (omega arith) k
      ∙ round-view l t s (l.start + i + 1) (home-ne-log l f t i (omega arith) k)
]
