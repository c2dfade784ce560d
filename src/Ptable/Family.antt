-- ===== src/Ptable/Family.antt =====
-- Parents: no process has an exited or freed one.
use os_lab_course_project.Prelude.{
  ℕ, zero, suc, ◌+◌, ◌<◌, ◌≡◌, refl, ◌⊎◌, inl, inr, ltb, leb, ◌&&◌, Bool, true, false,
  if◌then◌else◌, Option, some, arith, Bool-cases, ap, update, ◌∙◌, range-step, range-none,
}
use os_lab_course_project.Ptable.{
  State, unused, embryo, zombie, is_zombie, is_proc, is_child, proc_chan, Chan, Proc, Table,
  set_proc, nproc, wake_proc, wakeup1, adopt, reparent,
}
use os_lab_course_project.Ptable.Wake.{proc-wakeup1}

-- A process that can run: not one in the making, and not an exited one.
abbrev pub is_live : State → Bool
is_live unused = false
is_live zombie = false
is_live embryo = false
is_live _ = true

abbrev pub live : Table → ℕ → Bool
live t i = is_live (t.proc i).state

abbrev pub parent_of : Table → ℕ → Option ℕ
parent_of t i = (t.proc i).parent

pub record IsFamily (ini : ℕ) (t : Table) : Type 0 where
  pub init_live : live t ini ≡ true
  pub parent_live : (i p : ℕ) → i < nproc → parent_of t i ≡ some p → live t p ≡ true

-- A change that ends no process and makes only live ones parents.
pub record Keeps (t t' : Table) : Type 0 where
  pub lives : (p : ℕ) → live t p ≡ true → live t' p ≡ true
  pub parents : (i p : ℕ) → parent_of t' i ≡ some p → (parent_of t i ≡ some p) ⊎ (live t p ≡ true)

pub IsFamily-Keeps : {ini : ℕ} {t t' : Table} → Keeps t t' → IsFamily ini t → IsFamily ini t'
IsFamily-Keeps {ini} k f = record {
  init_live = k.lives ini f.init_live;
  parent_live = λ i p h e. elim (k.parents i p e) [
    | inl old ↦ k.lives p (f.parent_live i p h old)
    | inr l ↦ k.lives p l
  ];
}

pub Keeps-refl : (t : Table) → Keeps t t
Keeps-refl t = record { lives = λ p h. h; parents = λ i p e. inl e }

pub Keeps-set :
    (t : Table) (k : ℕ) (p : Proc)
    → (live t k ≡ true → is_live p.state ≡ true)
    → p.parent ≡ parent_of t k
    → Keeps t (set_proc t k p)
Keeps-set t k p l e = record {
  lives = λ q h. ground (arith, l, ap (live t) {x = q} {y = k});
  parents = λ i q h. inl (ground (arith, ap (parent_of t) {x = i} {y = k}));
}

live-wake_proc : (c : Chan) (p : Proc) → is_live (wake_proc c p).state ≡ is_live p.state
unfolding wake_proc
live-wake_proc c p = ground arith

parent-wake_proc : (c : Chan) (p : Proc) → (wake_proc c p).parent ≡ p.parent
unfolding wake_proc
parent-wake_proc c p = ground arith

pub live-wakeup1 : (c : Chan) (r i : ℕ) (t : Table) (j : ℕ) → live (wakeup1 c r i t) j ≡ live t j
live-wakeup1 c r i t j = ground (arith, proc-wakeup1 c r i t j, live-wake_proc c (t.proc j))

pub parent-wakeup1 :
    (c : Chan) (r i : ℕ) (t : Table) (j : ℕ) → parent_of (wakeup1 c r i t) j ≡ parent_of t j
parent-wakeup1 c r i t j = ground (arith, proc-wakeup1 c r i t j, parent-wake_proc c (t.proc j))

abbrev pub pass_on : ℕ → ℕ → Option ℕ → Option ℕ
pass_on me ini q = if is_proc me q then some ini else q

module _ (me ini : ℕ) where
  given : ℕ → Table → Table
  given i t = set_proc t i (record (t.proc i) { parent = some ini })

  live-given : (i : ℕ) (t : Table) (j : ℕ) → live (given i t) j ≡ live t j
  unfolding given
  live-given i t j = ground (arith, ap (live t) {x = i} {y = j})

  parent-given :
      (i : ℕ) (t : Table) (j : ℕ) → parent_of (given i t) j ≡ update (parent_of t) i (some ini) j
  unfolding given
  parent-given i t j = ground arith

  -- The three outcomes of the loop body.
  adopt-cases :
      (i : ℕ) (t : Table)
      → ((is_child me (t.proc i) ≡ false) × (adopt me ini i t ≡ t))
        ⊎ ((is_child me (t.proc i) ≡ true) × (adopt me ini i t ≡ given i t))
        ⊎ ((is_child me (t.proc i) ≡ true)
            × (is_zombie (t.proc i).state ≡ true)
            × (adopt me ini i t ≡ wakeup1 (proc_chan ini) nproc 0 (given i t)))
  unfolding adopt given
  adopt-cases i t = elim (Bool-cases (is_child me (t.proc i))) [
    | inr n ↦ inl (n, rw (n, adopt))
    | inl c ↦ elim (Bool-cases (is_zombie (t.proc i).state)) [
      | inr z ↦ inr (inl (c, rw (c, adopt, z)))
      | inl z ↦ inr (inr (c, z, rw (c, adopt, z)))
    ]
  ]

  live-adopt : (i : ℕ) (t : Table) (j : ℕ) → live (adopt me ini i t) j ≡ live t j
  live-adopt i t j = elim (adopt-cases i t) [
    | inl (_, e) ↦ rw e
    | inr (inl (_, e)) ↦ rw e (live-given i t j)
    | inr (inr (_, _, e)) ↦
        rw e (live-wakeup1 (proc_chan ini) nproc 0 (given i t) j ∙ live-given i t j)
  ]

  pass_on-child :
      (i : ℕ) (t : Table) (j : ℕ)
      → is_child me (t.proc i) ≡ true
      → update (parent_of t) i (some ini) j
        ≡ update (parent_of t) i (pass_on me ini (parent_of t i)) j
  pass_on-child i t j c = rw c

  pass_on-other :
      (i : ℕ) (t : Table) (j : ℕ)
      → is_child me (t.proc i) ≡ false
      → parent_of t j ≡ update (parent_of t) i (pass_on me ini (parent_of t i)) j
  pass_on-other i t j c = rw c (ground (arith, ap (parent_of t) {x = i} {y = j}))

  parent-adopt :
      (i : ℕ) (t : Table) (j : ℕ)
      → parent_of (adopt me ini i t) j ≡ update (parent_of t) i (pass_on me ini (parent_of t i)) j
  parent-adopt i t j = elim (adopt-cases i t) [
    | inl (c, e) ↦ rw e (pass_on-other i t j c)
    | inr (inl (c, e)) ↦ rw e (parent-given i t j ∙ pass_on-child i t j c)
    | inr (inr (c, _, e)) ↦ rw e (
        parent-wakeup1 (proc_chan ini) nproc 0 (given i t) j
        ∙ parent-given i t j
        ∙ pass_on-child i t j c)
  ]

  pub live-reparent : (r i : ℕ) (t : Table) (j : ℕ) → live (reparent me ini r i t) j ≡ live t j
  unfolding reparent
  live-reparent zero i t j = refl
  live-reparent (suc r) i t j = live-reparent r (i + 1) (adopt me ini i t) j ∙ live-adopt i t j

  pub parent-reparent :
      (r i : ℕ) (t : Table) (j : ℕ)
      → parent_of (reparent me ini r i t) j
        ≡ (if leb i j && ltb j (i + r) then pass_on me ini (parent_of t j) else parent_of t j)
  unfolding reparent
  parent-reparent zero i t j = range-none (pass_on me ini) (parent_of t) i j
  parent-reparent (suc r) i t j =
      parent-reparent r (i + 1) (adopt me ini i t) j
      ∙ rw (parent-adopt i t j) (range-step (pass_on me ini) (parent_of t) i r j)
