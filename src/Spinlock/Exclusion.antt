-- ===== src/Spinlock/Exclusion.antt =====
-- Mutual exclusion of CPUs that use one spin lock, interleaved at each shared access.
use os_lab_course_project.Prelude.{
  ℕ, ◌≡◌, refl, ◌≢◌, ◌⊎◌, inl, inr, ap, ◌↔◌, Bool-cases, Bool, true, false, if◌then◌else◌, some, ok,
  panic, update, arith,
}
use os_lab_course_project.Spinlock.{Cpu, Lock, initlock, acquire_start, xchg, acquire_end, release}

-- `entered` is past the loop of `acquire`, before it has set `cpu`.
pub data Place : Type 0 where
  outside spinning entered inside : Place

pub record Sys : Type 0 where
  pub lock : Lock
  pub cpu : ℕ → Cpu
  pub place : ℕ → Place

pub data Step (s : Sys) : Sys → Type 0 where
  start :
      (me : ℕ) {c : Cpu}
      → s.place me ≡ outside
      → acquire_start me s.lock (s.cpu me) ≡ ok c
      → Step s (record s { cpu = update s.cpu me c; place = update s.place me spinning })
  try :
      (me : ℕ) {old : Bool} {lk : Lock}
      → s.place me ≡ spinning
      → xchg s.lock ≡ (old, lk)
      → Step s
          (record s { lock = lk; place = update s.place me (if old then spinning else entered) })
  enter :
      (me : ℕ)
      → s.place me ≡ entered
      → Step s (record s { lock = acquire_end me s.lock; place = update s.place me inside })
  leave :
      (me : ℕ) {lk : Lock} {c : Cpu}
      → s.place me ≡ inside
      → release me s.lock (s.cpu me) ≡ ok (lk, c)
      → Step s (record { lock = lk; cpu = update s.cpu me c; place = update s.place me outside })

-- Interrupts on and no `pushcli` pending, on every CPU.
abbrev pub init : Sys
init = record {
  lock = initlock;
  cpu = λ _. record { ncli = 0; intena = false; iflag = true };
  place = λ _. outside;
}

pub data Reach : Sys → Type 0 where
  begin : Reach init
  later : {s t : Sys} → Reach s → Step s t → Reach t

abbrev depth : Place → ℕ
depth outside = 0
depth _ = 1

abbrev pub owns : Place → Bool
owns entered = true
owns inside = true
owns _ = false

abbrev idle : Place → Bool
idle outside = true
idle _ = false

pub record Inv (s : Sys) : Type 0 where
  pub nested : (a : ℕ) → (s.cpu a).ncli ≡ depth (s.place a)
  pub flag : (a : ℕ) → (s.cpu a).iflag ≡ idle (s.place a)
  pub saved : (a : ℕ) → (idle (s.place a) ≡ true) ⊎ ((s.cpu a).intena ≡ true)
  pub taken : (a : ℕ) → owns (s.place a) ≡ true → s.lock.locked ≡ true
  pub unique : (a b : ℕ) → owns (s.place a) ≡ true → owns (s.place b) ≡ true → a ≡ b
  pub owner : (a : ℕ) → s.place a ≡ inside → s.lock.cpu ≡ some a
  pub owned : (a : ℕ) → s.lock.cpu ≡ some a → s.place a ≡ inside

abbrev on_cpu : Cpu
on_cpu = record { ncli = 0; intena = true; iflag = true }

abbrev masked_cpu : Cpu
masked_cpu = record { ncli = 1; intena = true; iflag = false }

acquire_start-free :
    (me : ℕ) (lk : Lock) (c : Cpu)
    → lk.cpu ≢ some me
    → c.ncli ≡ 0
    → c.iflag ≡ true
    → acquire_start me lk c ≡ ok masked_cpu
unfolding acquire_start
acquire_start-free me lk c h d f = ground arith

release-held :
    (me : ℕ) (lk : Lock) (c : Cpu)
    → lk.cpu ≡ some me
    → lk.locked ≡ true
    → c ≡ masked_cpu
    → release me lk c ≡ ok (initlock, on_cpu)
unfolding release initlock
release-held me lk c h l e = ground arith

start-Inv :
    (s : Sys) (me : ℕ)
    → Inv s
    → s.place me ≡ outside
    → Inv (record s { cpu = update s.cpu me masked_cpu; place = update s.place me spinning })
start-Inv s me v e = record {
  nested = λ a. ground (arith, v.nested a);
  flag = λ a. ground (arith, v.flag a);
  saved = λ a. ground (arith, v.saved a);
  taken = λ a p. ground (arith, v.taken a);
  unique = λ a b p q. ground (arith, v.unique a b);
  owner = λ a p. ground (arith, v.owner a);
  owned = λ a p. ground (arith, v.owned a p);
}

missed-Inv :
    (s : Sys) (me : ℕ)
    → Inv s
    → s.place me ≡ spinning
    → s.lock.locked ≡ true
    → Inv (record s { lock = record s.lock { locked = true }; place = update s.place me spinning })
missed-Inv s me v e l = record {
  nested = λ a. ground (arith, v.nested a, ap s.place {x = a} {y = me});
  flag = λ a. ground (arith, v.flag a, ap s.place {x = a} {y = me});
  saved = λ a. ground (arith, v.saved a, ap s.place {x = a} {y = me});
  taken = λ a p. refl;
  unique = λ a b p q. ground (arith, v.unique a b);
  owner = λ a p. ground (arith, v.owner a);
  owned = λ a p. ground (arith, v.owned a p);
}

won-Inv :
    (s : Sys) (me : ℕ)
    → Inv s
    → s.place me ≡ spinning
    → s.lock.locked ≡ false
    → Inv (record s { lock = record s.lock { locked = true }; place = update s.place me entered })
won-Inv s me v e l = record {
  nested = λ a. ground (arith, v.nested a, ap s.place {x = a} {y = me});
  flag = λ a. ground (arith, v.flag a, ap s.place {x = a} {y = me});
  saved = λ a. ground (arith, v.saved a, ap s.place {x = a} {y = me});
  taken = λ a p. refl;
  unique = λ a b p q. ground (arith, v.taken a, v.taken b);
  owner = λ a p. ground (arith, v.owner a);
  owned = λ a p. ground (arith, v.owned a p);
}

enter-Inv :
    (s : Sys) (me : ℕ)
    → Inv s
    → s.place me ≡ entered
    → Inv (record s { lock = acquire_end me s.lock; place = update s.place me inside })
unfolding acquire_end
enter-Inv s me v e = record {
  nested = λ a. ground (arith, v.nested a, ap s.place {x = a} {y = me});
  flag = λ a. ground (arith, v.flag a, ap s.place {x = a} {y = me});
  saved = λ a. ground (arith, v.saved a, ap s.place {x = a} {y = me});
  taken = λ a p. ground (arith, v.taken a, v.taken me);
  unique = λ a b p q. ground (
    arith,
    v.unique a b,
    ap s.place {x = a} {y = me},
    ap s.place {x = b} {y = me},
    v.unique a me,
    v.unique me b,
  );
  owner = λ a p. ground (arith, v.unique a me);
  owned = λ a p. ground arith;
}

leave-Inv :
    (s : Sys) (me : ℕ)
    → Inv s
    → s.place me ≡ inside
    → Inv (record {
      lock = initlock;
      cpu = update s.cpu me on_cpu;
      place = update s.place me outside;
    })
unfolding initlock
leave-Inv s me v e = record {
  nested = λ a. ground (arith, v.nested a);
  flag = λ a. ground (arith, v.flag a);
  saved = λ a. ground (arith, v.saved a);
  taken = λ a p. ground (arith, v.unique a me);
  unique = λ a b p q. ground (arith, v.unique a b);
  owner = λ a p. ground (arith, v.unique a me);
  owned = λ a p. cc p;
}

not-owner : (s : Sys) (me : ℕ) → Inv s → s.place me ≡ outside → s.lock.cpu ≢ some me
not-owner s me v e h = ground (arith, v.owned me h)

held-cpu : (s : Sys) (me : ℕ) → Inv s → s.place me ≡ inside → s.cpu me ≡ masked_cpu
held-cpu s me v e = ground (arith, v.nested me, v.flag me, v.saved me)

start-eq :
    (s : Sys) (me : ℕ)
    → Inv s
    → s.place me ≡ outside
    → acquire_start me s.lock (s.cpu me) ≡ ok masked_cpu
start-eq s me v e =
    acquire_start-free me s.lock (s.cpu me) (not-owner s me v e) (ground (arith, v.nested me))
      (ground (arith, v.flag me))

leave-eq :
    (s : Sys) (me : ℕ)
    → Inv s
    → s.place me ≡ inside
    → release me s.lock (s.cpu me) ≡ ok (initlock, on_cpu)
leave-eq s me v e =
    release-held me s.lock (s.cpu me) (v.owner me e) (v.taken me (ground arith)) (held-cpu s me v e)

try-Inv :
    (s : Sys) (me : ℕ) {old : Bool} {lk : Lock}
    → Inv s
    → s.place me ≡ spinning
    → xchg s.lock ≡ (old, lk)
    → Inv (record s { lock = lk; place = update s.place me (if old then spinning else entered) })
unfolding xchg
try-Inv s me {old} {lk} v e x = elim (Bool-cases s.lock.locked) [
  | inl t ↦
      let e0 : old ≡ true = ground arith in
      let e1 : lk ≡ record s.lock { locked = true } = ground arith in
      rw (e0, e1) (missed-Inv s me v e t)
  | inr f ↦
      let e0 : old ≡ false = ground arith in
      let e1 : lk ≡ record s.lock { locked = true } = ground arith in
      rw (e0, e1) (won-Inv s me v e f)
]

pub Step-Inv : {s t : Sys} → Step s t → Inv s → Inv t
Step-Inv {s} (start me {c = c} e a) v =
    let e0 : c ≡ masked_cpu = ground (arith, start-eq s me v e) in rw e0 (start-Inv s me v e)
Step-Inv {s} (try me e x) v = try-Inv s me v e x
Step-Inv {s} (enter me e) v = enter-Inv s me v e
Step-Inv {s} (leave me {lk = lk} {c = c} e r) v =
    let e0 : c ≡ on_cpu = ground (arith, leave-eq s me v e) in
    let e1 : lk ≡ initlock = ground (arith, leave-eq s me v e) in rw (e0, e1) (leave-Inv s me v e)

pub Reach-Inv : {s : Sys} → Reach s → Inv s
unfolding initlock
Reach-Inv begin = record {
  nested = λ a. refl;
  flag = λ a. refl;
  saved = λ a. inl refl;
  taken = λ a p. cc p;
  unique = λ a b p q. cc p;
  owner = λ a p. cc p;
  owned = λ a p. cc p;
}
Reach-Inv (later r st) = Step-Inv st (Reach-Inv r)

-- In every reachable state of CPUs that use one spin lock, at most one has won it and not yet
-- released it.
pub one_owner :
    {s : Sys} (a b : ℕ) → Reach s → owns (s.place a) ≡ true → owns (s.place b) ≡ true → a ≡ b
one_owner a b r p q = (Reach-Inv r).unique a b p q

-- From the start of `acquire` to the end of `release` a CPU has interrupts off, and it has them on
-- at all other times, if it started so.
pub interrupts_off : {s : Sys} (a : ℕ) → Reach s → (s.place a ≡ outside) ↔ ((s.cpu a).iflag ≡ true)
interrupts_off {s} a r =
    let v = Reach-Inv r in (λ h. ground (arith, v.flag a), λ h. ground (arith, v.flag a))

-- No panic: in a reachable state a CPU that is outside can start to acquire, and one that is inside
-- can release, which frees the lock and turns its interrupts on again.
pub start_and_release :
    {s : Sys} (a b : ℕ)
    → Reach s
    → s.place a ≡ outside
    → s.place b ≡ inside
    → ((c : Cpu) × (acquire_start a s.lock (s.cpu a) ≡ ok c) × (c.iflag ≡ false))
      × ((lk : Lock) × (c : Cpu) × (release b s.lock (s.cpu b) ≡ ok (lk, c))
          × (lk.locked ≡ false)
          × (c.iflag ≡ true))
unfolding initlock
start_and_release {s} a b r e f =
    let v = Reach-Inv r in
    ((masked_cpu, start-eq s a v e, refl), (initlock, on_cpu, leave-eq s b v f, refl, refl))

-- In a reachable state a CPU that is inside panics if it acquires the lock again, and one that is
-- outside panics if it releases it.
pub misuse_panics :
    {s : Sys} (a b : ℕ)
    → Reach s
    → s.place a ≡ inside
    → s.place b ≡ outside
    → (acquire_start a s.lock (s.cpu a) ≡ panic "acquire\n")
      × (release b s.lock (s.cpu b) ≡ panic "release\n")
unfolding acquire_start release
misuse_panics {s} a b r e f =
    let v = Reach-Inv r in
    let c = held-cpu s a v e in
    let d = not-owner s b v f in
    (
      ground (arith, v.owner a, v.taken a, v.nested a, v.flag a),
      ground (arith, v.nested b, v.flag b),
    )
