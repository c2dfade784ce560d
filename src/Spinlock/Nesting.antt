-- ===== src/Spinlock/Nesting.antt =====
-- `pushcli` and `popcli` are matched: interrupts come back with the last `popcli`, if they were on.
use os_lab_course_project.Prelude.{
  ℕ, zero, suc, ◌+◌, ◌-◌, ◌^◌, ◌<◌, ◌≤◌, ◌≡◌, refl, ◌⊎◌, ◌==◌, false, if◌then◌else◌, Result, ok,
  ◌>>=◌, arith,
}
use os_lab_course_project.Spinlock.{Cpu, pushcli, popcli}

-- Inside a `pushcli` interrupts are off.
pub record IsValid (c : Cpu) : Type 0 where
  pub shallow : c.ncli < 2 ^ 30
  pub masked : (c.ncli ≡ 0) ⊎ (c.iflag ≡ false)

-- `pushcli` turns interrupts off; the matching `popcli` does not panic and restores the depth and
-- the interrupt flag.
pub popcli-pushcli :
    (c : Cpu)
    → IsValid c
    → ((pushcli c).iflag ≡ false)
      × (popcli (pushcli c) ≡ ok (record c { intena = if c.ncli == 0 then c.iflag else c.intena }))
unfolding pushcli popcli
popcli-pushcli c v = ground arith

pub pushes : ℕ → Cpu → Cpu
pushes zero c = c
pushes (suc n) c = pushes n (pushcli c)

pub pops : ℕ → Cpu → Result Cpu
pops zero c = ok c
pops (suc n) c = popcli c >>= λ c'. pops n c'

-- The state inside `n + 1` calls of `pushcli`.
abbrev deep : Cpu → ℕ → Cpu
deep c n = record {
  ncli = c.ncli + suc n;
  intena = if c.ncli == 0 then c.iflag else c.intena;
  iflag = false;
}

pushes-deep : (n : ℕ) (c : Cpu) → IsValid c → c.ncli + suc n < 2 ^ 30 → pushes (suc n) c ≡ deep c n
unfolding pushes pushcli
pushes-deep zero c v h = ground arith
pushes-deep (suc n) c v h = ground (arith, pushes-deep n (pushcli c) (ground arith))

-- Below the outermost `popcli` interrupts stay off.
pops-deep :
    (k n : ℕ) (c : Cpu) → k ≤ n → c.ncli + suc n < 2 ^ 30 → pops k (deep c n) ≡ ok (deep c (n - k))
unfolding pops popcli
pops-deep zero n c h b = ground arith
pops-deep (suc k) n c h b = ground (arith, pops-deep k (n - 1) c (omega arith) (omega arith))

pops-last :
    (n : ℕ) (c : Cpu)
    → IsValid c
    → c.ncli + suc n < 2 ^ 30
    → pops (suc n) (deep c n) ≡ ok (record c { intena = if c.ncli == 0 then c.iflag else c.intena })
unfolding pops popcli
pops-last zero c v b = ground arith
pops-last (suc n) c v b = ground (arith, pops-last n c v)

-- After `n + 1` calls of `pushcli`, any `k` calls of `popcli` with `k ≤ n` do not panic and leave
-- interrupts off, and `n + 1` calls do not panic and restore the depth and the interrupt flag.
pub pops-pushes :
    (k n : ℕ) (c : Cpu)
    → IsValid c
    → c.ncli + suc n < 2 ^ 30
    → k ≤ n
    → ((c' : Cpu) × (pops k (pushes (suc n) c) ≡ ok c') × (c'.iflag ≡ false))
      × ((c' : Cpu) × (pops (suc n) (pushes (suc n) c) ≡ ok c')
          × (c'.iflag ≡ c.iflag)
          × (c'.ncli ≡ c.ncli))
pops-pushes k n c v b h = (
  (deep c (n - k), ground (arith, pushes-deep n c v b, pops-deep k n c h b), refl),
  (
    record c { intena = if c.ncli == 0 then c.iflag else c.intena },
    rw (pushes-deep n c v b) (pops-last n c v b),
    refl,
    refl,
  ),
)
