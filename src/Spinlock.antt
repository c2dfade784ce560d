-- ===== src/Spinlock.antt =====
-- xv6/spinlock.c: `pushcli`, `popcli`, `holding`, `acquire` and `release`.
pub mod Nesting
pub mod Exclusion
mod Tests
use os_lab_course_project.Prelude.{
  ℕ, zero, suc, ◌+◌, Bool, true, false, not, ◌&&◌, ◌==◌, if◌then◌else◌, Option, none, some, Result,
  ok, panic, ◌>>=◌, add32, sub32, slt32,
}

-- What xv6/proc.h keeps for a CPU and is used here, and the interrupt flag of its eflags.
pub record Cpu : Type 0 where
  pub ncli : ℕ
  pub intena : Bool
  pub iflag : Bool

pub pushcli : Cpu → Cpu
pushcli c = record {
  ncli = add32 c.ncli 1;
  intena = if c.ncli == 0 then c.iflag else c.intena;
  iflag = false;
}

pub popcli : Cpu → Result Cpu
popcli c =
    let n = sub32 c.ncli 1 in
    if c.iflag
    then panic "popcli - interruptible\n"
    else if slt32 n 0
    then panic "popcli\n"
    else ok (record c { ncli = n; iflag = n == 0 && c.intena })

-- `struct spinlock`, less what is kept for debugging only; `cpu` is the number of the CPU.
pub record Lock : Type 0 where
  pub locked : Bool
  pub cpu : Option ℕ

pub initlock : Lock
initlock = record { locked = false; cpu = none }

is_cpu : Option ℕ → ℕ → Bool
is_cpu none me = false
is_cpu (some c) me = c == me

-- Run on CPU `me`, whose state is `c`.
pub holding : ℕ → Lock → Cpu → Result (Bool × Cpu)
unfolding is_cpu pushcli popcli
holding me lk c = popcli (pushcli c) >>= λ c'. ok (lk.locked && is_cpu lk.cpu me, c')

-- `acquire` up to its loop.
pub acquire_start : ℕ → Lock → Cpu → Result Cpu
unfolding holding
acquire_start me lk c =
    holding me lk (pushcli c) >>= λ (held, c'). if held then panic "acquire\n" else ok c'

-- One `xchg(&lk->locked, 1)`: the old value and the lock.
pub xchg : Lock → Bool × Lock
xchg lk = (lk.locked, record lk { locked = true })

-- The end of `acquire`.
pub acquire_end : ℕ → Lock → Lock
acquire_end me lk = record lk { cpu = some me }

pub release : ℕ → Lock → Cpu → Result (Lock × Cpu)
unfolding holding
release me lk c = holding me lk c >>= λ (held, c').
    if held
    then (popcli c' >>= λ c''. ok (record { locked = false; cpu = none }, c''))
    else panic "release\n"
