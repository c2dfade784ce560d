-- ===== src/Spinlock/Tests.antt =====
-- CPU 0 owns the lock, and CPU 1 does not want it.
use os_lab_course_project.Prelude.{ℕ, ◌≡◌, ◌↔◌, refl, true, false, none, ok, arith, update}
use os_lab_course_project.Spinlock.{
  Cpu, initlock, acquire_start, acquire_end, xchg, pushcli, popcli,
}
use os_lab_course_project.Spinlock.Nesting.{IsValid, popcli-pushcli}
use os_lab_course_project.Spinlock.Exclusion.{
  outside, spinning, entered, inside, Sys, start, try, enter, Reach, begin, later, one_owner,
  interrupts_off,
}

abbrev user_cpu : Cpu
user_cpu = record { ncli = 0; intena = false; iflag = true }

user_cpu-IsValid : IsValid user_cpu
user_cpu-IsValid = omega arith

abbrev kernel_cpu : Cpu
kernel_cpu = record { ncli = 1; intena = true; iflag = false }

popcli-pushcli_example :
    ((pushcli user_cpu).iflag ≡ false)
    × (popcli (pushcli user_cpu) ≡ ok (record user_cpu { intena = true }))
popcli-pushcli_example = popcli-pushcli user_cpu user_cpu-IsValid

acquire_start-init : acquire_start 0 initlock user_cpu ≡ ok kernel_cpu
unfolding acquire_start initlock
acquire_start-init = refl

xchg-init : xchg initlock ≡ (false, record { locked = true; cpu = none })
unfolding xchg initlock
xchg-init = refl

abbrev spun : Sys
spun = record {
  lock = acquire_end 0 (record { locked = true; cpu = none });
  cpu = update (λ _. user_cpu) 0 kernel_cpu;
  place = update (update (update (λ _. outside) 0 spinning) 0 entered) 0 inside;
}

spun-Reach : Reach spun
spun-Reach =
    later (later (later begin (start 0 refl acquire_start-init)) (try 0 refl xchg-init))
      (enter 0 refl)

one_owner_example : ◌≡◌ {A = ℕ} 0 0
one_owner_example = one_owner 0 0 spun-Reach refl refl

interrupts_off_example : (spun.place 1 ≡ outside) ↔ ((spun.cpu 1).iflag ≡ true)
interrupts_off_example = interrupts_off 1 spun-Reach
