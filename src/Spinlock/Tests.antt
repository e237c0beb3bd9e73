-- ===== src/Spinlock/Tests.antt =====
-- The theorems on spinlocks (xv6-public/spinlock.c) at two CPUs.
use ele.Base.{ℕ, ◌≡◌, refl, true, false, arith, ok, none}
use ele.Spinlock.{
  Cpu, Lock, initlock, pushcli, popcli, holding, begin_acquire, begin_release, end_release,
}
use ele.Spinlock.Cli.{IsCpu, push_all, pop_all, pop_all-push_all}
use ele.Spinlock.Exclusion.{
  outside, spinning, inside, leaving, System, move, Reach, start, later, begin, has,
  Reach-exclusive,
}

-- A CPU in user space.
abbrev open_cpu : Cpu
open_cpu = record { ncli = 0; intena = false; iflag = true }

open_cpu-IsCpu : IsCpu open_cpu
open_cpu-IsCpu = record { off = λ h. absurd (omega arith) }

pop_all-push_all_example :
    ((push_all 3 open_cpu).iflag ≡ false)
    × ((c' : Cpu) × (pop_all 3 (push_all 3 open_cpu) ≡ ok c') × (c'.ncli ≡ 0) × (c'.iflag ≡ true))
pop_all-push_all_example = pop_all-push_all 2 open_cpu open_cpu-IsCpu

abbrev idle : System
idle = record {
  lock = record { locked = false; cpu = none };
  cpu = λ _. open_cpu;
  phase = λ _. outside;
}

idle-Reach : Reach idle
unfolding initlock
idle-Reach = start idle refl (λ i. refl) (λ i. open_cpu-IsCpu)

-- CPU 1 begins to acquire the lock.
abbrev waiting : System
waiting = move idle 1 idle.lock (record { ncli = 1; intena = true; iflag = false }) spinning

waiting-Reach : Reach waiting
unfolding begin_acquire holding pushcli popcli
waiting-Reach = later idle-Reach (begin 1 refl refl)

Reach-exclusive_example :
    ((i j : ℕ) → has (waiting.phase i) ≡ true → has (waiting.phase j) ≡ true → i ≡ j)
    × ((i : ℕ)
        → waiting.phase i ≡ outside
        → (c : Cpu) × (begin_acquire i waiting.lock (waiting.cpu i) ≡ ok c))
    × ((i : ℕ)
        → waiting.phase i ≡ inside
        → ((waiting.cpu i).iflag ≡ false)
          × ((r : Lock × Cpu) × (begin_release i waiting.lock (waiting.cpu i) ≡ ok r)))
    × ((i : ℕ)
        → waiting.phase i ≡ leaving
        → (r : Lock × Cpu) × (end_release waiting.lock (waiting.cpu i) ≡ ok r))
Reach-exclusive_example = Reach-exclusive waiting-Reach
