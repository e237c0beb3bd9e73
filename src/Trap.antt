-- ===== src/Trap.antt =====
-- The timer interrupt of trap.c (xv6-public/trap.c), as a build with -D MLFQ_SCHED has it: the arm of
-- `trap` for T_IRQ0 + IRQ_TIMER and what `trap` does behind its switch. `cur` is the slot of
-- `myproc()`, or none. The clock counts in `ticks`; processes wait for it on its address.
pub mod Levels
pub mod Quantum
mod Tests
use ele.Base.{
  ℕ, ◌+◌, ◌*◌, ◌%◌, ◌^◌, Bool, true, false, ◌&&◌, Option, none, some, ◌==◌, leb, if◌then◌else◌,
  get_elem?, Result, ok, panic, ◌>>=◌, ◌>>◌,
}
use ele.Proc.{State, running, state_eq, Chan, Proc, Kernel, proc_at}
use ele.Proc.Life.{wakeup, yield_cpu}
use ele.Proc.Mlfq.{update_tq, qlvl_down, priority_boost}

-- The address of `ticks`, as a channel.
abbrev pub ticks_chan : Chan
ticks_chan = Chan.object 0

abbrev pub charge : {W : Type 0} → Option ℕ → Kernel W → Result (Kernel W)
charge none k = ok k
charge (some c) k = update_tq c k

-- The arm of the switch. `first_cpu` is `cpuid() == 0`.
unfoldable pub clock : {W : Type 0} → Bool → Option ℕ → Kernel W → ℕ → Result (Kernel W × ℕ)
unfolding wakeup update_tq priority_boost
clock first_cpu cur k ticks =
    if first_cpu
    then (do
      k1 ← wakeup ticks_chan k
      k2 ← charge cur k1
      k3 ← (if (ticks + 1) % 2 ^ 32 % 100 == 0 then priority_boost k2 else ok k2)
      ok (k3, (ticks + 1) % 2 ^ 32))
    else ok (k, ticks)

-- `if(myproc()->tq >= myproc()->qlvl * 4 + 2) qlvl_down();` and `yield();`
unfoldable pub requeue : {W : Type 0} → ℕ → Proc → Kernel W → Result (Kernel W)
unfolding qlvl_down yield_cpu
requeue c p k =
    (if leb ((p.qlvl * 4 + 2) % 2 ^ 32) p.tq then qlvl_down c k else ok k) >>= yield_cpu c

-- Behind the switch, for the process in slot `c`: true says that it calls `exit` next, since it was
-- killed and was in user space.
unfoldable pub resched : {W : Type 0} → ℕ → Bool → Option Proc → Kernel W → Result (Kernel W × Bool)
unfolding requeue
resched c user none k = panic "page fault"
resched c user (some p) k =
    if p.killed && user
    then ok (k, true)
    else if state_eq p.state running
    then (do k' ← requeue c p k; ok (k', false))
    else ok (k, false)

-- A timer interrupt of a process: the clock, then the end of its turn.
unfoldable pub timer : {W : Type 0} → Bool → Bool → ℕ → Kernel W → ℕ → Result (Kernel W × ℕ × Bool)
unfolding clock resched
timer first_cpu user c k ticks = do
  (k1, ticks') ← clock first_cpu (some c) k ticks
  (k2, exits) ← resched c user (proc_at k1 c) k1
  ok (k2, ticks', exits)
