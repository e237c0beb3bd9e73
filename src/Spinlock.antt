-- ===== src/Spinlock.antt =====
-- Spinlocks (xv6-public/spinlock.c) and the interrupt flag of a CPU. A CPU is its number; `iflag` is
-- FL_IF of its eflags. acquire and release are cut where another CPU can see the lock change:
-- acquire is `begin_acquire`, then `xchg` until it finds the lock free, then `set_owner`; release is
-- `begin_release`, then `end_release`. The call stack in `pcs` is for debugging and left out. A
-- depth of pushcli is far below 2 ^ 31, so `ncli` is a number.
pub mod Cli
pub mod Exclusion
mod Tests
use ele.Base.{
  ℕ, ◌+◌, ◌-◌, Bool, true, false, ◌&&◌, not, Option, none, some, ◌==◌, leb, if◌then◌else◌, Result,
  ok, panic, ◌>>=◌, ◌>>◌, assert,
}

-- `struct cpu`: the fields of pushcli and popcli, with the interrupt flag
pub record Cpu : Type 0 where
  pub ncli : ℕ
  pub intena : Bool
  pub iflag : Bool

-- `struct spinlock`
pub record Lock : Type 0 where
  pub locked : Bool
  pub cpu : Option ℕ

unfoldable pub initlock : Lock
initlock = record { locked = false; cpu = none }

unfoldable pub pushcli : Cpu → Cpu
pushcli c = record c {
  iflag = false;
  intena = if c.ncli == 0 then c.iflag else c.intena;
  ncli = c.ncli + 1;
}

unfoldable pub popcli : Cpu → Result Cpu
popcli c =
    assert (not c.iflag) "popcli - interruptible"
    >> assert (leb 1 c.ncli) "popcli"
    >> ok (record c {
      ncli = c.ncli - 1;
      iflag = if c.ncli - 1 == 0 && c.intena then true else c.iflag;
    })

abbrev pub is_owner : ℕ → Option ℕ → Bool
is_owner i none = false
is_owner i (some j) = i == j

-- `holding` on CPU `i`
unfoldable pub holding : ℕ → Lock → Cpu → Result (Cpu × Bool)
unfolding pushcli popcli
holding i lk c = popcli (pushcli c) >>= λ c'. ok (c', lk.locked && is_owner i lk.cpu)

-- `pushcli(); if(holding(lk)) panic("acquire");`
unfoldable pub begin_acquire : ℕ → Lock → Cpu → Result Cpu
unfolding holding pushcli
begin_acquire i lk c = holding i lk (pushcli c) >>= λ r. assert (not (r.1)) "acquire" >> ok (r.0)

-- `xchg(&lk->locked, 1)`: the lock, and whether it was free.
unfoldable pub xchg : Lock → Lock × Bool
xchg lk = (record lk { locked = true }, not lk.locked)

-- `lk->cpu = mycpu()`
unfoldable pub set_owner : ℕ → Lock → Lock
set_owner i lk = record lk { cpu = some i }

-- `release` up to the store that frees the lock
unfoldable pub begin_release : ℕ → Lock → Cpu → Result (Lock × Cpu)
unfolding holding
begin_release i lk c =
    holding i lk c >>= λ r. assert (r.1) "release" >> ok (record lk { cpu = none }, r.0)

-- `movl $0, lk->locked`, and `popcli`
unfoldable pub end_release : Lock → Cpu → Result (Lock × Cpu)
unfolding popcli
end_release lk c = popcli c >>= λ c'. ok (record lk { locked = false }, c')
