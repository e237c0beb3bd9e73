-- ===== src/Proc.antt =====
-- proc.h and the process table of proc.c (xv6-public/proc.c). The children hold its operations.
-- A pointer to a process is its slot in `ptable.proc`; the channel of a sleeping process is the
-- object whose address `sleep` was given. What a system call asks of the memory, the file table and
-- the inode cache is a `Services`. Signed fields that the code never makes negative (pid,
-- priority, tq, qlvl) are numbers; an increment wraps at 2 ^ 32. The contents of a kernel stack are
-- not modelled beyond the trap frame. ptable.lock is the field `locked`, held by this CPU.
pub mod Table
pub mod Life
pub mod Alloc
pub mod Fork
pub mod Wait
pub mod Wake
pub mod Orphans
pub mod Exit
pub mod Grow
pub mod Mlfq
pub mod Policy
mod Tests
use ele.Base.{
  ℕ, zero, suc, ◌+◌, ◌%◌, ◌^◌, Bool, true, false, ◌&&◌, Option, none, some, List, [], ◌∷◌, ◌==◌,
  if◌then◌else◌, get_elem?, set, length, Result, ok, panic,
}
use ele.Str.{Bytes}

abbrev pub nproc : ℕ
nproc = 64

abbrev pub nofile : ℕ
nofile = 16

-- `enum procstate`
pub data State : Type 0 where
  unused embryo sleeping runnable running zombie : State

abbrev pub state_eq : State → State → Bool
state_eq unused unused = true
state_eq embryo embryo = true
state_eq sleeping sleeping = true
state_eq runnable runnable = true
state_eq running running = true
state_eq zombie zombie = true
state_eq _ _ = false

-- A null channel, the address of a process's slot, or that of another object.
pub data Chan : Type 0 where
  null : Chan
  slot : ℕ → Chan
  object : ℕ → Chan

abbrev pub chan_eq : Chan → Chan → Bool
chan_eq null null = true
chan_eq (slot i) (slot j) = i == j
chan_eq (object i) (object j) = i == j
chan_eq _ _ = false

-- `struct trapframe` (xv6-public/x86.h), less its padding
pub record Trapframe : Type 0 where
  pub edi : ℕ
  pub esi : ℕ
  pub ebp : ℕ
  pub oesp : ℕ
  pub ebx : ℕ
  pub edx : ℕ
  pub ecx : ℕ
  pub eax : ℕ
  pub gs : ℕ
  pub fs : ℕ
  pub es : ℕ
  pub ds : ℕ
  pub trapno : ℕ
  pub err : ℕ
  pub eip : ℕ
  pub cs : ℕ
  pub eflags : ℕ
  pub esp : ℕ
  pub ss : ℕ

-- `struct proc`, with the fields of an MLFQ_SCHED build
pub record Proc : Type 0 where
  pub sz : ℕ
  pub pgdir : ℕ
  pub kstack : ℕ
  pub state : State
  pub pid : ℕ
  pub parent : Option ℕ
  pub tf : Trapframe
  pub chan : Chan
  pub killed : Bool
  pub ofile : List (Option ℕ)
  pub cwd : Option ℕ
  pub priority : ℕ
  pub tq : ℕ
  pub qlvl : ℕ
  pub name : Bytes
  pub id : Bytes

-- `ptable`, `nextpid` and `initproc`, with the rest of the kernel as `world`
pub record Kernel (W : Type 0) : Type 0 where
  pub procs : List Proc
  pub nextpid : ℕ
  pub initproc : ℕ
  pub locked : Bool
  pub world : W

-- What proc.c calls in kalloc.c, vm.c, file.c and fs.c. Null pointers are `none`.
pub record Services : Type 1 where
  pub World : Type 0
  pub kalloc : World → Option ℕ × World
  pub kfree : ℕ → World → World
  pub copyuvm : ℕ → ℕ → World → Option ℕ × World
  pub freevm : ℕ → World → World
  pub allocuvm : ℕ → ℕ → ℕ → World → ℕ × World
  pub deallocuvm : ℕ → ℕ → ℕ → World → ℕ × World
  pub filedup : ℕ → World → World
  pub fileclose : ℕ → World → World
  pub idup : ℕ → World → World
  pub iput : ℕ → World → World

module _ {W : Type 0} where
  abbrev pub proc_at : Kernel W → ℕ → Option Proc
  proc_at k i = get_elem? k.procs i

  abbrev pub put_proc : ℕ → Proc → Kernel W → Kernel W
  put_proc i p k = record k { procs = set k.procs i p }

  -- `acquire(&ptable.lock)`, work under the lock, and `release(&ptable.lock)`
  abbrev pub with_lock {ℓ} : {A : Type ℓ} → Kernel W → (Kernel W → A) → Result A
  with_lock k f = if k.locked then panic "acquire" else ok (f k)

-- `for(p = ptable.proc; p < &ptable.proc[NPROC]; p++) if(test) ...`: the first slot, from `i` on,
-- whose process passes a test.
unfoldable pub find : (Proc → Bool) → List Proc → ℕ → Option ℕ
find test [] i = none
find test (p ∷ ps) i = if test p then some i else find test ps (i + 1)
