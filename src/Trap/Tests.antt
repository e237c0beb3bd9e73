-- ===== src/Trap/Tests.antt =====
-- The theorem on the timer (xv6-public/trap.c) at a table of one process.
use ele.Base.{ℕ, ◌≡◌, refl, true, false, none, some, [], ◌∷◌, arith, get_elem?, All, replicate, ok}
use ele.Str.{Bytes}
use ele.Proc.{runnable, running, Chan, Proc, Kernel}
use ele.Trap.{timer}
use ele.Trap.Levels.{Level, turn_end}
use ele.Trap.Quantum.{timer_lem}

abbrev no_name : Bytes
no_name _ = 0

-- A process that has used the last tick but one of level 1.
abbrev worker : Proc
worker = record {
  sz = 4096;
  pgdir = 7;
  kstack = 8;
  state = running;
  pid = 1;
  parent = none;
  tf = record {
    edi = 0;
    esi = 0;
    ebp = 0;
    oesp = 0;
    ebx = 0;
    edx = 0;
    ecx = 0;
    eax = 0;
    gs = 0;
    fs = 0;
    es = 0;
    ds = 0;
    trapno = 0;
    err = 0;
    eip = 0;
    cs = 0;
    eflags = 0;
    esp = 0;
    ss = 0;
  };
  chan = Chan.null;
  killed = false;
  ofile = replicate 16 none;
  cwd = none;
  priority = 0;
  tq = 5;
  qlvl = 1;
  name = no_name;
  id = no_name;
}

abbrev kernel : Kernel ℕ
kernel = record { procs = worker ∷ []; nextpid = 2; initproc = 0; locked = false; world = 0 }

worker-Level : Level 3 worker
worker-Level = record { exists_ = omega arith; unspent = omega arith; turn = λ _. omega arith }

timer_lem_example :
    (k' : Kernel ℕ) × (p' : Proc) × (timer true true 0 kernel 41 ≡ ok (k', 42, false))
    × (get_elem? k'.procs 0 ≡ some p')
    × (p'.state ≡ runnable)
    × ((p'.qlvl, p'.tq) ≡ turn_end true 41 worker)
    × All (Level 3) k'.procs
timer_lem_example =
    timer_lem 3 true true kernel 0 41 worker (omega arith) refl refl refl (worker-Level, tt) refl
