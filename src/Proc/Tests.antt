-- ===== src/Proc/Tests.antt =====
-- The theorems on proc.c (xv6-public/proc.c) at a table of four slots.
use ele.Base.{
  ℕ, ◌+◌, ◌≤◌, ◌≡◌, refl, ◌≢◌, true, false, Option, none, some, List, [], ◌∷◌, arith, if◌then◌else◌,
  get_elem?, replicate, All-get, ltb, ok, panic, ◌>>=◌,
}
use ele.Base.Int.{pos}
use ele.Str.{Bytes}
use ele.Proc.{State, unused, runnable, running, zombie, state_eq, Chan, Proc, Kernel, Services}
use ele.Proc.Table.{is_unused, IsTable, put-next}
use ele.Proc.Life.{Waited, allocproc, exit, fork, wait_round, kill, wakeup}
use ele.Proc.Alloc.{Frame, Allocated, allocproc_lem}
use ele.Proc.Fork.{Forked, fork_lem}
use ele.Proc.Wait.{WaitOutcome, wait_round_lem}
use ele.Proc.Exit.{Exited, exit_lem}
use ele.Proc.Grow.{resize, growproc, growproc-locked}
use ele.Proc.Mlfq.{dispatch, priority_boost}
use ele.Proc.Policy.{CanRun, boost-dispatch}

-- A memory that hands out pages by number and refuses sizes above 8192.
abbrev memory : Services
memory = record {
  World = ℕ;
  kalloc = λ w. (some (w + 1), w + 1);
  kfree = λ _ w. w;
  copyuvm = λ _ _ w. (some (w + 1), w + 1);
  freevm = λ _ w. w;
  allocuvm = λ _ _ new w. (if ltb 8192 new then 0 else new, w);
  deallocuvm = λ _ _ new w. (new, w);
  filedup = λ _ w. w;
  fileclose = λ _ w. w;
  idup = λ _ w. w;
  iput = λ _ w. w;
}

abbrev no_name : Bytes
no_name _ = 0

abbrev unused_slot : Proc
unused_slot = record {
  sz = 0;
  pgdir = 0;
  kstack = 0;
  state = unused;
  pid = 0;
  parent = none;
  tf = record {
    edi = 0;
    esi = 0;
    ebp = 0;
    oesp = 0;
    ebx = 0;
    edx = 0;
    ecx = 0;
    eax = 0;
    gs = 0;
    fs = 0;
    es = 0;
    ds = 0;
    trapno = 0;
    err = 0;
    eip = 0;
    cs = 0;
    eflags = 0;
    esp = 0;
    ss = 0;
  };
  chan = Chan.null;
  killed = false;
  ofile = replicate 16 none;
  cwd = none;
  priority = 0;
  tq = 0;
  qlvl = 0;
  name = no_name;
  id = no_name;
}

-- A process that owns memory and a stack.
abbrev process : State → ℕ → Option ℕ → Proc
process s pid parent = record unused_slot {
  sz = 4096;
  pgdir = 7;
  kstack = 8;
  state = s;
  pid = pid;
  parent = parent;
  cwd = some 1;
}

abbrev shell : Proc
shell = record (process running 2 (some 0)) { ofile = some 5 ∷ replicate 15 none; priority = 3 }

abbrev table : List Proc
table = process runnable 1 none ∷ shell ∷ process zombie 3 (some 1) ∷ unused_slot ∷ []

table-IsTable : IsTable table 4
table-IsTable =
    put-next
      (put-next (put-next blank 0 (omega arith) (process runnable 1 none) refl) 1 (omega arith)
        shell refl)
      2 (omega arith) (process zombie 3 (some 1)) refl
  where
    empty : (i : ℕ) (p : Proc) → get_elem? (replicate 4 unused_slot) i ≡ some p → is_unused p ≡ true
    empty i p g =
        All-get (λ q. is_unused q ≡ true) (replicate 4 unused_slot) i
          (refl, (refl, (refl, (refl, tt)))) g

    blank : IsTable (replicate 4 unused_slot) 1
    blank = record {
      unique = λ i j p q ei ej ui uj e. absurd (ground (arith, empty i p ei));
      issued = λ i p e u. absurd (ground (arith, empty i p e));
    }

table-CanRun : CanRun table
table-CanRun d p g =
    All-get (λ q. state_eq q.state runnable ≡ true → (q.kstack ≢ 0) × (q.pgdir ≢ 0)) table d
      (
        λ h. (ground arith, ground arith),
        (λ h. absurd (cc), (λ h. absurd (cc), (λ h. absurd (cc), tt))),
      )
      g

abbrev kernel : Kernel ℕ
kernel = record { procs = table; nextpid = 4; initproc = 0; locked = false; world = 20 }

allocproc_lem_example :
    (k' : Kernel ℕ) × (r : Option ℕ) × (allocproc memory kernel ≡ ok (k', r))
    × Frame kernel k'
    × Allocated kernel k' r
allocproc_lem_example = allocproc_lem memory kernel refl table-IsTable (omega arith)

fork_lem_example :
    (k' : Kernel ℕ) × (r : Option ℕ) × (fork memory 1 kernel ≡ ok (k', r))
    × Frame kernel k'
    × Forked kernel k' 1 shell no_name r
fork_lem_example = fork_lem memory 1 shell kernel refl table-IsTable (omega arith) refl refl

wait_round_lem_example :
    (k' : Kernel ℕ) × (w : Waited) × (wait_round memory 1 kernel ≡ ok (k', w))
    × WaitOutcome memory 1 shell kernel k' w
wait_round_lem_example = wait_round_lem memory 1 shell kernel refl refl

grown_size : (resize memory (pos 100) shell 20).0 ≢ 0
unfolding resize
grown_size = omega arith

refused : (resize memory (pos 10000) shell 20).0 ≡ 0
unfolding resize
refused = refl

growproc-locked_example :
    (k' : Kernel ℕ) × (growproc memory 1 (pos 10000) kernel ≡ ok (k', false))
    × (k'.procs ≡ table)
    × ((pid : ℕ) → kill pid k' ≡ panic "acquire")
    × ((c : Chan) → wakeup c k' ≡ panic "acquire")
    × (allocproc memory k' ≡ panic "acquire")
    × ((i : ℕ) → wait_round memory i k' ≡ panic "acquire")
    × ((mlfq_k : ℕ) → dispatch mlfq_k k' ≡ panic "acquire")
growproc-locked_example =
    growproc-locked memory 1 (pos 10000) shell kernel refl refl (λ h. cc) refused

boost-dispatch_example :
    (k' : Kernel ℕ) × (i : ℕ) × (s : Proc) × ((priority_boost kernel >>= dispatch 3)
      ≡ ok (k', some i))
    × (get_elem? k'.procs i ≡ some s)
    × (s.state ≡ running)
    × (0 ≤ s.priority)
boost-dispatch_example =
    boost-dispatch 3 kernel 0 (process runnable 1 none) refl (omega arith) table-CanRun refl refl

exit_lem_example : (k' : Kernel ℕ) × (exit memory 1 kernel ≡ ok k') × Exited 1 4 shell k'.procs
exit_lem_example = exit_lem memory 1 shell kernel refl refl (omega arith)
