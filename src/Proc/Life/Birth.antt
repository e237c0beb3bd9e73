-- ===== src/Proc/Life/Birth.antt =====
-- How a process begins (xv6-public/proc.c): allocproc, fork and fork2.
use ele.Base.{
  ℕ, ◌+◌, ◌%◌, ◌^◌, Option, none, some, List, [], ◌∷◌, if◌then◌else◌, set, Result, ok, panic, ◌>>=◌,
}
use ele.Str.{Bytes, put, strncpy, safestrcpy}
use ele.Proc.Table.{is_unused}
use ele.Proc.{unused, embryo, runnable, Proc, Kernel, Services, proc_at, put_proc, find}
use ele.Proc.Life.Sleep.{modify}

-- The string "root", which `allocproc` copies.
abbrev pub root_name : Bytes
root_name = put b'r' (put b'o' (put b'o' (put b't' (λ _. 0))))

-- Under the lock: the slot, its new pid, and the fields of an MLFQ_SCHED build.
unfoldable pub claim : {W : Type 0} → Kernel W → Option (ℕ × Kernel W)
unfolding strncpy
claim k = elim (find is_unused k.procs 0) [
  | none ↦ none
  | some i ↦ elim (proc_at k i) [
    | none ↦ none
    | some p ↦ some (
      i,
      record k {
        procs = set k.procs i (record p {
          state = embryo;
          pid = k.nextpid;
          tq = 0;
          qlvl = 0;
          priority = 0;
          id = strncpy p.id root_name 4;
        });
        nextpid = (k.nextpid + 1) % 2 ^ 32;
      },
    )
  ]
]

module _ (S : Services) where
  open S use {World}

  -- What follows `kalloc()` in `allocproc`, with the page that it returned.
  unfoldable pub give_stack : ℕ → Option ℕ × World → Kernel World → Result (Kernel World × Option ℕ)
  give_stack i (none, w) k =
      modify i (λ p. record p { state = unused; kstack = 0 }) (record k { world = w }) >>= λ k'.
      ok (k', none)
  give_stack i (some page, w) k =
      modify i (λ p. record p { kstack = page }) (record k { world = w }) >>= λ k'. ok (k', some i)

  unfoldable pub allocproc : Kernel World → Result (Kernel World × Option ℕ)
  unfolding claim give_stack
  allocproc k = if k.locked then panic "acquire" else elim (claim k) [
    | none ↦ ok (k, none)
    | some (i, k1) ↦ give_stack i (S.kalloc k1.world) k1
  ]

  -- `for(i = 0; i < NOFILE; i++) if(curproc->ofile[i]) np->ofile[i] = filedup(curproc->ofile[i]);`
  unfoldable pub dup_files : List (Option ℕ) → List (Option ℕ) → World → List (Option ℕ) × World
  dup_files [] to w = (to, w)
  dup_files (f ∷ fs) [] w = ([], w)
  dup_files (none ∷ fs) (g ∷ to) w = let (rest, w') = dup_files fs to w in (g ∷ rest, w')
  dup_files (some f ∷ fs) (g ∷ to) w =
      let (rest, w') = dup_files fs to (S.filedup f w) in (some f ∷ rest, w')

  -- `idup(curproc->cwd)`
  abbrev pub dup_cwd : Option ℕ → World → World
  dup_cwd none w = w
  dup_cwd (some ip) w = S.idup ip w

  -- The child that `fork` makes of slot `np`, from the page table `pgdir`.
  unfoldable pub become_child : ℕ → Proc → ℕ → Bytes → List (Option ℕ) → Proc → Proc
  unfolding strncpy safestrcpy
  become_child cur parent pgdir id files np = record np {
    pgdir = pgdir;
    sz = parent.sz;
    parent = some cur;
    tf = record (parent.tf) { eax = 0 };
    id = strncpy np.id id 16;
    ofile = files;
    cwd = parent.cwd;
    name = safestrcpy np.name parent.name 16;
    state = runnable;
  }

  -- `fork` and `fork2` from the result of `copyuvm` on: they differ in the id of the child.
  unfoldable pub fork_dir :
      ℕ → Proc → Bytes → ℕ → Proc → Option ℕ × World → Kernel World → Kernel World × Option ℕ
  unfolding dup_files become_child
  fork_dir cur parent id i np (none, w) k = (
    put_proc i (record np { kstack = 0; state = unused })
        (record k { world = S.kfree np.kstack w }),
    none,
  )
  fork_dir cur parent id i np (some pgdir, w) k =
      let (files, w') = dup_files parent.ofile np.ofile w in
      (
        put_proc i (become_child cur parent pgdir id files np)
            (record k { world = dup_cwd parent.cwd w' }),
        some np.pid,
      )

  -- Slot `i` is the one that `allocproc` gave: both processes are read.
  unfoldable pub fork_pair :
      ℕ
      → (Proc → Bytes)
      → ℕ
      → Option Proc
      → Option Proc
      → Kernel World
      → Result (Kernel World × Option ℕ)
  unfolding fork_dir
  fork_pair cur id i (some parent) (some np) k =
      ok (fork_dir cur parent (id parent) i np (S.copyuvm parent.pgdir parent.sz k.world) k)
  fork_pair cur id i _ _ k = panic "page fault"

  unfoldable pub fork_from :
      ℕ → (Proc → Bytes) → Kernel World × Option ℕ → Result (Kernel World × Option ℕ)
  unfolding fork_pair
  fork_from cur id (k, none) = ok (k, none)
  fork_from cur id (k, some i) = fork_pair cur id i (proc_at k cur) (proc_at k i) k

  unfoldable pub fork_as : ℕ → (Proc → Bytes) → Kernel World → Result (Kernel World × Option ℕ)
  unfolding allocproc fork_from
  fork_as cur id k = allocproc k >>= fork_from cur id

  unfoldable pub fork : ℕ → Kernel World → Result (Kernel World × Option ℕ)
  unfolding fork_as
  fork cur k = fork_as cur (λ p. p.id) k

  unfoldable pub fork2 : ℕ → Bytes → Kernel World → Result (Kernel World × Option ℕ)
  unfolding fork_as
  fork2 cur username k = fork_as cur (λ _. username) k
