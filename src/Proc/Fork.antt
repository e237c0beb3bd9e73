-- ===== src/Proc/Fork.antt =====
-- What `fork` and `fork2` (xv6-public/proc.c) do.
use ele.Base.{
  ℕ, ◌+◌, ◌^◌, ◌<◌, ◌≡◌, refl, ◌∙◌, ◌≢◌, false, Option, none, some, List, arith, get_elem?, set,
  length, length-set, get_elem?-lt, get_elem?-set_self, ok,
}
use ele.Str.{Bytes, strncpy}
use ele.Proc.{unused, runnable, Trapframe, Proc, Kernel, Services, put_proc}
use ele.Proc.Table.{is_unused, get_elem?-set, IsTable, put-unused, put-same}
use ele.Proc.Life.{allocproc, dup_files, become_child, fork_dir, fork_from, fork_as, fork, fork2}
use ele.Proc.Alloc.{Frame, NoNew, Fresh, Allocated, allocproc_lem}

-- Every register of a trap frame but eax is that of another.
pub record SameRegisters (t u : Trapframe) : Type 0 where
  pub same_edi : t.edi ≡ u.edi
  pub same_esi : t.esi ≡ u.esi
  pub same_ebp : t.ebp ≡ u.ebp
  pub same_oesp : t.oesp ≡ u.oesp
  pub same_ebx : t.ebx ≡ u.ebx
  pub same_edx : t.edx ≡ u.edx
  pub same_ecx : t.ecx ≡ u.ecx
  pub same_gs : t.gs ≡ u.gs
  pub same_fs : t.fs ≡ u.fs
  pub same_es : t.es ≡ u.es
  pub same_ds : t.ds ≡ u.ds
  pub same_trapno : t.trapno ≡ u.trapno
  pub same_err : t.err ≡ u.err
  pub same_eip : t.eip ≡ u.eip
  pub same_cs : t.cs ≡ u.cs
  pub same_eflags : t.eflags ≡ u.eflags
  pub same_esp : t.esp ≡ u.esp
  pub same_ss : t.ss ≡ u.ss

module _ {W : Type 0} where
  -- The child of the process `parent` in slot `cur`, with the id `id`.
  pub record Child (k k' : Kernel W) (cur : ℕ) (parent : Proc) (id : Bytes) (pid : ℕ) : Type 0 where
    pub at : ℕ
    pub proc : Proc
    pub here : get_elem? k'.procs at ≡ some proc
    pub issued : (pid ≡ k.nextpid) × (proc.pid ≡ pid)
    pub ready : proc.state ≡ runnable
    pub parented : proc.parent ≡ some cur
    pub size : proc.sz ≡ parent.sz
    pub result : proc.tf.eax ≡ 0
    pub registers : SameRegisters proc.tf parent.tf
    pub cwd : proc.cwd ≡ parent.cwd
    pub level : (proc.qlvl ≡ 0) × (proc.tq ≡ 0) × (proc.priority ≡ 0)
    pub named : (j : ℕ) → j < 16 → (b : Bytes) × (proc.id j ≡ strncpy b id 16 j)
    pub others : (j : ℕ) → at ≢ j → get_elem? k'.procs j ≡ get_elem? k.procs j

  abbrev pub Forked : Kernel W → Kernel W → ℕ → Proc → Bytes → Option ℕ → Type 0
  Forked k k' cur parent id none = NoNew k k'
  Forked k k' cur parent id (some pid) = Child k k' cur parent id pid

module _ (S : Services) where
  open S use {World}

  module _ (cur : ℕ) (parent : Proc) (id : Bytes) {k k1 : Kernel World} (f : Frame k k1) (i : ℕ)
      (fresh : Fresh k k1 i) where
    abbrev np : Proc
    np = fresh.proc

    abbrev lt : i < length k1.procs
    lt = get_elem?-lt k1.procs i fresh.here

    put-Frame :
        (v : Proc) (w : World)
        → IsTable (set k1.procs i v) k1.nextpid
        → Frame k (put_proc i v (record k1 { world = w }))
    put-Frame v w t = record {
      table = t;
      keeps = λ j q e u.
          ground (arith, get_elem?-set k1.procs i j v lt, f.keeps j q e u, fresh.was, fresh.free);
      unlocked = f.unlocked;
      same_init = f.same_init;
      same_length = length-set k1.procs i v ∙ f.same_length;
    }

    abbrev failed : World → Kernel World
    failed w =
        put_proc i (record np { kstack = 0; state = unused })
          (record k1 { world = S.kfree np.kstack w })

    failed-NoNew : (w : World) → NoNew k (failed w)
    failed-NoNew w j q e u = ground (
      arith,
      get_elem?-set k1.procs i j (record np { kstack = 0; state = unused }) lt,
      fresh.others j,
    )

    abbrev child : ℕ → List (Option ℕ) → Proc
    child pgdir files = become_child S cur parent pgdir id files np

    fork_dir-Frame : (a : Option ℕ × World) → Frame k (fork_dir S cur parent id i np a k1).0
    unfolding fork_dir
    fork_dir-Frame (none, w) = put-Frame _ _ (put-unused f.table i lt _ refl)
    fork_dir-Frame (some pgdir, w) = put-Frame _ _ (
        put-same f.table i lt np (child pgdir (dup_files S parent.ofile np.ofile w).0) fresh.here
          (ground (arith, fresh.embryonic)) refl)

    fork_dir-Forked :
        (a : Option ℕ × World)
        → Forked k
            (fork_dir S cur parent id i np a k1).0
            cur
            parent
            id
            (fork_dir S cur parent id i np a k1).1
    unfolding fork_dir
    fork_dir-Forked (none, w) = failed-NoNew w
    fork_dir-Forked (some pgdir, w) =
        let v = child pgdir (dup_files S parent.ofile np.ofile w).0 in
        record {
          at = i;
          proc = v;
          here = get_elem?-set_self k1.procs i v lt;
          issued = (fresh.pid, refl);
          ready = refl;
          parented = refl;
          size = refl;
          result = refl;
          registers = record {
            same_edi = refl;
            same_esi = refl;
            same_ebp = refl;
            same_oesp = refl;
            same_ebx = refl;
            same_edx = refl;
            same_ecx = refl;
            same_gs = refl;
            same_fs = refl;
            same_es = refl;
            same_ds = refl;
            same_trapno = refl;
            same_err = refl;
            same_eip = refl;
            same_cs = refl;
            same_eflags = refl;
            same_esp = refl;
            same_ss = refl;
          };
          cwd = refl;
          level = fresh.level;
          named = λ j l. (np.id, refl);
          others = λ j ne. ground (arith, get_elem?-set k1.procs i j v lt, fresh.others j ne);
        }

  fork_from-pair :
      (cur : ℕ) (id : Proc → Bytes) (k1 : Kernel World) (i : ℕ) (parent np : Proc)
      → get_elem? k1.procs cur ≡ some parent
      → get_elem? k1.procs i ≡ some np
      → fork_from S cur id (k1, some i)
        ≡ ok (fork_dir S cur parent (id parent) i np (S.copyuvm parent.pgdir parent.sz k1.world) k1)
  unfolding fork_from
  fork_from-pair cur id k1 i parent np e h = simp (e, h)

  fork_as-result :
      (cur : ℕ) (id : Proc → Bytes) (k k1 : Kernel World) (r : Option ℕ)
      → allocproc S k ≡ ok (k1, r)
      → fork_as S cur id k ≡ fork_from S cur id (k1, r)
  unfolding fork_as
  fork_as-result cur id k k1 r e = rw e

  fork_as_lem :
      (cur : ℕ) (parent : Proc) (id : Proc → Bytes) (k : Kernel World)
      → k.locked ≡ false
      → IsTable k.procs k.nextpid
      → k.nextpid + 1 < 2 ^ 32
      → get_elem? k.procs cur ≡ some parent
      → is_unused parent ≡ false
      → (k' : Kernel World) × (r : Option ℕ) × (fork_as S cur id k ≡ ok (k', r))
        × Frame k k'
        × Forked k k' cur parent (id parent) r
  unfolding fork_from
  fork_as_lem cur parent id k unlocked t bound here live = go (allocproc_lem S k unlocked t bound)
    where
      go :
          (k1 : Kernel World) × (r : Option ℕ) × (allocproc S k ≡ ok (k1, r))
            × Frame k k1
            × Allocated k k1 r
          → (k' : Kernel World) × (r : Option ℕ) × (fork_as S cur id k ≡ ok (k', r))
            × Frame k k'
            × Forked k k' cur parent (id parent) r
      go (k1, none, e, f, a) = (k1, none, fork_as-result cur id k k1 none e, f, a)
      go (k1, some i, e, f, a) =
          let dir = S.copyuvm parent.pgdir parent.sz k1.world in
          let done = fork_dir S cur parent (id parent) i a.proc dir k1 in
          (
            done.0,
            done.1,
            fork_as-result cur id k k1 (some i) e
                ∙ fork_from-pair cur id k1 i parent a.proc (f.keeps cur parent here live) a.here,
            fork_dir-Frame cur parent (id parent) f i a dir,
            fork_dir-Forked cur parent (id parent) f i a dir,
          )

  -- `fork` by a process in slot `cur`, with the lock free and a well-formed table, ends without a
  -- panic; the table stays well formed and every process unchanged. It returns a new pid, that of a
  -- child that is ready to run, is a child of slot `cur`, has its parent's size, current directory
  -- and user id, and every register of its trap frame but eax, which is 0, the child's result of
  -- `fork`; or it fails, and no process is new. The next pid is below 2 ^ 32 - 1.
  pub fork_lem :
      (cur : ℕ) (parent : Proc) (k : Kernel World)
      → k.locked ≡ false
      → IsTable k.procs k.nextpid
      → k.nextpid + 1 < 2 ^ 32
      → get_elem? k.procs cur ≡ some parent
      → is_unused parent ≡ false
      → (k' : Kernel World) × (r : Option ℕ) × (fork S cur k ≡ ok (k', r))
        × Frame k k'
        × Forked k k' cur parent parent.id r
  unfolding fork
  fork_lem cur parent k = fork_as_lem cur parent (λ p. p.id) k

  -- `fork2` does the same as `fork`, but its child runs under the given user name.
  pub fork2_lem :
      (cur : ℕ) (username : Bytes) (parent : Proc) (k : Kernel World)
      → k.locked ≡ false
      → IsTable k.procs k.nextpid
      → k.nextpid + 1 < 2 ^ 32
      → get_elem? k.procs cur ≡ some parent
      → is_unused parent ≡ false
      → (k' : Kernel World) × (r : Option ℕ) × (fork2 S cur username k ≡ ok (k', r))
        × Frame k k'
        × Forked k k' cur parent username r
  unfolding fork2
  fork2_lem cur username parent k = fork_as_lem cur parent (λ _. username) k
