-- ===== src/Proc/Alloc.antt =====
-- What `allocproc` (xv6-public/proc.c) does to the process table.
use ele.Base.{
  ℕ, ◌+◌, ◌%◌, ◌^◌, ◌<◌, ◌≡◌, refl, ◌∙◌, ◌≢◌, true, false, Option, none, some, arith, ◌==◌,
  if◌then◌else◌, get_elem?, set, length, length-set, get_elem?-lt, get_elem?-set_self, Option-cases,
  inl, inr, ok,
}
use mathlib.Core.Path.{subst}
use native.Mathlib.Nat.{zero-add}
use ele.Str.{strncpy}
use ele.Proc.{unused, embryo, Proc, Kernel, Services, put_proc, find}
use ele.Proc.Table.{
  is_unused, find-some, get_elem?-set, IsTable, Keeps, put-unused, put-next, put-same,
}
use ele.Proc.Life.{root_name, claim, allocproc, modify, give_stack}

module _ {W : Type 0} where
  -- The table stays well formed, and every process stays as it is.
  pub record Frame (k k' : Kernel W) : Type 0 where
    pub table : IsTable k'.procs k'.nextpid
    pub keeps : Keeps k.procs k'.procs
    pub unlocked : k'.locked ≡ false
    pub same_init : k'.initproc ≡ k.initproc
    pub same_length : length k'.procs ≡ length k.procs

  -- No process is in the second table that was not in the first.
  abbrev pub NoNew : Kernel W → Kernel W → Type 0
  NoNew k k' =
      (j : ℕ) (q : Proc)
      → get_elem? k'.procs j ≡ some q
      → is_unused q ≡ false
      → get_elem? k.procs j ≡ some q

  -- Slot `i`, the first free one, holds a new process that does not run yet.
  pub record Fresh (k k' : Kernel W) (i : ℕ) : Type 0 where
    pub proc : Proc
    pub here : get_elem? k'.procs i ≡ some proc
    pub pid : proc.pid ≡ k.nextpid
    pub embryonic : proc.state ≡ embryo
    pub level : (proc.qlvl ≡ 0) × (proc.tq ≡ 0) × (proc.priority ≡ 0)
    pub old : Proc
    pub was : get_elem? k.procs i ≡ some old
    pub free : is_unused old ≡ true
    pub files : proc.ofile ≡ old.ofile
    pub others : (j : ℕ) → i ≢ j → get_elem? k'.procs j ≡ get_elem? k.procs j
    pub first : (j : ℕ) (q : Proc) → j < i → get_elem? k.procs j ≡ some q → is_unused q ≡ false

  abbrev pub Allocated : Kernel W → Kernel W → Option ℕ → Type 0
  Allocated k k' none = NoNew k k'
  Allocated k k' (some i) = Fresh k k' i

pub modify-ok :
    {W : Type 0} (i : ℕ) (f : Proc → Proc) (k : Kernel W) (p : Proc)
    → get_elem? k.procs i ≡ some p
    → modify i f k ≡ ok (put_proc i (f p) k)
modify-ok i f k p h = rw (h, modify)

-- The process that `claim` puts into a free slot.
abbrev claimed : Proc → ℕ → Proc
claimed p n = record p {
  state = embryo;
  pid = n;
  tq = 0;
  qlvl = 0;
  priority = 0;
  id = strncpy p.id root_name 4;
}

abbrev claimed_kernel : {W : Type 0} → Kernel W → ℕ → Proc → Kernel W
claimed_kernel k i p = record k {
  procs = set k.procs i (claimed p k.nextpid);
  nextpid = (k.nextpid + 1) % 2 ^ 32;
}

claim-some :
    {W : Type 0} (k : Kernel W) (i : ℕ) (p : Proc)
    → find is_unused k.procs 0 ≡ some i
    → get_elem? k.procs i ≡ some p
    → claim k ≡ some (i, claimed_kernel k i p)
unfolding claim
claim-some k i p e h = rw (e, claim) (rw (h, claim))

claim-none : {W : Type 0} (k : Kernel W) → find is_unused k.procs 0 ≡ none → claim k ≡ none
unfolding claim
claim-none k e = rw (e, claim)

module _ (S : Services) where
  open S use {World}

  abbrev with_stack : Kernel World → ℕ → Proc → Option ℕ × World → Kernel World
  with_stack k i p (none, w) =
      put_proc i (record (claimed p k.nextpid) { state = unused; kstack = 0 })
        (record (claimed_kernel k i p) { world = w })
  with_stack k i p (some page, w) =
      put_proc i (record (claimed p k.nextpid) { kstack = page })
        (record (claimed_kernel k i p) { world = w })

  abbrev stack_slot : ℕ → Option ℕ × World → Option ℕ
  stack_slot i (none, w) = none
  stack_slot i (some page, w) = some i

  module _ (k : Kernel World) (t : IsTable k.procs k.nextpid) (bound : k.nextpid + 1 < 2 ^ 32)
      (unlocked : k.locked ≡ false) (i : ℕ) (p : Proc) (here : get_elem? k.procs i ≡ some p)
      (free : is_unused p ≡ true)
      (first : (j : ℕ) (q : Proc)
        → j < i
        → get_elem? k.procs j ≡ some q
        → is_unused q ≡ false) where
    abbrev lt : i < length k.procs
    lt = get_elem?-lt k.procs i here

    abbrev lt' : i < length (set k.procs i (claimed p k.nextpid))
    lt' = rw (length-set k.procs i (claimed p k.nextpid)) lt

    claimed-IsTable : IsTable (claimed_kernel k i p).procs (claimed_kernel k i p).nextpid
    claimed-IsTable =
        let wrap : k.nextpid + 1 ≡ (k.nextpid + 1) % 2 ^ 32 = omega arith in
        subst (IsTable (set k.procs i (claimed p k.nextpid))) wrap
          (put-next t i lt (claimed p k.nextpid) refl)

    -- The slot after two writes.
    twice :
        (v : Proc) (j : ℕ)
        → get_elem? (set (set k.procs i (claimed p k.nextpid)) i v) j
          ≡ (if i == j then some v else get_elem? k.procs j)
    twice v j = ground (
      arith,
      get_elem?-set (set k.procs i (claimed p k.nextpid)) i j v lt',
      get_elem?-set k.procs i j (claimed p k.nextpid) lt,
    )

    twice-length :
        (v : Proc) → length (set (set k.procs i (claimed p k.nextpid)) i v) ≡ length k.procs
    twice-length v =
        length-set (set k.procs i (claimed p k.nextpid)) i v
        ∙ length-set k.procs i (claimed p k.nextpid)

    twice-Keeps : (v : Proc) → Keeps k.procs (set (set k.procs i (claimed p k.nextpid)) i v)
    twice-Keeps v j q e u = ground (arith, twice v j)

    give_stack-ok :
        (a : Option ℕ × World)
        → give_stack S i a (claimed_kernel k i p) ≡ ok (with_stack k i p a, stack_slot i a)
    unfolding give_stack
    give_stack-ok (none, w) = rw (
        modify-ok i _ (record (claimed_kernel k i p) { world = w }) (claimed p k.nextpid)
          (get_elem?-set_self k.procs i _ lt))
    give_stack-ok (some page, w) = rw (
        modify-ok i _ (record (claimed_kernel k i p) { world = w }) (claimed p k.nextpid)
          (get_elem?-set_self k.procs i _ lt))

    with_stack-Frame : (a : Option ℕ × World) → Frame k (with_stack k i p a)
    with_stack-Frame (none, w) = record {
      table = put-unused claimed-IsTable i lt' _ refl;
      keeps = twice-Keeps _;
      unlocked = unlocked;
      same_init = refl;
      same_length = twice-length _;
    }
    with_stack-Frame (some page, w) = record {
      table =
          put-same claimed-IsTable i lt' (claimed p k.nextpid) _ (get_elem?-set_self k.procs i _ lt)
            refl refl;
      keeps = twice-Keeps _;
      unlocked = unlocked;
      same_init = refl;
      same_length = twice-length _;
    }

    with_stack-Allocated :
        (a : Option ℕ × World) → Allocated k (with_stack k i p a) (stack_slot i a)
    with_stack-Allocated (none, w) = λ j q e u.
        ground (arith, twice (record (claimed p k.nextpid) { state = unused; kstack = 0 }) j)
    with_stack-Allocated (some page, w) = record {
      proc = record (claimed p k.nextpid) { kstack = page };
      here = ground (arith, twice (record (claimed p k.nextpid) { kstack = page }) i);
      pid = refl;
      embryonic = refl;
      level = (refl, refl, refl);
      old = p;
      was = here;
      free = free;
      files = refl;
      others = λ j ne. ground (arith, twice (record (claimed p k.nextpid) { kstack = page }) j);
      first = first;
    }

  allocproc-claim :
      (k k1 : Kernel World) (i : ℕ)
      → k.locked ≡ false
      → claim k ≡ some (i, k1)
      → allocproc S k ≡ give_stack S i (S.kalloc k1.world) k1
  unfolding allocproc
  allocproc-claim k k1 i unlocked e = rw (unlocked, e)

  -- With the lock free and a well-formed table, `allocproc` ends without a panic. The table stays
  -- well formed and every process unchanged. It returns the first free slot, with an embryo at the
  -- lowest queue number whose pid is the next one, and changes no other slot; or it returns null, and
  -- then no process is new.
  pub allocproc_lem :
      (k : Kernel World)
      → k.locked ≡ false
      → IsTable k.procs k.nextpid
      → k.nextpid + 1 < 2 ^ 32
      → (k' : Kernel World) × (r : Option ℕ) × (allocproc S k ≡ ok (k', r))
        × Frame k k'
        × Allocated k k' r
  unfolding allocproc
  allocproc_lem k unlocked t bound = elim (Option-cases (find is_unused k.procs 0)) [
    | inl full ↦ (
      k,
      none,
      simp (unlocked, claim-none k full),
      record {
        table = t;
        keeps = λ j q e u. e;
        unlocked = unlocked;
        same_init = refl;
        same_length = refl;
      },
      λ j q e u. e,
    )
    | inr (i, found) ↦
        let (d, p, at, here, free, before) = find-some is_unused k.procs 0 found in
        let here_i : get_elem? k.procs i ≡ some p = rw (at, zero-add) here in
        let before_i : (j : ℕ) (q : Proc)
            → j < i
            → get_elem? k.procs j ≡ some q
            → is_unused q ≡ false =
          λ j q l. before j q (omega arith) in
        let a = S.kalloc k.world in
        (
          with_stack k i p a,
          stack_slot i a,
          allocproc-claim k (claimed_kernel k i p) i unlocked (claim-some k i p found here_i)
              ∙ give_stack-ok k t bound unlocked i p here_i free before_i a,
          with_stack-Frame k t bound unlocked i p here_i free before_i a,
          with_stack-Allocated k t bound unlocked i p here_i free before_i a,
        )
  ]
