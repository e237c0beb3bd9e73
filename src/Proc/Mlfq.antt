-- ===== src/Proc/Mlfq.antt =====
-- The multilevel feedback queue of proc.c (xv6-public/proc.c), as a build with -D MLFQ_SCHED has it.
-- `mlfq_k` is the build's MLFQ_K: a process at that level waits for the next boost.
use ele.Base.{
  ℕ, ◌+◌, ◌%◌, ◌^◌, Bool, true, false, ◌&&◌, ◌||◌, not, Option, none, some, List, [], ◌∷◌, ◌==◌,
  ltb, if◌then◌else◌, map, Result, ok, ◌>>◌, assert,
}
use ele.Proc.{
  runnable, running, sleeping, state_eq, Chan, Proc, Kernel, proc_at, put_proc, with_lock,
}
use ele.Proc.Life.{modify}

abbrev pub eligible : ℕ → Proc → Bool
eligible mlfq_k p = state_eq p.state runnable && not (p.qlvl == mlfq_k)

-- `p` takes the place of `s`, the choice so far.
abbrev pub replaces : Proc → Proc → Bool
replaces p s =
    if ltb p.qlvl s.qlvl
    then true
    else if s.qlvl == p.qlvl
    then (s.tq == 0 && ltb s.priority p.priority) || (s.tq == 0 && not (p.tq == 0))
    else false

-- `p_select` after the process `p` of slot `i`
abbrev pub select_one : ℕ → Proc → Option (ℕ × Proc) → Option (ℕ × Proc)
select_one i p none = some (i, p)
select_one i p (some (j, s)) = if replaces p s then some (i, p) else some (j, s)

-- The loop of `scheduler` over the table, with `p_select` so far.
unfoldable pub select_loop : ℕ → List Proc → ℕ → Option (ℕ × Proc) → Option (ℕ × Proc)
select_loop mlfq_k [] i chosen = chosen
select_loop mlfq_k (p ∷ ps) i chosen =
    select_loop mlfq_k ps (i + 1) (if eligible mlfq_k p then select_one i p chosen else chosen)

-- `switchuvm(p)` (vm.c): its checks.
abbrev pub switchuvm : Proc → Result (Unit {0})
switchuvm p =
    assert (not (p.kstack == 0)) "switchuvm: no kstack"
    >> assert (not (p.pgdir == 0)) "switchuvm: no pgdir"

-- A round of `scheduler`, up to `swtch`: the slot that runs now, if there is one.
unfoldable pub dispatch : {W : Type 0} → ℕ → Kernel W → Result (Kernel W × Option ℕ)
unfolding select_loop
dispatch mlfq_k k = assert (not k.locked) "acquire" >> elim (select_loop mlfq_k k.procs 0 none) [
  | none ↦ ok (k, none)
  | some (i, p) ↦ switchuvm p >> ok (put_proc i (record p { state = running }) k, some i)
]

abbrev pub boost_one : Proc → Proc
boost_one p = record p { tq = 0; qlvl = 0 }

unfoldable pub priority_boost : {W : Type 0} → Kernel W → Result (Kernel W)
priority_boost k = with_lock k λ k. record k { procs = map boost_one k.procs }

-- `p->pid == pid && p->parent->pid == myproc()->pid`. A null parent is read as well: `at_null` is
-- the word found at the offset of `pid` from address 0.
abbrev pub owns : {W : Type 0} → Kernel W → ℕ → ℕ → ℕ → Proc → Bool
owns k at_null caller pid p =
    p.pid == pid
    && (elim p.parent [
      | none ↦ at_null
      | some j ↦ elim (proc_at k j) [ none ↦ at_null | some q ↦ q.pid ]
    ]
        == caller)

-- The loop of `setpriority`, and whether it returned 0.
unfoldable pub setpriority_loop : (Proc → Bool) → ℕ → List Proc → List Proc × Bool
setpriority_loop mine priority [] = ([], false)
setpriority_loop mine priority (p ∷ ps) =
    let (ps', done) = setpriority_loop mine priority ps in
    if mine p then (record p { priority = priority } ∷ ps, true) else (p ∷ ps', done)

-- True stands for the result 0, false for -1. `caller` is the pid of `myproc()`.
unfoldable pub setpriority : {W : Type 0} → ℕ → ℕ → ℕ → ℕ → Kernel W → Result (Kernel W × Bool)
unfolding setpriority_loop
setpriority at_null caller pid priority k = with_lock k λ k.
    let r = setpriority_loop (owns k at_null caller pid) priority k.procs in
    (record k { procs = r.0 }, r.1)

abbrev pub locked_modify : {W : Type 0} → ℕ → (Proc → Proc) → Kernel W → Result (Kernel W)
locked_modify cur f k = assert (not k.locked) "acquire" >> modify cur f k

abbrev pub level_down : Proc → Proc
level_down p = record p { tq = 0; qlvl = (p.qlvl + 1) % 2 ^ 32 }

unfoldable pub qlvl_down : {W : Type 0} → ℕ → Kernel W → Result (Kernel W)
qlvl_down cur k = locked_modify cur level_down k

abbrev pub count_tick : Proc → Proc
count_tick p = record p { tq = (p.tq + 1) % 2 ^ 32 }

unfoldable pub update_tq : {W : Type 0} → ℕ → Kernel W → Result (Kernel W)
update_tq cur k = locked_modify cur count_tick k

unfoldable pub getlev : {W : Type 0} → ℕ → Kernel W → Option ℕ
getlev cur k = elim (proc_at k cur) [ none ↦ none | some p ↦ some p.qlvl ]

-- `yield_`: the process gives up the CPU before its quantum ends, and starts over at level 0.
unfoldable pub yield_early : {W : Type 0} → ℕ → Kernel W → Result (Kernel W)
yield_early cur k = locked_modify cur (λ p. record p { state = runnable; tq = 0; qlvl = 0 }) k

-- `sleep_` for channel `c`, up to `sched()`.
unfoldable pub sleep_early : {W : Type 0} → ℕ → Chan → Kernel W → Result (Kernel W)
sleep_early cur c k =
    locked_modify cur (λ p. record p { chan = c; state = sleeping; tq = 0; qlvl = 0 }) k
