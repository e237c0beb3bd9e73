-- ===== src/Proc/Life/Death.antt =====
-- How a process ends (xv6-public/proc.c): exit and wait.
use ele.Base.{
  ℕ, zero, suc, ◌+◌, Bool, true, false, ◌&&◌, not, Option, none, some, List, [], ◌∷◌, ◌==◌,
  if◌then◌else◌, map, length, Result, ok, panic, ◌>>◌, assert,
}
use ele.Str.{put}
use ele.Proc.{unused, zombie, state_eq, Chan, Proc, Kernel, Services, proc_at, put_proc}
use ele.Proc.Life.Sleep.{modify, wakeup1, sleep_on}

-- `p->parent == &ptable.proc[i]`
abbrev pub is_child_of : ℕ → Proc → Bool
is_child_of i p = elim p.parent [ none ↦ false | some j ↦ i == j ]

-- What `exit` and `wait` leave in a slot that they free.
abbrev pub freed : Proc → Proc
freed p = record p {
  kstack = 0;
  pid = 0;
  parent = none;
  name = put 0 (λ i. p.name (suc i));
  killed = false;
  state = unused;
}

-- The round of `exit`'s last loop for slot `i`: it may wake the init process.
unfoldable pub reparent_round : {W : Type 0} → ℕ → ℕ → Kernel W → Kernel W
unfolding wakeup1
reparent_round cur i k = elim (proc_at k i) [
  | none ↦ k
  | some p ↦
      if is_child_of cur p
      then (let k' = put_proc i (record p { parent = some k.initproc }) k in
          if state_eq p.state zombie then wakeup1 (Chan.slot k.initproc) k' else k')
      else k
]

unfoldable pub reparent_loop : {W : Type 0} → ℕ → ℕ → ℕ → Kernel W → Kernel W
unfolding reparent_round
reparent_loop cur i zero k = k
reparent_loop cur i (suc left) k = reparent_loop cur (i + 1) left (reparent_round cur i k)

-- A child's zombie that `wait` found, or no child, or only children that live.
pub data Scan : Type 0 where
  found : ℕ → Scan
  no_kids : Scan
  has_kids : Scan

-- The scan of `wait`, with `havekids`.
unfoldable pub wait_scan : ℕ → Bool → List Proc → ℕ → Scan
wait_scan cur havekids [] i = if havekids then has_kids else no_kids
wait_scan cur havekids (p ∷ ps) i =
    let skip = wait_scan cur havekids ps (i + 1) in
    let mine = wait_scan cur true ps (i + 1) in
    if not (is_child_of cur p) then skip else if state_eq p.state zombie then found i else mine

pub data Waited : Type 0 where
  reaped : (pid : ℕ) → Waited
  failed : Waited
  asleep : Waited

-- `curproc->parent` as a channel
abbrev pub parent_chan : Option ℕ → Chan
parent_chan none = Chan.null
parent_chan (some i) = Chan.slot i

module _ (S : Services) where
  open S use {World}

  -- `exit` frees the other slots with the pid of the process that exits.
  unfoldable pub exit_siblings : ℕ → ℕ → List Proc → ℕ → World → List Proc × World
  exit_siblings cur pid [] i w = ([], w)
  exit_siblings cur pid (p ∷ ps) i w =
      let sibling = p.pid == pid && not (i == cur) in
      let (ps', w') =
        exit_siblings cur pid ps (i + 1) (if sibling then S.kfree p.kstack w else w) in
      ((if sibling then freed p else p) ∷ ps', w')

  unfoldable pub close_files : List (Option ℕ) → World → World
  close_files [] w = w
  close_files (none ∷ fs) w = close_files fs w
  close_files (some f ∷ fs) w = close_files fs (S.fileclose f w)

  -- `iput(curproc->cwd)` inside a transaction
  abbrev pub put_cwd : Option ℕ → World → World
  put_cwd none w = w
  put_cwd (some ip) w = S.iput ip w

  -- The rest of `exit`, once the siblings are gone: `p` is the process that exits.
  unfoldable pub exit_rest : ℕ → Proc → Kernel World → Result (Kernel World)
  unfolding close_files wakeup1 reparent_loop
  exit_rest cur p k =
      let k1 =
        put_proc cur (record p { ofile = map (λ _. none) p.ofile; cwd = none })
          (record k { world = put_cwd p.cwd (close_files p.ofile k.world) }) in
      let k2 = wakeup1 (parent_chan p.parent) k1 in
      let k3 = reparent_loop cur 0 (length k2.procs) k2 in
      modify cur (λ p. record p { state = zombie }) k3

  unfoldable pub exit : ℕ → Kernel World → Result (Kernel World)
  unfolding exit_siblings exit_rest
  exit cur k = elim (proc_at k cur) [
    | none ↦ panic "page fault"
    | some p ↦
        assert (not (cur == k.initproc)) "init exiting"
        >> assert (not k.locked) "acquire"
        >> (let (ps, w) = exit_siblings cur p.pid k.procs 0 k.world in
            exit_rest cur p (record k { procs = ps; world = w }))
  ]

  -- What `wait` does with the result of its scan.
  unfoldable pub wait_reap : ℕ → Option Proc → Kernel World → Result (Kernel World × Waited)
  wait_reap i none k = panic "page fault"
  wait_reap i (some p) k = ok (
    put_proc i (freed p) (record k { world = S.freevm p.pgdir (S.kfree p.kstack k.world) }),
    reaped p.pid,
  )

  unfoldable pub wait_block : ℕ → Option Proc → Kernel World → Result (Kernel World × Waited)
  wait_block cur none k = panic "page fault"
  wait_block cur (some p) k =
      if p.killed then ok (k, failed) else ok (put_proc cur (sleep_on (Chan.slot cur) p) k, asleep)

  unfoldable pub wait_act : ℕ → Scan → Kernel World → Result (Kernel World × Waited)
  unfolding wait_reap wait_block
  wait_act cur (found i) k = wait_reap i (proc_at k i) k
  wait_act cur no_kids k = ok (k, failed)
  wait_act cur has_kids k = wait_block cur (proc_at k cur) k

  -- One round of `wait`, from the scan to its return or to `sched()`.
  unfoldable pub wait_round : ℕ → Kernel World → Result (Kernel World × Waited)
  unfolding wait_scan wait_act
  wait_round cur k =
      assert (not k.locked) "acquire" >> wait_act cur (wait_scan cur false k.procs 0) k
