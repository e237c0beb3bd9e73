-- ===== src/Proc/Exit.antt =====
-- What `exit` (xv6-public/proc.c) leaves behind.
use mathlib.Core.Path.{subst}
use ele.Base.{
  ℕ, zero, suc, ◌+◌, ◌<◌, ◌≡◌, refl, sym, ap, ◌∙◌, ◌≢◌, Bool, true, false, ◌&&◌, not, Option, none,
  some, List, [], ◌∷◌, arith, ◌==◌, get_elem?, get_elem?-lt, get_elem?-exists, get_elem?-set_self,
  set, map, length, length-set, All, Bool-cases, inl, inr, Result, ok, ◌>>◌, assert,
}
use ele.Proc.{sleeping, zombie, state_eq, Chan, chan_eq, Proc, Kernel, Services, put_proc}
use ele.Proc.Table.{get_elem?-set}
use ele.Proc.Life.{
  is_child_of, wake_one, wakeup1, modify, reparent_round, reparent_loop, exit_siblings, close_files,
  put_cwd, parent_chan, exit_rest, exit,
}
use ele.Proc.Alloc.{modify-ok}
use ele.Proc.Orphans.{
  NoChild, IsAwake, get_elem?-of_map, length-map, wake_one-wakes, HasClosed, wake_one-HasClosed,
  Settled, wake-Settled, adopt-Settled, skip-Settled,
}

module _ {W : Type 0} (cur n : ℕ) (d : Chan) where
  -- Between two kernels: the lock and the init process are the same.
  abbrev Rounds : ℕ → Kernel W → Kernel W → Type 0
  Rounds m k k' = Settled cur m n d k'.procs × (k'.initproc ≡ k.initproc)

  round-child :
      (i : ℕ) (k : Kernel W) (p : Proc)
      → cur ≢ k.initproc
      → get_elem? k.procs i ≡ some p
      → is_child_of cur p ≡ true
      → Settled cur i n d k.procs
      → Rounds (i + 1) k (reparent_round cur i k)
  unfolding reparent_round wakeup1
  round-child i k p ne here child s = elim (Bool-cases (state_eq p.state zombie)) [
    | inl e ↦
        rw (here, reparent_round) (simp (child, e) (wake-Settled cur (i + 1) n d _ _ adopted, refl))
    | inr e ↦ rw (here, reparent_round) (simp (child, e) (adopted, refl))
  ]
    where
      adopted : Settled cur (i + 1) n d (set k.procs i (record p { parent = some k.initproc }))
      adopted = adopt-Settled cur i n k.initproc d k.procs p ne here s

  round-other :
      (i : ℕ) (k : Kernel W) (p : Proc)
      → get_elem? k.procs i ≡ some p
      → is_child_of cur p ≡ false
      → Settled cur i n d k.procs
      → Rounds (i + 1) k (reparent_round cur i k)
  unfolding reparent_round
  round-other i k p here other s =
      rw (here, reparent_round)
        (simp other (skip-Settled cur i n d k.procs (λ q h. ground arith) s, refl))

  round-Rounds :
      (i : ℕ) (k : Kernel W)
      → cur ≢ k.initproc
      → i < n
      → Settled cur i n d k.procs
      → Rounds (i + 1) k (reparent_round cur i k)
  round-Rounds i k ne lt s =
      let (p, here) = get_elem?-exists k.procs i (rw s.long lt) in
      elim (Bool-cases (is_child_of cur p)) [
        | inl e ↦ round-child i k p ne here e s
        | inr e ↦ round-other i k p here e s
      ]

  loop-Rounds :
      (left i : ℕ) (k : Kernel W)
      → cur ≢ k.initproc
      → i + left ≡ n
      → Settled cur i n d k.procs
      → Rounds n k (reparent_loop cur i left k)
  unfolding reparent_loop
  loop-Rounds zero i k ne e s = (subst (λ m. Settled cur m n d k.procs) (ground arith) s, refl)
  loop-Rounds (suc left) i k ne e s =
      let (s1, init1) = round-Rounds i k ne (omega arith) s in
      let (s2, init2) =
        loop-Rounds left (i + 1) (reparent_round cur i k) (rw init1 ne) (omega arith) s1 in
      (s2, init2 ∙ init1)

-- What `exit` of the process `p` in slot `cur` leaves in a table of `n` slots.
pub record Exited (cur n : ℕ) (p : Proc) (ps : List Proc) : Type 0 where
  pub dead : Proc
  pub here : get_elem? ps cur ≡ some dead
  pub zombied : dead.state ≡ zombie
  pub closed : HasClosed dead
  pub same_length : length ps ≡ n
  pub orphaned : NoChild cur n ps
  pub awake : IsAwake (parent_chan p.parent) ps

length-exit_siblings :
    (S : Services) (cur pid : ℕ) (ps : List Proc) (i : ℕ) (w : S.World)
    → length (exit_siblings S cur pid ps i w).0 ≡ length ps
unfolding exit_siblings
length-exit_siblings S cur pid [] i w = refl
length-exit_siblings S cur pid (p ∷ ps) i w = ap suc (length-exit_siblings S cur pid ps (i + 1) _)

All-closed :
    (fs : List (Option ℕ)) → All (λ (f : Option ℕ). f ≡ none) (map (λ (_ : Option ℕ). none) fs)
All-closed [] = tt
All-closed (f ∷ fs) = (refl, All-closed fs)

module _ (S : Services) (cur : ℕ) (p : Proc) (k : Kernel S.World) (ne : cur ≢ k.initproc)
    (lt : cur < length k.procs) where
  abbrev quitted : Proc
  quitted = record p { ofile = map (λ _. none) p.ofile; cwd = none }

  -- The table before the children are given away.
  abbrev woken : Kernel S.World
  woken =
      wakeup1 (parent_chan p.parent) (
        put_proc cur quitted (record k { world = put_cwd S p.cwd (close_files S p.ofile k.world) }))

  woken-Settled : Settled cur 0 (length k.procs) (parent_chan p.parent) woken.procs
  unfolding wakeup1
  woken-Settled = record {
    orphaned = λ j q l h. absurd (omega arith);
    awake = λ j q h.
        let (o, g, e) =
          get_elem?-of_map (wake_one (parent_chan p.parent)) (set k.procs cur quitted) j q h in
        subst
          (λ (q : Proc).
            (state_eq q.state sleeping && chan_eq q.chan (parent_chan p.parent)) ≡ false)
          e (wake_one-wakes (parent_chan p.parent) o);
    long =
        length-map (wake_one (parent_chan p.parent)) (set k.procs cur quitted)
        ∙ length-set k.procs cur quitted;
    closed = λ q h.
        let (o, g, e) =
          get_elem?-of_map (wake_one (parent_chan p.parent)) (set k.procs cur quitted) cur q h in
        subst HasClosed e (
          wake_one-HasClosed (parent_chan p.parent) o (
            subst HasClosed (some-inj (sym (get_elem?-set_self k.procs cur quitted lt) ∙ g))
              (refl, All-closed p.ofile)));
  }
    where
      some-inj : {a b : Proc} → some a ≡ some b → a ≡ b
      some-inj e = cc

  -- The table after the last loop.
  abbrev resettled : Kernel S.World
  resettled = reparent_loop cur 0 (length woken.procs) woken

  resettled-Rounds :
      Rounds cur (length k.procs) (parent_chan p.parent) (length k.procs) woken resettled
  unfolding wakeup1
  resettled-Rounds =
      loop-Rounds cur (length k.procs) (parent_chan p.parent) (length woken.procs) 0 woken ne
        (omega (arith, woken-Settled.long)) woken-Settled

  zombify :
      (k3 : Kernel S.World)
      → Settled cur (length k.procs) (length k.procs) (parent_chan p.parent) k3.procs
      → (k' : Kernel S.World) × (modify cur (λ p. record p { state = zombie }) k3 ≡ ok k')
        × Exited cur (length k.procs) p k'.procs
  zombify k3 s =
      let (q, here) = get_elem?-exists k3.procs cur (rw s.long lt) in
      let z = record q { state = zombie } in
      let lt3 = get_elem?-lt k3.procs cur here in
      (
        put_proc cur z k3,
        modify-ok cur _ k3 q here,
        record {
          dead = z;
          here = get_elem?-set_self k3.procs cur z lt3;
          zombied = refl;
          closed = s.closed q here;
          same_length = length-set k3.procs cur z ∙ s.long;
          orphaned = λ j r l h.
              ground
                (arith, get_elem?-set k3.procs cur j z lt3, s.orphaned j r l, s.orphaned j q l);
          awake = λ j r h. ground (arith, get_elem?-set k3.procs cur j z lt3, s.awake j r);
        },
      )

  exit_rest_lem :
      (k' : Kernel S.World) × (exit_rest S cur p k ≡ ok k') × Exited cur (length k.procs) p k'.procs
  unfolding exit_rest
  exit_rest_lem = zombify resettled (resettled-Rounds.0)

both-assert {ℓ} :
    {A : Type ℓ} (a b : Bool) (r : Result A)
    → a ≡ false
    → b ≡ false
    → (assert (not a) "init exiting" >> assert (not b) "acquire" >> r) ≡ r
both-assert false false r e f = refl
both-assert true b r e f = cc
both-assert false true r e f = cc

-- `exit` by the process in slot `cur`, with the lock free, unless it is the init process, reaches
-- the scheduler without a panic. Its slot then holds a zombie with no open file and no current
-- directory, the table has as many slots as before, no process has it as its parent any more, and no
-- process sleeps on the slot of its parent.
pub exit_lem :
    (S : Services) (cur : ℕ) (p : Proc) (k : Kernel S.World)
    → k.locked ≡ false
    → get_elem? k.procs cur ≡ some p
    → cur ≢ k.initproc
    → (k' : Kernel S.World) × (exit S cur k ≡ ok k') × Exited cur (length k.procs) p k'.procs
unfolding exit
exit_lem S cur p k unlocked here ne =
    let sib = exit_siblings S cur p.pid k.procs 0 k.world in
    let len = length-exit_siblings S cur p.pid k.procs 0 k.world in
    let k1 = record k { procs = sib.0; world = sib.1 } in
    let not_init : (cur == k.initproc) ≡ false = ground arith in
    let (k', e, x) = exit_rest_lem S cur p k1 ne (rw len (get_elem?-lt k.procs cur here)) in
    (
      k',
      rw (here, exit) (both-assert (cur == k.initproc) k.locked _ not_init unlocked ∙ e),
      subst (λ n. Exited cur n p k'.procs) len x,
    )
