-- ===== src/Trap/Quantum.antt =====
-- How a timer interrupt (xv6-public/trap.c) moves a process through the queues.
use mathlib.Core.Path.{subst}
use ele.Base.{
  ℕ, ◌+◌, ◌*◌, ◌%◌, ◌^◌, ◌≤◌, ◌<◌, ◌≡◌, refl, sym, ◌∙◌, ap, Bool, true, false, ◌&&◌, some, List, [],
  ◌∷◌, arith, ◌==◌, leb, if◌then◌else◌, get_elem?, get_elem?-lt, get_elem?-set_self, set, map, All,
  All-set, All-get, Bool-cases, inl, inr, ok,
}
use ele.Proc.{runnable, running, state_eq, Chan, Proc, Kernel, put_proc}
use ele.Proc.Table.{get_elem?-map}
use ele.Proc.Life.{wake_one, wakeup, yield_cpu}
use ele.Proc.Alloc.{modify-ok}
use ele.Proc.Mlfq.{boost_one, count_tick, level_down, update_tq, qlvl_down, priority_boost}
use ele.Trap.{ticks_chan, clock, requeue, resched, timer}
use ele.Trap.Levels.{
  Level, All-map, wake_one-Level, boost_one-Level, turn_end, set-set, next_turn, next_turn-runnable,
  next_turn-decided, next_turn-Level, wake_one-running,
}

module _ {W : Type 0} where
  wakeup-unlocked :
      (c : Chan) (k : Kernel W)
      → k.locked ≡ false
      → wakeup c k ≡ ok (record k { procs = map (wake_one c) k.procs })
  unfolding wakeup
  wakeup-unlocked c k e = simp e

  boost-unlocked :
      (k : Kernel W)
      → k.locked ≡ false
      → priority_boost k ≡ ok (record k { procs = map boost_one k.procs })
  unfolding priority_boost
  boost-unlocked k e = simp e

  update_tq-ok :
      (c : ℕ) (p : Proc) (k : Kernel W)
      → k.locked ≡ false
      → get_elem? k.procs c ≡ some p
      → update_tq c k ≡ ok (put_proc c (count_tick p) k)
  unfolding update_tq
  update_tq-ok c p k e h = simp (e, modify-ok c count_tick k p h)

  qlvl_down-ok :
      (c : ℕ) (p : Proc) (k : Kernel W)
      → k.locked ≡ false
      → get_elem? k.procs c ≡ some p
      → qlvl_down c k ≡ ok (put_proc c (level_down p) k)
  unfolding qlvl_down
  qlvl_down-ok c p k e h = simp (e, modify-ok c level_down k p h)

  yield_cpu-ok :
      (c : ℕ) (p : Proc) (k : Kernel W)
      → k.locked ≡ false
      → get_elem? k.procs c ≡ some p
      → yield_cpu c k ≡ ok (put_proc c (record p { state = runnable }) k)
  unfolding yield_cpu
  yield_cpu-ok c p k e h = simp (e, modify-ok c (λ q. record q { state = runnable }) k p h)

  -- The kernel after the clock's part of an interrupt.
  record Clocked (mlfq_k : ℕ) (first_cpu : Bool) (c : ℕ) (k : Kernel W) (ticks : ℕ) (p : Proc)
      : Type 0 where
    after : Kernel W
    self : Proc
    runs :
        clock first_cpu (some c) k ticks
        ≡ ok (after, if first_cpu then (ticks + 1) % 2 ^ 32 else ticks)
    unlocked : after.locked ≡ false
    here : get_elem? after.procs c ≡ some self
    running_ : self.state ≡ running
    dead : self.killed ≡ p.killed
    others : (v : Proc) → Level mlfq_k v → All (Level mlfq_k) (set after.procs c v)
    low : self.qlvl < mlfq_k
    decided :
        (if leb (self.qlvl * 4 + 2) self.tq then (self.qlvl + 1, 0) else (self.qlvl, self.tq))
        ≡ turn_end first_cpu ticks p
    spent : self.tq ≤ self.qlvl * 4 + 2

  module _ (mlfq_k : ℕ) (bound : mlfq_k * 4 + 2 < 2 ^ 32) (k : Kernel W) (c ticks : ℕ) (p : Proc)
      (unlocked : k.locked ≡ false) (here : get_elem? k.procs c ≡ some p) (run : p.state ≡ running)
      (levels : All (Level mlfq_k) k.procs) where
    level : Level mlfq_k p
    level = All-get (Level mlfq_k) k.procs c levels here

    low_level : p.qlvl < mlfq_k
    low_level = level.turn (ground arith)

    abbrev woken : List Proc
    woken = map (wake_one ticks_chan) k.procs

    woken-here : get_elem? woken c ≡ some p
    woken-here =
        get_elem?-map (wake_one ticks_chan) k.procs c here
        ∙ ap (λ q. some q) (wake_one-running ticks_chan p run)

    woken-levels : All (Level mlfq_k) woken
    woken-levels =
        All-map (Level mlfq_k) (wake_one ticks_chan) k.procs (wake_one-Level mlfq_k ticks_chan)
          levels

    abbrev charged : Kernel W
    charged = record k { procs = set woken c (count_tick p) }

    charged-here : get_elem? charged.procs c ≡ some (count_tick p)
    charged-here = get_elem?-set_self woken c (count_tick p) (get_elem?-lt woken c woken-here)

    clock-false : Clocked mlfq_k false c k ticks p
    unfolding clock
    clock-false = record {
      after = k;
      self = p;
      runs = refl;
      unlocked = unlocked;
      here = here;
      running_ = run;
      dead = refl;
      others = λ v l. All-set (Level mlfq_k) k.procs c v levels l;
      low = low_level;
      decided = ground (arith, level.unspent);
      spent = omega (arith, level.unspent);
    }

    no_wrap : (p.tq + 1) % 2 ^ 32 ≡ p.tq + 1
    no_wrap = omega (arith, level.unspent, level.exists_)

    clock-plain : (((ticks + 1) % 2 ^ 32 % 100) == 0) ≡ false → Clocked mlfq_k true c k ticks p
    unfolding clock
    clock-plain e = record {
      after = charged;
      self = count_tick p;
      runs = simp (
        wakeup-unlocked ticks_chan k unlocked,
        update_tq-ok c p (record k { procs = woken }) unlocked woken-here,
        e,
      );
      unlocked = unlocked;
      here = charged-here;
      running_ = run;
      dead = refl;
      others = λ v l.
          subst (All (Level mlfq_k)) (sym (set-set woken c (count_tick p) v))
            (All-set (Level mlfq_k) woken c v woken-levels l);
      low = low_level;
      decided = rw (no_wrap, e) refl;
      spent = omega (arith, level.unspent);
    }

    clock-boost : (((ticks + 1) % 2 ^ 32 % 100) == 0) ≡ true → Clocked mlfq_k true c k ticks p
    unfolding clock
    clock-boost e = record {
      after = record charged { procs = map boost_one charged.procs };
      self = boost_one (count_tick p);
      runs = simp (
        wakeup-unlocked ticks_chan k unlocked,
        update_tq-ok c p (record k { procs = woken }) unlocked woken-here,
        e,
        boost-unlocked charged unlocked,
      );
      unlocked = unlocked;
      here = get_elem?-map boost_one charged.procs c charged-here;
      running_ = run;
      dead = refl;
      others = λ v l.
          All-set (Level mlfq_k) (map boost_one charged.procs) c v (boosted-levels charged.procs) l;
      low = omega (arith, low_level);
      decided = rw e refl;
      spent = omega arith;
    }
      where
        boosted-levels : (ps : List Proc) → All (Level mlfq_k) (map boost_one ps)
        boosted-levels [] = tt
        boosted-levels (q ∷ ps) =
            (boost_one-Level mlfq_k q (omega (arith, low_level)), boosted-levels ps)

    clock_lem : (first_cpu : Bool) → Clocked mlfq_k first_cpu c k ticks p
    clock_lem false = clock-false
    clock_lem true = elim (Bool-cases ((ticks + 1) % 2 ^ 32 % 100 == 0)) [
      | inl e ↦ clock-boost e
      | inr e ↦ clock-plain e
    ]

  requeue-ok :
      (c : ℕ) (p : Proc) (k : Kernel W)
      → k.locked ≡ false
      → get_elem? k.procs c ≡ some p
      → requeue c p k ≡ ok (record k { procs = set k.procs c (next_turn p) })
  unfolding requeue
  requeue-ok c p k unlocked here = elim (Bool-cases (leb ((p.qlvl * 4 + 2) % 2 ^ 32) p.tq)) [
    | inl e ↦ simp (
      e,
      qlvl_down-ok c p k unlocked here,
      yield_cpu-ok c (level_down p) (put_proc c (level_down p) k) unlocked
          (get_elem?-set_self k.procs c (level_down p) (get_elem?-lt k.procs c here)),
      set-set k.procs c (level_down p) (record (level_down p) { state = runnable }),
    )
    | inr e ↦ simp (e, yield_cpu-ok c p k unlocked here)
  ]

  resched-alive :
      (c : ℕ) (user : Bool) (p : Proc) (k : Kernel W)
      → k.locked ≡ false
      → get_elem? k.procs c ≡ some p
      → p.state ≡ running
      → (p.killed && user) ≡ false
      → resched c user (some p) k ≡ ok (record k { procs = set k.procs c (next_turn p) }, false)
  unfolding resched
  resched-alive c user p k unlocked here run alive =
      simp (alive, running-eq p run, requeue-ok c p k unlocked here)
    where
      running-eq : (p : Proc) → p.state ≡ running → state_eq p.state running ≡ true
      running-eq p e = rw e

  -- A timer interrupt of the running process in slot `c`, with the lock free, from a state in which
  -- every process has a level of at most MLFQ_K and time left at its level, and no running process is
  -- at MLFQ_K (4 * MLFQ_K + 2 fits in 32 bits), where the process has not been killed while it was in
  -- user space. The interrupt ends without a panic and without a call of `exit`, every process again
  -- has a level of at most MLFQ_K and time left, and the process is runnable. On the first CPU it has used one more tick of its quantum; when that
  -- makes 4 * level + 2 ticks it moves down a level and starts a new quantum; on every hundredth
  -- tick it is back at level 0. On another CPU its level and quantum do not change.
  pub timer_lem :
      (mlfq_k : ℕ) (first_cpu user : Bool) (k : Kernel W) (c ticks : ℕ) (p : Proc)
      → mlfq_k * 4 + 2 < 2 ^ 32
      → k.locked ≡ false
      → get_elem? k.procs c ≡ some p
      → p.state ≡ running
      → All (Level mlfq_k) k.procs
      → (p.killed && user) ≡ false
      → (k' : Kernel W) × (p' : Proc) × (timer first_cpu user c k ticks
          ≡ ok (k', if first_cpu then (ticks + 1) % 2 ^ 32 else ticks, false))
        × (get_elem? k'.procs c ≡ some p')
        × (p'.state ≡ runnable)
        × ((p'.qlvl, p'.tq) ≡ turn_end first_cpu ticks p)
        × All (Level mlfq_k) k'.procs
  unfolding timer
  timer_lem mlfq_k first_cpu user k c ticks p bound unlocked here run levels alive =
      let d = clock_lem mlfq_k bound k c ticks p unlocked here run levels first_cpu in
      (
        record d.after { procs = set d.after.procs c (next_turn d.self) },
        next_turn d.self,
        simp (
          d.runs,
          d.here,
          resched-alive c user d.self d.after d.unlocked d.here d.running_
              (ap (λ b. b && user) d.dead ∙ alive),
        ),
        get_elem?-set_self d.after.procs c _ (get_elem?-lt d.after.procs c d.here),
        next_turn-runnable mlfq_k bound d.self d.low d.spent,
        next_turn-decided mlfq_k bound d.self d.low d.spent ∙ d.decided,
        d.others (next_turn d.self) (next_turn-Level mlfq_k bound d.self d.low d.spent),
      )
