-- ===== src/Proc/Policy.antt =====
-- Which process the multilevel feedback queue (xv6-public/proc.c) runs.
use native.Mathlib.Nat.{zero-add}
use mathlib.Core.Path.{subst}
use ele.Base.{
  ℕ, zero, suc, ◌+◌, ◌≤◌, ◌<◌, ◌≡◌, refl, sym, ◌∙◌, ap, ◌≢◌, true, false, Option, none, some, List,
  [], ◌∷◌, arith, ◌==◌, get_elem?, map, get_elem?-lt, get_elem?-set_self, Bool-cases, inl, inr, ◌⊎◌,
  ok, ◌>>=◌,
}
use ele.Proc.{
  State, unused, embryo, sleeping, zombie, runnable, running, state_eq, Proc, Kernel, put_proc,
}
use ele.Proc.Table.{get_elem?-map, get_elem?-set}
use ele.Proc.Mlfq.{eligible, replaces, select_one, select_loop, dispatch, boost_one, priority_boost}

-- The process `s` is served before `p`, or as well as `p`: its level is lower, or the levels are the
-- same and `s` has used part of its quantum, or neither has and the priority of `s` is not lower.
abbrev pub Before : Proc → Proc → Type 0
Before s p =
    (s.qlvl < p.qlvl)
    ⊎ ((s.qlvl ≡ p.qlvl) × ((s.tq ≢ 0) ⊎ ((p.tq ≡ 0) × (p.priority ≤ s.priority))))

Before-refl : (p : Proc) → Before p p
Before-refl p = elim (Bool-cases (p.tq == 0)) [
  | inl e ↦ inr (refl, inr (ground arith, omega arith))
  | inr e ↦ inr (refl, inl (ground arith))
]

replaces-Before : (p s : Proc) → replaces p s ≡ true → (q : Proc) → Before s q → Before p q
replaces-Before p s h q b = ground arith

kept-Before : (p s : Proc) → replaces p s ≡ false → Before s p
kept-Before p s h = ground arith

false-true : false ≡ true → ⊥
false-true h = cc

-- `s` is served before whatever the earlier choice is served before.
abbrev Over : Option (ℕ × Proc) → Proc → Type 0
Over none s = Unit
Over (some (a, p)) s = (q : Proc) → Before p q → Before s q

abbrev From : ℕ → List Proc → ℕ → ℕ → Proc → Type 0
From mlfq_k ps i j s =
    (d : ℕ) × (j ≡ i + d) × (get_elem? ps d ≡ some s) × (eligible mlfq_k s ≡ true)

-- A choice among the processes of a list and the choice made before.
abbrev Chosen : ℕ → List Proc → ℕ → Option (ℕ × Proc) → Option (ℕ × Proc) → Type 0
Chosen mlfq_k ps i before none =
    (before ≡ none) × ((d : ℕ) (p : Proc) → get_elem? ps d ≡ some p → eligible mlfq_k p ≡ false)
Chosen mlfq_k ps i before (some (j, s)) =
    ((before ≡ some (j, s)) ⊎ From mlfq_k ps i j s)
    × ((d : ℕ) (p : Proc) → get_elem? ps d ≡ some p → eligible mlfq_k p ≡ true → Before s p)
    × Over before s

module _ (mlfq_k : ℕ) (p : Proc) (ps : List Proc) (i : ℕ) where
  From-next : {j : ℕ} {s : Proc} → From mlfq_k ps (i + 1) j s → From mlfq_k (p ∷ ps) i j s
  From-next (d, e, g, h) = (suc d, omega arith, g, h)

  Before-next :
      (s : Proc)
      → ((d : ℕ) (q : Proc) → get_elem? ps d ≡ some q → eligible mlfq_k q ≡ true → Before s q)
      → (eligible mlfq_k p ≡ true → Before s p)
      → (d : ℕ) (q : Proc) → get_elem? (p ∷ ps) d ≡ some q
      → eligible mlfq_k q ≡ true
      → Before s q
  Before-next s rest here zero q g e = subst (Before s) (some-same g) (here (ground arith))
    where
      some-same : some p ≡ some q → p ≡ q
      some-same h = cc
  Before-next s rest here (suc d) q g e = rest d q g e

  Chosen-skip :
      (before r : Option (ℕ × Proc))
      → eligible mlfq_k p ≡ false
      → Chosen mlfq_k ps (i + 1) before r
      → Chosen mlfq_k (p ∷ ps) i before r
  Chosen-skip before none out (e, no_other) = (e, λ d q g. go d q g)
    where
      go : (d : ℕ) (q : Proc) → get_elem? (p ∷ ps) d ≡ some q → eligible mlfq_k q ≡ false
      go zero q g = ground arith
      go (suc d) q g = no_other d q g
  Chosen-skip before (some (j, s)) out (inl e, b, o) =
      (inl e, Before-next s b (λ h. absurd (ground arith)), o)
  Chosen-skip before (some (j, s)) out (inr f, b, o) =
      (inr (From-next f), Before-next s b (λ h. absurd (ground arith)), o)

  -- The choice so far is replaced by `p`.
  Chosen-take :
      (before r : Option (ℕ × Proc))
      → eligible mlfq_k p ≡ true
      → Over before p
      → Chosen mlfq_k ps (i + 1) (some (i, p)) r
      → Chosen mlfq_k (p ∷ ps) i before r
  Chosen-take before none e over (h, _) = absurd (ground arith)
  Chosen-take before (some (j, s)) e over (f, b, o) =
      (inr (origin f), Before-next s b (λ _. o p (Before-refl p)), wider before over)
    where
      origin :
          (◌≡◌ {A = Option (ℕ × Proc)} (some (i, p)) (some (j, s))) ⊎ From mlfq_k ps (i + 1) j s
          → From mlfq_k (p ∷ ps) i j s
      origin (inl h) = (0, ground arith, cc, ground arith)
      origin (inr f) = From-next f

      wider : (before : Option (ℕ × Proc)) → Over before p → Over before s
      wider none v = tt
      wider (some (a, q)) v = λ r b. o r (v r b)

  Chosen-keep :
      (a : ℕ) (t : Proc) (r : Option (ℕ × Proc))
      → replaces p t ≡ false
      → Chosen mlfq_k ps (i + 1) (some (a, t)) r
      → Chosen mlfq_k (p ∷ ps) i (some (a, t)) r
  Chosen-keep a t none e (h, _) = absurd (ground arith)
  Chosen-keep a t (some (j, s)) e (inl h, b, o) =
      (inl h, Before-next s b (λ _. o p (kept-Before p t e)), o)
  Chosen-keep a t (some (j, s)) e (inr f, b, o) =
      (inr (From-next f), Before-next s b (λ _. o p (kept-Before p t e)), o)

select_loop-Chosen :
    (mlfq_k : ℕ) (ps : List Proc) (i : ℕ) (before : Option (ℕ × Proc))
    → Chosen mlfq_k ps i before (select_loop mlfq_k ps i before)
unfolding select_loop
select_loop-Chosen mlfq_k [] i none = (refl, λ d p g. cc)
select_loop-Chosen mlfq_k [] i (some (j, s)) = (inl refl, λ d p g e. cc, λ q b. b)
select_loop-Chosen mlfq_k (p ∷ ps) i before = elim (Bool-cases (eligible mlfq_k p)) [
  | inr out ↦
      rw out (Chosen-skip mlfq_k p ps i before _ out (select_loop-Chosen mlfq_k ps (i + 1) before))
  | inl in_ ↦ rw in_ (go before in_ (select_loop-Chosen mlfq_k ps (i + 1)))
]
  where
    go :
        (before : Option (ℕ × Proc))
        → eligible mlfq_k p ≡ true
        → ((b : Option (ℕ × Proc)) → Chosen mlfq_k ps (i + 1) b (select_loop mlfq_k ps (i + 1) b))
        → Chosen mlfq_k (p ∷ ps) i before (select_loop mlfq_k ps (i + 1) (select_one i p before))
    go none in_ ih = Chosen-take mlfq_k p ps i none _ in_ tt (ih (some (i, p)))
    go (some (a, t)) in_ ih = elim (Bool-cases (replaces p t)) [
      | inl e ↦
          rw e (
            Chosen-take mlfq_k p ps i (some (a, t)) _ in_ (replaces-Before p t e)
              (ih (some (i, p))))
      | inr e ↦ rw e (Chosen-keep mlfq_k p ps i a t _ e (ih (some (a, t))))
    ]

-- Every process that may run has a kernel stack and a page table.
abbrev pub CanRun : List Proc → Type 0
CanRun ps =
    (d : ℕ) (p : Proc)
    → get_elem? ps d ≡ some p
    → state_eq p.state runnable ≡ true
    → (p.kstack ≢ 0) × (p.pgdir ≢ 0)

-- A process that a round may start: it can run, and does not wait for a boost at the last level.
abbrev pub IsCandidate : ℕ → Proc → Type 0
IsCandidate mlfq_k p = (p.state ≡ runnable) × (p.qlvl ≢ mlfq_k)

state_eq-runnable : (s : State) → state_eq s runnable ≡ true → s ≡ runnable
state_eq-runnable runnable h = refl
state_eq-runnable unused h = cc
state_eq-runnable embryo h = cc
state_eq-runnable sleeping h = cc
state_eq-runnable running h = cc
state_eq-runnable zombie h = cc

eligible-IsCandidate : (mlfq_k : ℕ) (p : Proc) → eligible mlfq_k p ≡ true → IsCandidate mlfq_k p
eligible-IsCandidate mlfq_k p h = (state_eq-runnable p.state (ground arith), λ e. ground arith)

IsCandidate-eligible : (mlfq_k : ℕ) (p : Proc) → IsCandidate mlfq_k p → eligible mlfq_k p ≡ true
IsCandidate-eligible mlfq_k p (s, ne) =
    let level : (p.qlvl == mlfq_k) ≡ false = ground (arith, ne) in rw (s, level) refl

abbrev pub Dispatched : {W : Type 0} → ℕ → Kernel W → Kernel W → Option ℕ → Type 0
Dispatched mlfq_k k k' none =
    (k' ≡ k) × ((d : ℕ) (p : Proc) → get_elem? k.procs d ≡ some p → IsCandidate mlfq_k p → ⊥)
Dispatched mlfq_k k k' (some i) =
    (s : Proc) × (get_elem? k.procs i ≡ some s)
    × IsCandidate mlfq_k s
    × ((d : ℕ) (p : Proc) → get_elem? k.procs d ≡ some p → IsCandidate mlfq_k p → Before s p)
    × (get_elem? k'.procs i ≡ some (record s { state = running }))
    × ((j : ℕ) → i ≢ j → get_elem? k'.procs j ≡ get_elem? k.procs j)

module _ {W : Type 0} (mlfq_k : ℕ) where
  dispatch-none :
      (k : Kernel W)
      → k.locked ≡ false
      → select_loop mlfq_k k.procs 0 none ≡ none
      → dispatch mlfq_k k ≡ ok (k, none)
  unfolding dispatch
  dispatch-none k unlocked e = simp (unlocked, e)

  dispatch-some :
      (k : Kernel W) (i : ℕ) (s : Proc)
      → k.locked ≡ false
      → select_loop mlfq_k k.procs 0 none ≡ some (i, s)
      → (s.kstack == 0) ≡ false
      → (s.pgdir == 0) ≡ false
      → dispatch mlfq_k k ≡ ok (put_proc i (record s { state = running }) k, some i)
  unfolding dispatch
  dispatch-some k i s unlocked e stack dir = simp (unlocked, e, stack, dir)

  pub dispatch_lem :
      (k : Kernel W)
      → k.locked ≡ false
      → CanRun k.procs
      → (k' : Kernel W) × (r : Option ℕ) × (dispatch mlfq_k k ≡ ok (k', r))
        × Dispatched mlfq_k k k' r
  dispatch_lem k unlocked ready =
      go (select_loop mlfq_k k.procs 0 none) refl (select_loop-Chosen mlfq_k k.procs 0 none)
    where
      go :
          (c : Option (ℕ × Proc))
          → select_loop mlfq_k k.procs 0 none ≡ c
          → Chosen mlfq_k k.procs 0 none c
          → (k' : Kernel W) × (r : Option ℕ) × (dispatch mlfq_k k ≡ ok (k', r))
            × Dispatched mlfq_k k k' r
      go none e (_, no_one) = (
        k,
        none,
        dispatch-none k unlocked e,
        (refl, λ d p g c. false-true (sym (no_one d p g) ∙ IsCandidate-eligible mlfq_k p c)),
      )
      go (some (i, s)) e (inl h, b, o) = absurd (ground arith)
      go (some (i, s)) e (inr (d, at, g, el), b, o) =
          let here : get_elem? k.procs i ≡ some s =
            subst (λ n. get_elem? k.procs n ≡ some s) (sym (at ∙ zero-add d)) g in
          let can = ready d s g (ground arith) in
          let lt = get_elem?-lt k.procs i here in
          (
            put_proc i (record s { state = running }) k,
            some i,
            dispatch-some k i s unlocked e (ground arith) (ground arith),
            (
              s,
              here,
              eligible-IsCandidate mlfq_k s el,
              λ j p h c. b j p h (IsCandidate-eligible mlfq_k p c),
              get_elem?-set_self k.procs i _ lt,
              λ j ne. ground (arith, get_elem?-set k.procs i j (record s { state = running }) lt),
            ),
          )

  boost-unlocked :
      (k : Kernel W)
      → k.locked ≡ false
      → priority_boost k ≡ ok (record k { procs = map boost_one k.procs })
  unfolding priority_boost
  boost-unlocked k unlocked = simp unlocked

  boost-Dispatched :
      (k k' : Kernel W) (r : Option ℕ) (j : ℕ) (p : Proc)
      → 0 < mlfq_k
      → get_elem? k.procs j ≡ some p
      → state_eq p.state runnable ≡ true
      → Dispatched mlfq_k (record k { procs = map boost_one k.procs }) k' r
      → (i : ℕ) × (s : Proc) × (r ≡ some i)
        × (get_elem? k'.procs i ≡ some s)
        × (s.state ≡ running)
        × (p.priority ≤ s.priority)
  boost-Dispatched k k' none j p level here run (_, no_one) =
      absurd (no_one j (boost_one p) (get_elem?-map boost_one _ j here) boosted_candidate)
    where
      boosted_candidate : IsCandidate mlfq_k (boost_one p)
      boosted_candidate = (state_eq-runnable p.state run, λ e. omega arith)
  boost-Dispatched k k' (some i) j p level here run (s, g, el, b, now, _) = (
    i,
    record s { state = running },
    refl,
    now,
    refl,
    served s
        (b j (boost_one p) (get_elem?-map boost_one k.procs j here)
          (state_eq-runnable p.state run, λ e. omega arith))
        (boosted k.procs i g),
  )
    where
      boosted :
          (ps : List Proc) (i : ℕ) {s : Proc}
          → get_elem? (map boost_one ps) i ≡ some s
          → (s.qlvl ≡ 0) × (s.tq ≡ 0)
      boosted [] i h = absurd (cc)
      boosted (q ∷ ps) zero {s} h = (ground arith, ground arith)
      boosted (q ∷ ps) (suc i) h = boosted ps i h

      served :
          (s : Proc) → Before s (boost_one p) → (s.qlvl ≡ 0) × (s.tq ≡ 0) → p.priority ≤ s.priority
      served s b z = ground arith

  -- With the lock free, MLFQ_K positive, and every runnable process with a kernel stack and a page
  -- table: after a boost no runnable process is passed over at the last level. If some process is
  -- runnable, the boost and the round behind it do not panic, and the round starts a process whose
  -- priority is at least as high.
  pub boost-dispatch :
      (k : Kernel W) (j : ℕ) (p : Proc)
      → k.locked ≡ false
      → 0 < mlfq_k
      → CanRun k.procs
      → get_elem? k.procs j ≡ some p
      → state_eq p.state runnable ≡ true
      → (k' : Kernel W) × (i : ℕ) × (s : Proc) × ((priority_boost k >>= dispatch mlfq_k)
          ≡ ok (k', some i))
        × (get_elem? k'.procs i ≡ some s)
        × (s.state ≡ running)
        × (p.priority ≤ s.priority)
  boost-dispatch k j p unlocked level ready here run =
      let (k', r, e, d) =
        dispatch_lem (record k { procs = map boost_one k.procs }) unlocked
          (λ a q g u. boost-ready k.procs ready a q g u) in
      let (i, s, er, now, running_, prio) = boost-Dispatched k k' r j p level here run d in
      (k', i, s, rw (boost-unlocked k unlocked) (e ∙ ap (λ t. ok (k', t)) er), now, running_, prio)
    where
      boost-ready : (ps : List Proc) → CanRun ps → CanRun (map boost_one ps)
      boost-ready [] c d q g u = absurd (cc)
      boost-ready (x ∷ ps) c zero q g u =
          subst (λ (y : Proc). (y.kstack ≢ 0) × (y.pgdir ≢ 0)) (same g) (c 0 x refl (ground arith))
        where
          same : some (boost_one x) ≡ some q → boost_one x ≡ q
          same h = cc
      boost-ready (x ∷ ps) c (suc d) q g u = boost-ready ps (λ a y h v. c (suc a) y h v) d q g u
