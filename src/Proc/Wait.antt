-- ===== src/Proc/Wait.antt =====
-- What a round of `wait` (xv6-public/proc.c) does.
use mathlib.Core.Path.{subst}
use native.Mathlib.Nat.{zero-add}
use ele.Base.{
  ℕ, zero, suc, ◌+◌, ◌<◌, ◌≡◌, refl, sym, ◌∙◌, ◌≢◌, Bool, true, false, ◌&&◌, none, some, List, [],
  ◌∷◌, arith, get_elem?, length, get_elem?-lt, get_elem?-set_self, Bool-cases, inl, inr, Result, ok,
  ◌⊎◌,
}
use ele.Proc.{unused, sleeping, zombie, state_eq, Chan, Proc, Kernel, Services, put_proc}
use ele.Proc.Table.{get_elem?-set}
use ele.Proc.Life.{
  is_child_of, freed, sleep_on, Scan, found, no_kids, has_kids, wait_scan, Waited, reaped, failed,
  asleep, wait_act, wait_round,
}

abbrev pub is_zombie : Proc → Bool
is_zombie p = state_eq p.state zombie

-- No process of the list is a zombie and a child of slot `cur`.
abbrev pub NoZombie : ℕ → List Proc → Type 0
NoZombie cur ps =
    (j : ℕ) (p : Proc) → get_elem? ps j ≡ some p → (is_child_of cur p && is_zombie p) ≡ false

-- What the scan of a list from slot `i` says. `seen` is `havekids` at its start.
abbrev pub Scanned : ℕ → Bool → List Proc → ℕ → Scan → Type 0
Scanned cur seen ps i (found j) =
    (d : ℕ) × (p : Proc) × (j ≡ i + d)
    × (get_elem? ps d ≡ some p)
    × (is_child_of cur p ≡ true)
    × (is_zombie p ≡ true)
Scanned cur seen ps i no_kids =
    (seen ≡ false) × ((j : ℕ) (p : Proc) → get_elem? ps j ≡ some p → is_child_of cur p ≡ false)
Scanned cur seen ps i has_kids =
    NoZombie cur ps
    × ((seen ≡ true)
        ⊎ ((j : ℕ) × (p : Proc) × (get_elem? ps j ≡ some p) × (is_child_of cur p ≡ true)))

Scanned-next :
    (cur : ℕ) (seen seen' : Bool) (p : Proc) (ps : List Proc) (i : ℕ) (s : Scan)
    → (is_child_of cur p && is_zombie p) ≡ false
    → ((seen' ≡ seen) × (is_child_of cur p ≡ false)) ⊎ ((seen' ≡ true) × (is_child_of cur p ≡ true))
    → Scanned cur seen' ps (i + 1) s
    → Scanned cur seen (p ∷ ps) i s
Scanned-next cur seen seen' p ps i (found j) out kid (d, q, e, h, c, z) =
    (suc d, q, omega arith, h, c, z)
Scanned-next cur seen seen' p ps i no_kids out (inl (e, c)) (s, none_) =
    (ground arith, λ j q g. go j q g)
  where
    go : (j : ℕ) (q : Proc) → get_elem? (p ∷ ps) j ≡ some q → is_child_of cur q ≡ false
    go zero q g = ground arith
    go (suc j) q g = none_ j q g
Scanned-next cur seen seen' p ps i no_kids out (inr (e, c)) (s, none_) = absurd (ground arith)
Scanned-next cur seen seen' p ps i has_kids out kid (nz, some_) =
    (λ j q g. go j q g, kids kid some_)
  where
    go :
        (j : ℕ) (q : Proc)
        → get_elem? (p ∷ ps) j ≡ some q
        → (is_child_of cur q && is_zombie q) ≡ false
    go zero q g = ground arith
    go (suc j) q g = nz j q g

    kids :
        ((seen' ≡ seen) × (is_child_of cur p ≡ false))
          ⊎ ((seen' ≡ true) × (is_child_of cur p ≡ true))
        → (seen' ≡ true)
          ⊎ ((j : ℕ) × (q : Proc) × (get_elem? ps j ≡ some q) × (is_child_of cur q ≡ true))
        → (seen ≡ true)
          ⊎ ((j : ℕ) × (q : Proc) × (get_elem? (p ∷ ps) j ≡ some q) × (is_child_of cur q ≡ true))
    kids (inr (_, c)) _ = inr (0, p, refl, c)
    kids (inl _) (inr (j, q, g, c)) = inr (suc j, q, g, c)
    kids (inl (e, _)) (inl s) = inl (ground arith)

wait_scan-Scanned :
    (cur : ℕ) (seen : Bool) (ps : List Proc) (i : ℕ)
    → Scanned cur seen ps i (wait_scan cur seen ps i)
unfolding wait_scan
wait_scan-Scanned cur true [] i = (λ j p g. cc, inl refl)
wait_scan-Scanned cur false [] i = (refl, λ j p g. cc)
wait_scan-Scanned cur seen (p ∷ ps) i = elim (Bool-cases (is_child_of cur p)) [
  | inr other ↦ rw other (
      Scanned-next cur seen seen p ps i _ (ground arith) (inl (refl, other))
        (wait_scan-Scanned cur seen ps (i + 1)))
  | inl child ↦ elim (Bool-cases (is_zombie p)) [
    | inl z ↦ rw (child, z) (0, p, omega arith, refl, child, z)
    | inr nz ↦
        rw (child, nz)
          (Scanned-next cur seen true p ps i _ (ground arith) (inr (refl, child))
            (wait_scan-Scanned cur true ps (i + 1)))
  ]
]

is_child_of-eq : (cur : ℕ) (p : Proc) → is_child_of cur p ≡ true → p.parent ≡ some cur
is_child_of-eq cur p h = ground arith

not_child_of : (cur : ℕ) (p : Proc) → is_child_of cur p ≡ false → p.parent ≢ some cur
not_child_of cur p h e = ground arith

-- No process is a child of slot `cur`.
abbrev pub Childless : ℕ → List Proc → Type 0
Childless cur ps = (j : ℕ) (p : Proc) → get_elem? ps j ≡ some p → p.parent ≢ some cur

-- No child of slot `cur` is a zombie.
abbrev pub NoDeadChild : ℕ → List Proc → Type 0
NoDeadChild cur ps =
    (j : ℕ) (p : Proc) → get_elem? ps j ≡ some p → p.parent ≡ some cur → p.state ≢ zombie

NoZombie-NoDeadChild : (cur : ℕ) (ps : List Proc) → NoZombie cur ps → NoDeadChild cur ps
NoZombie-NoDeadChild cur ps nz j p g c z = ground (arith, nz j p g)

-- A slot that may be given to a new process, with nothing of the old one.
pub record IsFree (p : Proc) : Type 0 where
  pub unused_ : p.state ≡ unused
  pub no_pid : p.pid ≡ 0
  pub no_parent : p.parent ≡ none
  pub no_stack : p.kstack ≡ 0
  pub alive : p.killed ≡ false
  pub nameless : p.name 0 ≡ 0

-- The outcomes of a round for a process in slot `cur`.
abbrev pub WaitOutcome :
    (S : Services) → ℕ → Proc → Kernel S.World → Kernel S.World → Waited → Type 0
WaitOutcome S cur self k k' (reaped pid) =
    (i : ℕ) × (p : Proc) × (get_elem? k.procs i ≡ some p)
    × (p.parent ≡ some cur)
    × (p.state ≡ zombie)
    × (p.pid ≡ pid)
    × ((q : Proc) × (get_elem? k'.procs i ≡ some q) × IsFree q)
    × (k'.world ≡ S.freevm p.pgdir (S.kfree p.kstack k.world))
    × ((j : ℕ) → i ≢ j → get_elem? k'.procs j ≡ get_elem? k.procs j)
WaitOutcome S cur self k k' failed =
    (k' ≡ k) × (Childless cur k.procs ⊎ (NoDeadChild cur k.procs × (self.killed ≡ true)))
WaitOutcome S cur self k k' asleep =
    NoDeadChild cur k.procs
    × ((j : ℕ) × (p : Proc) × (get_elem? k.procs j ≡ some p) × (p.parent ≡ some cur))
    × (self.killed ≡ false)
    × (get_elem? k'.procs cur ≡ some (record self { chan = Chan.slot cur; state = sleeping }))
    × ((j : ℕ) → cur ≢ j → get_elem? k'.procs j ≡ get_elem? k.procs j)

freed-IsFree : (p : Proc) → IsFree (freed p)
freed-IsFree p = record {
  unused_ = refl;
  no_pid = refl;
  no_parent = refl;
  no_stack = refl;
  alive = refl;
  nameless = refl;
}

module _ (S : Services) where
  open S use {World}

  module _ (cur : ℕ) (self : Proc) (k : Kernel World)
      (here : get_elem? k.procs cur ≡ some self) where
    abbrev Acted : Scan → Type 0
    Acted s =
        (k' : Kernel World) × (w : Waited) × (wait_act S cur s k ≡ ok (k', w))
        × WaitOutcome S cur self k k' w

    wait_reap-Acted :
        (i : ℕ) (p : Proc)
        → get_elem? k.procs i ≡ some p
        → is_child_of cur p ≡ true
        → is_zombie p ≡ true
        → Acted (found i)
    unfolding wait_act
    wait_reap-Acted i p g c z = (
      put_proc i (freed p) (record k { world = S.freevm p.pgdir (S.kfree p.kstack k.world) }),
      reaped p.pid,
      simp g,
      (
        i,
        p,
        g,
        is_child_of-eq cur p c,
        ground arith,
        refl,
        (freed p, get_elem?-set_self k.procs i (freed p) lt, freed-IsFree p),
        refl,
        λ j ne. ground (arith, get_elem?-set k.procs i j (freed p) lt),
      ),
    )
      where
        lt : i < length k.procs
        lt = get_elem?-lt k.procs i g

    wait_block-Acted :
        NoZombie cur k.procs
        → (j : ℕ) × (p : Proc) × (get_elem? k.procs j ≡ some p) × (is_child_of cur p ≡ true)
        → Acted has_kids
    unfolding wait_act
    wait_block-Acted nz kid = elim (Bool-cases self.killed) [
      | inl dead ↦ (k, failed, simp (here, dead), (refl, inr (quiet, dead)))
      | inr alive ↦ (
        put_proc cur (sleep_on (Chan.slot cur) self) k,
        asleep,
        simp (here, alive),
        (
          quiet,
          parented kid,
          alive,
          get_elem?-set_self k.procs cur _ lt,
          λ j ne. ground (arith, get_elem?-set k.procs cur j (sleep_on (Chan.slot cur) self) lt),
        ),
      )
    ]
      where
        lt : cur < length k.procs
        lt = get_elem?-lt k.procs cur here

        quiet : NoDeadChild cur k.procs
        quiet = NoZombie-NoDeadChild cur k.procs nz

        parented :
            (j : ℕ) × (p : Proc) × (get_elem? k.procs j ≡ some p) × (is_child_of cur p ≡ true)
            → (j : ℕ) × (p : Proc) × (get_elem? k.procs j ≡ some p) × (p.parent ≡ some cur)
        parented (j, p, g, c) = (j, p, g, is_child_of-eq cur p c)

    wait_act-Acted : (s : Scan) → Scanned cur false k.procs 0 s → Acted s
    unfolding wait_act
    wait_act-Acted (found i) (d, p, e, g, c, z) =
        wait_reap-Acted i p (subst (λ n. get_elem? k.procs n ≡ some p) (sym (e ∙ zero-add d)) g) c z
    wait_act-Acted no_kids (_, none_) =
        (k, failed, refl, (refl, inl (λ j p g. not_child_of cur p (none_ j p g))))
    wait_act-Acted has_kids (nz, inl e) = absurd (ground arith)
    wait_act-Acted has_kids (nz, inr kid) = wait_block-Acted nz kid

  wait_round-act :
      (cur : ℕ) (k : Kernel World) (r : Result (Kernel World × Waited))
      → k.locked ≡ false
      → wait_act S cur (wait_scan cur false k.procs 0) k ≡ r
      → wait_round S cur k ≡ r
  unfolding wait_round
  wait_round-act cur k r unlocked e = simp unlocked e

  -- A round of `wait` by the process in slot `cur`, with the lock free, ends without a panic, and
  -- either reaps a zombie among its children: it returns the child's pid, gives back the child's
  -- stack and page table, leaves the child's slot unused, without pid, parent, stack and name and not
  -- killed, and changes no other; or it returns -1 and changes nothing, where the process has no child, or
  -- no zombie among its children and has been killed; or there are children but no zombie among them,
  -- the process is not killed, and it goes to sleep on its own slot, which changes no other process.
  pub wait_round_lem :
      (cur : ℕ) (self : Proc) (k : Kernel World)
      → k.locked ≡ false
      → get_elem? k.procs cur ≡ some self
      → (k' : Kernel World) × (w : Waited) × (wait_round S cur k ≡ ok (k', w))
        × WaitOutcome S cur self k k' w
  wait_round_lem cur self k unlocked here =
      let (k', w, e, o) =
        wait_act-Acted cur self k here (wait_scan cur false k.procs 0)
          (wait_scan-Scanned cur false k.procs 0) in
      (k', w, wait_round-act cur k _ unlocked e, o)
