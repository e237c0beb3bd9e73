-- ===== src/Proc/Orphans.antt =====
-- How the last loop of `exit` (xv6-public/proc.c) changes a process table, one slot at a time.
use mathlib.Core.Path.{subst}
use ele.Base.{
  ℕ, zero, suc, ◌+◌, ◌<◌, ◌≡◌, refl, ap, ◌∙◌, ◌≢◌, false, ◌&&◌, none, some, List, [], ◌∷◌, arith,
  ◌==◌, get_elem?, get_elem?-lt, set, map, length, length-set, All, Bool-cases, inl, inr,
}
use ele.Proc.{sleeping, state_eq, Chan, chan_eq, Proc}
use ele.Proc.Table.{get_elem?-set}
use ele.Proc.Life.{is_child_of, wake_one}

-- No process below slot `m` is a child of slot `cur`.
abbrev pub NoChild : ℕ → ℕ → List Proc → Type 0
NoChild cur m ps = (j : ℕ) (q : Proc) → j < m → get_elem? ps j ≡ some q → is_child_of cur q ≡ false

-- No process sleeps on the channel.
abbrev pub IsAwake : Chan → List Proc → Type 0
IsAwake c ps =
    (j : ℕ) (q : Proc)
    → get_elem? ps j ≡ some q
    → (state_eq q.state sleeping && chan_eq q.chan c) ≡ false

pub get_elem?-of_map :
    (f : Proc → Proc) (ps : List Proc) (j : ℕ) (q : Proc)
    → get_elem? (map f ps) j ≡ some q
    → (p : Proc) × (get_elem? ps j ≡ some p) × (f p ≡ q)
get_elem?-of_map f [] j q h = cc
get_elem?-of_map f (p ∷ ps) zero q h = (p, refl, some-inj h)
  where
    some-inj : some (f p) ≡ some q → f p ≡ q
    some-inj h = cc
get_elem?-of_map f (p ∷ ps) (suc j) q h = get_elem?-of_map f ps j q h

pub length-map : (f : Proc → Proc) (ps : List Proc) → length (map f ps) ≡ length ps
length-map f [] = refl
length-map f (p ∷ ps) = ap suc (length-map f ps)

pub wake_one-child :
    (cur : ℕ) (c : Chan) (p : Proc) → is_child_of cur (wake_one c p) ≡ is_child_of cur p
wake_one-child cur c p = elim (Bool-cases (state_eq p.state sleeping && chan_eq p.chan c)) [
  | inl e ↦ rw e
  | inr e ↦ rw e
]

pub wake_one-awake :
    (c d : Chan) (p : Proc)
    → (state_eq p.state sleeping && chan_eq p.chan d) ≡ false
    → (state_eq (wake_one c p).state sleeping && chan_eq (wake_one c p).chan d) ≡ false
wake_one-awake c d p h = elim (Bool-cases (state_eq p.state sleeping && chan_eq p.chan c)) [
  | inl e ↦ rw e
  | inr e ↦ rw e h
]

pub wake_one-wakes :
    (c : Chan) (p : Proc)
    → (state_eq (wake_one c p).state sleeping && chan_eq (wake_one c p).chan c) ≡ false
wake_one-wakes c p = elim (Bool-cases (state_eq p.state sleeping && chan_eq p.chan c)) [
  | inl e ↦ rw e
  | inr e ↦ rw e e
]

-- The process has no open file and no directory.
abbrev pub HasClosed : Proc → Type 0
HasClosed p = (p.cwd ≡ none) × All (λ f. f ≡ none) p.ofile

pub wake_one-HasClosed : (c : Chan) (p : Proc) → HasClosed p → HasClosed (wake_one c p)
wake_one-HasClosed c p h = elim (Bool-cases (state_eq p.state sleeping && chan_eq p.chan c)) [
  | inl e ↦ rw e h
  | inr e ↦ rw e h
]

-- A table in which the slots below `m` have been seen to.
pub record Settled (cur m n : ℕ) (d : Chan) (ps : List Proc) : Type 0 where
  pub orphaned : NoChild cur m ps
  pub awake : IsAwake d ps
  pub long : length ps ≡ n
  pub closed : (q : Proc) → get_elem? ps cur ≡ some q → HasClosed q

pub wake-Settled :
    (cur m n : ℕ) (d c : Chan) (ps : List Proc)
    → Settled cur m n d ps
    → Settled cur m n d (map (wake_one c) ps)
wake-Settled cur m n d c ps s = record {
  orphaned = λ j q l h.
      let (p, g, e) = get_elem?-of_map (wake_one c) ps j q h in
      subst (λ q. is_child_of cur q ≡ false) e (wake_one-child cur c p ∙ s.orphaned j p l g);
  awake = λ j q h.
      let (p, g, e) = get_elem?-of_map (wake_one c) ps j q h in
      subst (λ (q : Proc). (state_eq q.state sleeping && chan_eq q.chan d) ≡ false) e
        (wake_one-awake c d p (s.awake j p g));
  long = length-map (wake_one c) ps ∙ s.long;
  closed = λ q h.
      let (p, g, e) = get_elem?-of_map (wake_one c) ps cur q h in
      subst HasClosed e (wake_one-HasClosed c p (s.closed p g));
}

pub set-HasClosed :
    (ps : List Proc) (m cur : ℕ) (v q : Proc)
    → m < length ps
    → (m ≡ cur → HasClosed v)
    → (get_elem? ps cur ≡ some q → HasClosed q)
    → get_elem? (set ps m v) cur ≡ some q
    → HasClosed q
set-HasClosed ps m cur v q lt here there h = elim (Bool-cases (m == cur)) [
  | inl e ↦
      subst HasClosed (same (ground (arith, get_elem?-set ps m cur v lt))) (here (ground arith))
  | inr e ↦ there (ground (arith, get_elem?-set ps m cur v lt))
]
  where
    same : some v ≡ some q → v ≡ q
    same e = cc

-- Slot `m` is given to the process `init`.
pub adopt-Settled :
    (cur m n init : ℕ) (d : Chan) (ps : List Proc) (p : Proc)
    → cur ≢ init
    → get_elem? ps m ≡ some p
    → Settled cur m n d ps
    → Settled cur (m + 1) n d (set ps m (record p { parent = some init }))
adopt-Settled cur m n init d ps p ne here s = record {
  orphaned = λ j q l h. ground (
    arith,
    get_elem?-set ps m j (record p { parent = some init }) (get_elem?-lt ps m here),
    s.orphaned j q,
  );
  awake = λ j q h. ground (
    arith,
    get_elem?-set ps m j (record p { parent = some init }) (get_elem?-lt ps m here),
    s.awake j q,
    s.awake m p here,
  );
  long = length-set ps m _ ∙ s.long;
  closed = λ q h.
      set-HasClosed ps m cur (record p { parent = some init }) q (get_elem?-lt ps m here)
        (λ e. s.closed p (subst (λ i. get_elem? ps i ≡ some p) e here)) (λ g. s.closed q g) h;
}

pub skip-Settled :
    (cur m n : ℕ) (d : Chan) (ps : List Proc)
    → ((q : Proc) → get_elem? ps m ≡ some q → is_child_of cur q ≡ false)
    → Settled cur m n d ps
    → Settled cur (m + 1) n d ps
skip-Settled cur m n d ps out s = record {
  orphaned = λ j q l h. elim (Bool-cases (j == m)) [
    | inl e ↦ out q (subst (λ i. get_elem? ps i ≡ some q) (ground arith) h)
    | inr e ↦ s.orphaned j q (ground arith) h
  ];
  awake = s.awake;
  long = s.long;
  closed = s.closed;
}
