-- ===== src/Proc/Table.antt =====
-- Searches and updates of the process table (xv6-public/proc.c).
use ele.Base.{
  ℕ, zero, suc, ◌+◌, ◌<◌, ◌≡◌, refl, Bool, true, false, none, some, List, [], ◌∷◌, arith, ◌==◌,
  if◌then◌else◌, get_elem?, set, length, Bool-cases, inl, inr, map,
}
use ele.Proc.{Proc, find, state_eq, unused}

abbrev pub is_unused : Proc → Bool
is_unused p = state_eq p.state unused

-- A search from slot `i` finds the first process that passes the test.
pub find-some :
    (test : Proc → Bool) (ps : List Proc) (i : ℕ) {j : ℕ}
    → find test ps i ≡ some j
    → (d : ℕ) × (p : Proc) × (j ≡ i + d)
      × (get_elem? ps d ≡ some p)
      × (test p ≡ true)
      × ((e : ℕ) (q : Proc) → e < d → get_elem? ps e ≡ some q → test q ≡ false)
unfolding find
find-some test [] i h = cc
find-some test (p ∷ ps) i {j} h = elim (Bool-cases (test p)) [
  | inl yes_p ↦ (0, p, ground arith, refl, yes_p, λ e q lt g. absurd (omega arith))
  | inr no_p ↦
      let (d, q, e, g, t, before) = find-some test ps (i + 1) {j = j} (ground arith) in
      (suc d, q, omega arith, g, t, λ e' r lt g'. step before no_p e' r lt g')
]
  where
    step :
        {d : ℕ}
        → ((e : ℕ) (q : Proc) → e < d → get_elem? ps e ≡ some q → test q ≡ false)
        → test p ≡ false
        → (e : ℕ) (q : Proc) → e < suc d
        → get_elem? (p ∷ ps) e ≡ some q
        → test q ≡ false
    step before no_p zero q lt g = ground arith
    step before no_p (suc e) q lt g = before e q (omega arith) g

pub find-none :
    (test : Proc → Bool) (ps : List Proc) (i : ℕ)
    → find test ps i ≡ none
    → (d : ℕ) (p : Proc) → get_elem? ps d ≡ some p
    → test p ≡ false
unfolding find
find-none test [] i h d p g = cc
find-none test (q ∷ ps) i h zero p g = ground arith
find-none test (q ∷ ps) i h (suc d) p g = find-none test ps (i + 1) (ground arith) d p g

pub get_elem?-map {ℓ κ} :
    {A : Type ℓ} {B : Type κ} (f : A → B) (xs : List A) (i : ℕ) {a : A}
    → get_elem? xs i ≡ some a
    → get_elem? (map f xs) i ≡ some (f a)
get_elem?-map f [] i h = cc
get_elem?-map f (x ∷ xs) zero h = cc
get_elem?-map f (x ∷ xs) (suc i) h = get_elem?-map f xs i h

module _ {ℓ} {A : Type ℓ} where
  pub get_elem?-set :
      (xs : List A) (i j : ℕ) (v : A)
      → i < length xs
      → get_elem? (set xs i v) j ≡ (if i == j then some v else get_elem? xs j)
  get_elem?-set [] i j v h = absurd (omega arith)
  get_elem?-set (x ∷ xs) zero zero v h = refl
  get_elem?-set (x ∷ xs) zero (suc j) v h = ground arith
  get_elem?-set (x ∷ xs) (suc i) zero v h = ground arith
  get_elem?-set (x ∷ xs) (suc i) (suc j) v h = ground (arith, get_elem?-set xs i j v (omega arith))

-- The processes that exist have different pids, all handed out before.
pub record IsTable (procs : List Proc) (nextpid : ℕ) : Type 0 where
  pub unique :
      (i j : ℕ) (p q : Proc)
      → get_elem? procs i ≡ some p
      → get_elem? procs j ≡ some q
      → is_unused p ≡ false
      → is_unused q ≡ false
      → p.pid ≡ q.pid
      → i ≡ j
  pub issued :
      (i : ℕ) (p : Proc) → get_elem? procs i ≡ some p → is_unused p ≡ false → p.pid < nextpid

-- Every process of the first table is in the second, unchanged and at its slot.
abbrev pub Keeps : List Proc → List Proc → Type 0
Keeps procs procs' =
    (j : ℕ) (q : Proc)
    → get_elem? procs j ≡ some q
    → is_unused q ≡ false
    → get_elem? procs' j ≡ some q

module _ {procs : List Proc} {n : ℕ} (t : IsTable procs n) (i : ℕ) (lt : i < length procs) where
  abbrev at_set :
      (v : Proc) (a : ℕ)
      → get_elem? (set procs i v) a ≡ (if i == a then some v else get_elem? procs a)
  at_set v a = get_elem?-set procs i a v lt

  -- A slot may be freed.
  pub put-unused : (v : Proc) → is_unused v ≡ true → IsTable (set procs i v) n
  put-unused v u = record {
    unique = λ a b x y ea eb ua ub e. ground (arith, at_set v a, at_set v b, t.unique a b x y);
    issued = λ a x ea ua. ground (arith, at_set v a, t.issued a x);
  }

  -- A process that exists may change without a change of its pid.
  pub put-same :
      (p v : Proc)
      → get_elem? procs i ≡ some p
      → is_unused p ≡ false
      → v.pid ≡ p.pid
      → IsTable (set procs i v) n
  put-same p v here u same = record {
    unique = λ a b x y ea eb ua ub e.
        ground
          (arith, at_set v a, at_set v b, t.unique a b x y, t.unique a b p y, t.unique a b x p);
    issued = λ a x ea ua. ground (arith, at_set v a, t.issued a x, t.issued i p);
  }

  -- A slot may be given the next pid.
  pub put-next : (v : Proc) → v.pid ≡ n → IsTable (set procs i v) (n + 1)
  put-next v next = record {
    unique = λ a b x y ea eb ua ub e.
        ground (arith, at_set v a, at_set v b, t.unique a b x y, t.issued a x, t.issued b y);
    issued = λ a x ea ua. ground (arith, at_set v a, t.issued a x);
  }
