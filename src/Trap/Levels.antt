-- ===== src/Trap/Levels.antt =====
-- The levels of a process and the end of its turn (xv6-public/trap.c).
use ele.Base.{
  ℕ, zero, suc, ◌+◌, ◌*◌, ◌%◌, ◌^◌, ◌≤◌, ◌<◌, ◌≡◌, refl, ap, Bool, true, false, ◌&&◌, List, [], ◌∷◌,
  arith, ◌==◌, leb, if◌then◌else◌, set, map, All, Bool-cases, inl, inr,
}
use ele.Proc.{runnable, running, sleeping, state_eq, Chan, chan_eq, Proc}
use ele.Proc.Life.{wake_one}
use ele.Proc.Mlfq.{boost_one, level_down}

-- A level that exists, a quantum that is not used up, and no turn at the last level.
pub record Level (mlfq_k : ℕ) (p : Proc) : Type 0 where
  pub exists_ : p.qlvl ≤ mlfq_k
  pub unspent : p.tq < p.qlvl * 4 + 2
  pub turn : state_eq p.state running ≡ true → p.qlvl < mlfq_k

pub All-map {ℓ} :
    {A : Type 0} (P : A → Type ℓ) (f : A → A) (xs : List A)
    → ((x : A) → P x → P (f x))
    → All P xs
    → All P (map f xs)
All-map P f [] h a = a
All-map P f (x ∷ xs) h a = (h x (a.0), All-map P f xs h (a.1))

pub wake_one-Level :
    (mlfq_k : ℕ) (c : Chan) (p : Proc) → Level mlfq_k p → Level mlfq_k (wake_one c p)
wake_one-Level mlfq_k c p l = elim (Bool-cases (state_eq p.state sleeping && chan_eq p.chan c)) [
  | inl e ↦ rw e (record { exists_ = l.exists_; unspent = l.unspent; turn = λ h. cc })
  | inr e ↦ rw e l
]

pub boost_one-Level : (mlfq_k : ℕ) (p : Proc) → 0 < mlfq_k → Level mlfq_k (boost_one p)
boost_one-Level mlfq_k p h = record { exists_ = omega arith; unspent = omega arith; turn = λ _. h }

-- The level and the used quantum after an interrupt.
abbrev pub turn_end : Bool → ℕ → Proc → ℕ × ℕ
turn_end false ticks p = (p.qlvl, p.tq)
turn_end true ticks p =
    if (ticks + 1) % 2 ^ 32 % 100 == 0
    then (0, 0)
    else if leb (p.qlvl * 4 + 2) (p.tq + 1)
    then (p.qlvl + 1, 0)
    else (p.qlvl, p.tq + 1)

pub set-set : (xs : List Proc) (i : ℕ) (v w : Proc) → set (set xs i v) i w ≡ set xs i w
set-set [] i v w = refl
set-set (x ∷ xs) zero v w = refl
set-set (x ∷ xs) (suc i) v w = ap (λ l. x ∷ l) (set-set xs i v w)

-- The process at the end of its turn.
abbrev pub next_turn : Proc → Proc
next_turn p =
    if leb ((p.qlvl * 4 + 2) % 2 ^ 32) p.tq
    then record (level_down p) { state = runnable }
    else record p { state = runnable }

module _ (mlfq_k : ℕ) (bound : mlfq_k * 4 + 2 < 2 ^ 32) (p : Proc) (low : p.qlvl < mlfq_k)
    (spent : p.tq ≤ p.qlvl * 4 + 2) where
  no_wrap_level :
      ((p.qlvl * 4 + 2) % 2 ^ 32 ≡ p.qlvl * 4 + 2) × ((p.qlvl + 1) % 2 ^ 32 ≡ p.qlvl + 1)
  no_wrap_level = omega arith

  pub next_turn-runnable : (next_turn p).state ≡ runnable
  next_turn-runnable = elim (Bool-cases (leb ((p.qlvl * 4 + 2) % 2 ^ 32) p.tq)) [
    | inl e ↦ rw e
    | inr e ↦ rw e
  ]

  pub next_turn-decided :
      ◌≡◌ {A = ℕ × ℕ}
        ((next_turn p).qlvl, (next_turn p).tq)
        (if leb (p.qlvl * 4 + 2) p.tq then (p.qlvl + 1, 0) else (p.qlvl, p.tq))
  next_turn-decided = elim (Bool-cases (leb (p.qlvl * 4 + 2) p.tq)) [
    | inl e ↦ rw (no_wrap_level.0, e, no_wrap_level.1)
    | inr e ↦ rw (no_wrap_level.0, e)
  ]

  pub next_turn-Level : Level mlfq_k (next_turn p)
  next_turn-Level = elim (Bool-cases (leb (p.qlvl * 4 + 2) p.tq)) [
    | inl e ↦
        rw (no_wrap_level.0, e)
          (record {
            exists_ = omega arith;
            unspent = omega arith;
            turn = λ h. absurd (ground arith);
          })
    | inr e ↦
        rw (no_wrap_level.0, e)
          (record {
            exists_ = omega arith;
            unspent = ground arith;
            turn = λ h. absurd (ground arith);
          })
  ]

pub wake_one-running : (c : Chan) (p : Proc) → p.state ≡ running → wake_one c p ≡ p
wake_one-running c p e = simp e
