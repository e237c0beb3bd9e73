-- ===== src/Proc/Wake.antt =====
-- `kill` and `wakeup` (xv6-public/proc.c): which process is marked, and which ones run again.
use ele.Base.{
  ℕ, zero, suc, ◌<◌, ◌≡◌, refl, ◌≢◌, Bool, true, false, some, List, [], ◌∷◌, arith, ◌==◌,
  if◌then◌else◌, get_elem?, ok, Bool-cases, inl, inr,
}
use ele.Proc.{sleeping, runnable, state_eq, Proc, Kernel}
use ele.Proc.Life.{kill_loop, kill}

-- A process that is told to die: if it slept, it runs again.
abbrev pub condemned : Proc → Proc
condemned p = record p {
  killed = true;
  state = if state_eq p.state sleeping then runnable else p.state;
}

-- The list after `kill` has run over it.
abbrev pub Marked : ℕ → List Proc → List Proc → Bool → Type 0
Marked pid ps ps' false = (ps' ≡ ps) × ((j : ℕ) (p : Proc) → get_elem? ps j ≡ some p → p.pid ≢ pid)
Marked pid ps ps' true =
    (i : ℕ) × (p : Proc) × (get_elem? ps i ≡ some p)
    × (p.pid ≡ pid)
    × ((j : ℕ) (q : Proc) → j < i → get_elem? ps j ≡ some q → q.pid ≢ pid)
    × (get_elem? ps' i ≡ some (condemned p))
    × ((j : ℕ) → i ≢ j → get_elem? ps' j ≡ get_elem? ps j)

Marked-cons :
    (pid : ℕ) (p : Proc) (ps ps' : List Proc) (b : Bool)
    → (p.pid == pid) ≡ false
    → Marked pid ps ps' b
    → Marked pid (p ∷ ps) (p ∷ ps') b
Marked-cons pid p ps ps' false other (e, no_one) = (λ i. p ∷ e i, λ j q g. go j q g)
  where
    go : (j : ℕ) (q : Proc) → get_elem? (p ∷ ps) j ≡ some q → q.pid ≢ pid
    go zero q g = ground arith
    go (suc j) q g = no_one j q g
Marked-cons pid p ps ps' true other (i, q, g, e, first, now, rest) =
    (suc i, q, g, e, λ j r l h. before j r l h, now, λ j ne. others j ne)
  where
    before : (j : ℕ) (r : Proc) → j < suc i → get_elem? (p ∷ ps) j ≡ some r → r.pid ≢ pid
    before zero r l h = ground arith
    before (suc j) r l h = first j r (omega arith) h

    others : (j : ℕ) → suc i ≢ j → get_elem? (p ∷ ps') j ≡ get_elem? (p ∷ ps) j
    others zero ne = refl
    others (suc j) ne = rest j (λ h. ne (λ t. suc (h t)))

kill_loop-Marked :
    (pid : ℕ) (ps : List Proc) → Marked pid ps (kill_loop pid ps).0 (kill_loop pid ps).1
unfolding kill_loop
kill_loop-Marked pid [] = (refl, λ j p g. cc)
kill_loop-Marked pid (p ∷ ps) = elim (Bool-cases (p.pid == pid)) [
  | inl e ↦
      rw e (0, p, refl, ground arith, λ j q l g. absurd (omega arith), refl, λ j ne. others j ne)
  | inr e ↦ rw e (Marked-cons pid p ps _ _ e (kill_loop-Marked pid ps))
]
  where
    others : (j : ℕ) → 0 ≢ j → get_elem? (condemned p ∷ ps) j ≡ get_elem? (p ∷ ps) j
    others zero ne = absurd (ne refl)
    others (suc j) ne = refl

-- `kill(pid)`, with the lock free, returns -1 and changes nothing exactly if no slot has the pid.
-- Otherwise it marks the first such process as killed and makes it runnable if it slept, and it
-- changes no other slot.
pub kill_lem :
    {W : Type 0} (pid : ℕ) (k : Kernel W)
    → k.locked ≡ false
    → (k' : Kernel W) × (found : Bool) × (kill pid k ≡ ok (k', found))
      × Marked pid k.procs k'.procs found
unfolding kill
kill_lem pid k unlocked = (
  record k { procs = (kill_loop pid k.procs).0 },
  (kill_loop pid k.procs).1,
  simp unlocked,
  kill_loop-Marked pid k.procs,
)
