-- ===== src/Log/Tests.antt =====
-- Runs of log.c (xv6-public/log.c) on a small log, and its theorems at them.
use ele.Base.{
  ℕ, zero, suc, ◌+◌, ◌≤◌, ◌<◌, ◌≡◌, refl, ◌≢◌, ◌⊎◌, inr, Bool, true, false, Option, none, some, [],
  ◌∷◌, arith, ◌==◌, if◌then◌else◌, update, ok, panic, Result, get_elem?,
}
use ele.Log.{Block, Store, Log, logsize, log_write, begin_op, end_op_locked, commit}
use ele.Log.Phases.{Fits}
use ele.Log.Commit.{Clean}
use ele.Log.Atomic.{recovered, commit_atomic, commit_complete}
use ele.Log.Absorb.{log_write_lem, IsDistinct}
use ele.Log.Reserve.{System, Reach, start, later, enter, write, Reach-fits}

abbrev blank : Log
blank = record { start = 0; size = 0; outstanding = 0; committing = false; n = 0; block = λ _. 0 }

-- One block, number 40, is in the header; the cache has new contents for it.
abbrev one_entry : Log
one_entry = record blank { start = 2; size = 30; outstanding = 1; n = 1; block = λ _. 40 }

abbrev zeros : ℕ → Block
zeros _ _ = 0

abbrev modified : Store
modified = record {
  cache = update zeros 40 (λ _. 7);
  disk = zeros;
  dirty = λ b. b == 40;
  budget = 4;
}

one_entry-Fits : Fits one_entry
one_entry-Fits = record { room = omega arith; home = λ i l. inr (omega arith) }

commit_atomic_example :
    Clean one_entry zeros
      (recovered one_entry blank 2 (recovered one_entry blank 1 (commit one_entry modified).1.disk))
    ⊎ Clean one_entry modified.cache (
        recovered one_entry blank 2
          (recovered one_entry blank 1 (commit one_entry modified).1.disk))
commit_atomic_example =
    commit_atomic one_entry blank modified 1 2 one_entry-Fits refl (λ b h e. ground arith)
      (omega arith)

commit_complete_example :
    ((commit one_entry modified).0.n ≡ 0)
    × Clean one_entry modified.cache (commit one_entry modified).1.disk
commit_complete_example =
    commit_complete one_entry modified one_entry-Fits refl (λ b h e. ground arith) (omega arith)

log_write_lem_example :
    (log' : Log) × (st' : Store) × (log_write one_entry 41 modified ≡ ok (log', st'))
    × IsDistinct log'
    × ((i : ℕ) → i < 1 → log'.block i ≡ 40)
    × ((i : ℕ) × (i < log'.n) × (log'.block i ≡ 41))
    × (((log'.n ≡ 1) × ((i : ℕ) × (i < 1) × (one_entry.block i ≡ 41)))
        ⊎ ((log'.n ≡ 2) × ((i : ℕ) → i < 1 → one_entry.block i ≢ 41)))
    × ((c : ℕ) → st'.dirty c ≡ (if 41 == c then true else modified.dirty c))
log_write_lem_example =
    log_write_lem one_entry 41 modified (λ i j li lj e. omega arith) (omega arith) (omega arith)
      (omega arith) (omega arith) (omega arith)

abbrev idle : ℕ → System
idle size = record { log = record blank { size = size }; store = modified; left = [] }

abbrev entered : ℕ → System
entered size = record (idle size) {
  log = record blank { size = size; outstanding = 1 };
  left = 10 ∷ [];
}

entered-Reach : (size : ℕ) → Reach size (entered size)
unfolding begin_op
entered-Reach size = later (start (idle size) refl refl refl refl refl) (enter refl)

Reach-fits_example :
    (0 ≤ logsize)
    × ((i b r : ℕ)
        → get_elem? {A = ℕ} (10 ∷ []) i ≡ some (suc r)
        → (t : Log × Store) × (log_write (entered 31).log b modified ≡ ok t))
    × ((i : ℕ) → i < 1 → (t : Log × Bool) × (end_op_locked (entered 31).log ≡ ok t))
Reach-fits_example = Reach-fits 31 refl (entered-Reach 31)

record Run (size : ℕ) : Type 0 where
  last : System
  reach : Reach size last

-- Operation `i` writes block `b`, if it may.
attempt : {size : ℕ} → ℕ → ℕ → Run size → Run size
attempt {size} i b run =
    go (get_elem? run.last.left i) refl (log_write run.last.log b run.last.store) refl
  where
    go :
        (o : Option ℕ)
        → get_elem? run.last.left i ≡ o
        → (w : Result (Log × Store)) → log_write run.last.log b run.last.store ≡ w
        → Run size
    go (some (suc r)) e (ok (log', store')) w = record {
      last = _;
      reach = later run.reach (write i b r e w);
    }
    go _ e _ w = run

attempts : {size : ℕ} → ℕ → ℕ → ℕ → Run size → Run size
unfolding attempt
attempts i b zero run = run
attempts i b (suc k) run = attempts i (b + 1) k (attempt i b run)

admit : {size : ℕ} → Run size → Run size
admit {size} run = go (begin_op run.last.log) refl
  where
    go : (o : Option Log) → begin_op run.last.log ≡ o → Run size
    go (some log') e = record { last = _; reach = later run.reach (enter e) }
    go none e = run

-- Three operations are admitted, two write ten blocks each and the third nine.
crowded : (size : ℕ) → Run size
unfolding admit attempts begin_op
crowded size = attempts 0 120 9 (
    attempts 1 110 10 (
      attempts 2 100 10 (
        admit (
          admit (
            admit
              (record { last = idle size; reach = start (idle size) refl refl refl refl refl }))))))

-- On the log that mkfs makes (`nlog = LOGSIZE`), the third operation may write one more block,
-- and its `log_write` panics.
log_write_too_big :
    (get_elem? (crowded logsize).last.left 0 ≡ some 1)
    × (log_write (crowded logsize).last.log 129 (crowded logsize).last.store
        ≡ panic "too big a transaction")
unfolding crowded log_write
log_write_too_big = (refl, refl)
