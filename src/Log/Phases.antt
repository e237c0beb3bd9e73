-- ===== src/Log/Phases.antt =====
-- The phases of a commit (xv6-public/log.c), each under any number of disk writes left.
use ele.Base.{
  ◌∙◌, ◌≢◌, ℕ, zero, suc, ◌+◌, ◌-◌, ◌≤◌, ◌<◌, ◌≡◌, refl, ◌⊎◌, inl, inr, Bool, true, false, ◌||◌,
  arith, ◌==◌, Bool-cases,
}
use mathlib.Core.Path.{subst}
use ele.Log.{
  Block, Store, bread, bwrite, Log, install_trans_loop, header, write_head, write_log_loop,
  write_log, install_trans,
}

-- Some of the first `n` entries of the header is `b`.
abbrev pub logged : (ℕ → ℕ) → ℕ → ℕ → Bool
logged block zero b = false
logged block (suc n) b = (block n == b) || logged block n b

pub logged-index :
    (block : ℕ → ℕ) (n b : ℕ) → logged block n b ≡ true → (i : ℕ) × (i < n) × (block i ≡ b)
logged-index block zero b h = absurd (ground arith)
logged-index block (suc n) b h = elim (Bool-cases (block n == b)) [
  | inl e ↦ (n, omega arith, ground arith)
  | inr e ↦ let (i, lt, eq) = logged-index block n b (ground arith) in (i, omega arith, eq)
]

pub logged-ne : (block : ℕ → ℕ) (n b i : ℕ) → logged block n b ≡ false → i < n → block i ≡ b → ⊥
logged-ne block zero b i h lt e = absurd (omega arith)
logged-ne block (suc n) b i h lt e = ground (arith, logged-ne block n b i)

-- A block outside the log.
abbrev pub Home : Log → ℕ → Type 0
Home log b = (b < log.start) ⊎ (log.start + log.size ≤ b)

pub record Fits (log : Log) : Type 0 where
  pub room : log.n < log.size
  pub home : (i : ℕ) → i < log.n → Home log (log.block i)

-- During `write_log`, before round `tail`.
pub record Writing (log : Log) (old new : ℕ → Block) (tail : ℕ) (st : Store) : Type 0 where
  pub cached : (b : ℕ) → Home log b → st.cache b ≡ new b
  pub kept : (b : ℕ) → Home log b → st.disk b ≡ old b
  pub head : st.disk log.start 0 ≡ 0
  pub copied : 0 < st.budget → (i : ℕ) → i < tail → st.disk (log.start + i + 1) ≡ new (log.block i)
  pub held : (i : ℕ) → i < tail → st.cache (log.start + i + 1) ≡ new (log.block i)

module _ {log : Log} (fits : Fits log) {old new : ℕ → Block} where
  write_log_round :
      (tail : ℕ) (st : Store)
      → tail < log.n
      → Writing log old new tail st
      → Writing log old new
          (tail + 1)
          (bwrite (log.start + tail + 1) (bread (log.block tail) st) st)
  unfolding bwrite bread
  write_log_round tail st lt w = record {
    cached = λ b h. ground (arith, w.cached b h, fits.room);
    kept = λ b h. ground (arith, w.kept b h, fits.room);
    head = ground (arith, w.head);
    copied = λ p i l.
        ground (arith, w.copied (omega arith) i, w.cached (log.block tail) (fits.home tail lt));
    held = λ i l. ground (arith, w.held i, w.cached (log.block tail) (fits.home tail lt));
  }

  pub write_log-Writing :
      (tail left : ℕ) (st : Store)
      → tail + left ≡ log.n
      → Writing log old new tail st
      → Writing log old new log.n (write_log_loop log tail left st)
  unfolding write_log_loop
  write_log-Writing tail zero st e w =
      let e' : tail ≡ log.n = omega arith in subst (λ k. Writing log old new k st) e' w
  write_log-Writing tail (suc left) st e w =
      write_log-Writing (tail + 1) left _ (omega arith) (write_log_round tail st (omega arith) w)

-- During `install_trans`, before round `tail`: the header is on the disk.
pub record Installing (log : Log) (new : ℕ → Block) (tail : ℕ) (st : Store) : Type 0 where
  pub count : st.disk log.start 0 ≡ log.n
  pub entries : (i : ℕ) → i < log.n → st.disk log.start (suc i) ≡ log.block i
  pub copied : (i : ℕ) → i < log.n → st.disk (log.start + i + 1) ≡ new (log.block i)
  pub held : (i : ℕ) → i < log.n → st.cache (log.start + i + 1) ≡ new (log.block i)
  pub rest : (b : ℕ) → Home log b → logged log.block log.n b ≡ false → st.disk b ≡ new b
  pub done : 0 < st.budget → (i : ℕ) → i < tail → st.disk (log.block i) ≡ new (log.block i)

module _ {log : Log} (fits : Fits log) {new : ℕ → Block} where
  install_round :
      (tail : ℕ) (st : Store)
      → tail < log.n
      → Installing log new tail st
      → Installing log new (tail + 1) (bwrite (log.block tail) (bread (log.start + tail + 1) st) st)
  unfolding bwrite bread
  install_round tail st lt w = record {
    count = ground (arith, w.count, fits.home tail lt, fits.room);
    entries = λ i l. ground (arith, w.entries i l, fits.home tail lt, fits.room);
    copied = λ i l. ground (arith, w.copied i l, fits.home tail lt, fits.room);
    held = λ i l. ground (arith, w.held i l, fits.home tail lt, fits.room);
    rest = λ b h f. ground (arith, w.rest b h f, logged-ne log.block log.n b tail f lt);
    done = λ p i l. ground (arith, w.done (omega arith) i, w.held tail lt);
  }

  pub install_trans-Installing :
      (tail left : ℕ) (st : Store)
      → tail + left ≡ log.n
      → Installing log new tail st
      → Installing log new log.n (install_trans_loop log tail left st)
  unfolding install_trans_loop
  install_trans-Installing tail zero st e w =
      let e' : tail ≡ log.n = omega arith in subst (λ k. Installing log new k st) e' w
  install_trans-Installing tail (suc left) st e w =
      install_trans-Installing (tail + 1) left _ (omega arith)
        (install_round tail st (omega arith) w)

pub write_log_loop-budget :
    (log : Log) (tail left : ℕ) (st : Store)
    → (write_log_loop log tail left st).budget ≡ st.budget - left
unfolding write_log_loop bwrite
write_log_loop-budget log tail zero st = omega arith
write_log_loop-budget log tail (suc left) st = omega (
  arith,
  write_log_loop-budget log (tail + 1) left
      (bwrite (log.start + tail + 1) (bread (log.block tail) st) st),
)

pub install_trans_loop-budget :
    (log : Log) (tail left : ℕ) (st : Store)
    → (install_trans_loop log tail left st).budget ≡ st.budget - left
unfolding install_trans_loop bwrite
install_trans_loop-budget log tail zero st = omega arith
install_trans_loop-budget log tail (suc left) st = omega (
  arith,
  install_trans_loop-budget log (tail + 1) left
      (bwrite (log.block tail) (bread (log.start + tail + 1) st) st),
)

-- Without power nothing more reaches the disk.
pub install_trans_loop-frozen :
    (log : Log) (tail left : ℕ) (st : Store)
    → st.budget ≡ 0
    → (install_trans_loop log tail left st).disk ≡ st.disk
unfolding install_trans_loop bwrite
install_trans_loop-frozen log tail zero st e = refl
install_trans_loop-frozen log tail (suc left) st e =
    install_trans_loop-frozen log (tail + 1) left
      (bwrite (log.block tail) (bread (log.start + tail + 1) st) st) (omega arith)
    ∙ rw e

pub write_head-frozen :
    (log : Log) (st : Store) → st.budget ≡ 0 → (write_head log st).disk ≡ st.disk
unfolding write_head bwrite
write_head-frozen log st e = rw e

pub write_head-start :
    (log : Log) (st : Store)
    → 0 < st.budget
    → (write_head log st).disk log.start ≡ header log (st.cache log.start)
unfolding write_head bwrite bread
write_head-start log st p = ground arith

pub write_head-other :
    (log : Log) (st : Store) (b : ℕ) → log.start ≢ b → (write_head log st).disk b ≡ st.disk b
unfolding write_head bwrite bread
write_head-other log st b ne = ground arith

pub logged-ext :
    (block block' : ℕ → ℕ) (n b : ℕ)
    → ((i : ℕ) → i < n → block i ≡ block' i)
    → logged block n b ≡ logged block' n b
logged-ext block block' zero b h = refl
logged-ext block block' (suc n) b h =
    rw (h n (omega arith), logged-ext block block' n b (λ i l. h i (omega arith)))

pub write_head-budget : (log : Log) (st : Store) → (write_head log st).budget ≡ st.budget - 1
unfolding write_head bwrite
write_head-budget log st = refl

pub write_log-budget : (log : Log) (st : Store) → (write_log log st).budget ≡ st.budget - log.n
unfolding write_log
write_log-budget log st = write_log_loop-budget log 0 log.n st

pub install_trans-budget :
    (log : Log) (st : Store) → (install_trans log st).budget ≡ st.budget - log.n
unfolding install_trans
install_trans-budget log st = install_trans_loop-budget log 0 log.n st

pub logged-zero : (block : ℕ → ℕ) (n b : ℕ) → n ≡ 0 → logged block n b ≡ false
logged-zero block zero b e = refl
logged-zero block (suc n) b e = absurd (omega arith)
