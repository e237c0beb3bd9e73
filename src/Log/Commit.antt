-- ===== src/Log/Commit.antt =====
-- What is on the disk after a commit (xv6-public/log.c) that a loss of power may cut short.
use mathlib.Core.Path.{subst}
use ele.Base.{
  ℕ, suc, ◌+◌, ◌<◌, ◌≡◌, refl, sym, ◌∙◌, ap, ◌⊎◌, inl, inr, false, arith, ◌==◌, ltb, Bool-cases,
}
use ele.Log.{
  Block, Store, bread, bwrite, Log, install_trans_loop, install_trans, header, write_head,
  write_log, commit,
}
use ele.Log.Phases.{
  logged, logged-index, Home, Fits, Writing, write_log-Writing, Installing,
  install_trans-Installing, install_trans_loop-budget, install_trans_loop-frozen, write_head-frozen,
  write_head-start, write_head-other, write_head-budget,
}

-- The disk's header is empty, and the blocks outside the log hold `want`.
pub record Clean (log : Log) (want : ℕ → Block) (d : ℕ → Block) : Type 0 where
  pub head : d log.start 0 ≡ 0
  pub home : (b : ℕ) → Home log b → d b ≡ want b

-- The disk's header is that of `log`, and the log's blocks are on the disk.
pub record Pending (log : Log) (new : ℕ → Block) (d : ℕ → Block) : Type 0 where
  pub count : d log.start 0 ≡ log.n
  pub entries : (i : ℕ) → i < log.n → d log.start (suc i) ≡ log.block i
  pub copied : (i : ℕ) → i < log.n → d (log.start + i + 1) ≡ new (log.block i)
  pub rest : (b : ℕ) → Home log b → logged log.block log.n b ≡ false → d b ≡ new b

-- What is found on the disk after a commit, complete or not.
pub data Outcome (log : Log) (old new d : ℕ → Block) : Type 0 where
  before : Clean log old d → Outcome log old new d
  between : Pending log new d → Outcome log old new d
  after : Clean log new d → Outcome log old new d

module _ {log : Log} {new : ℕ → Block} where
  pub Installing-Pending :
      {tail : ℕ} {st : Store} → Installing log new tail st → Pending log new st.disk
  Installing-Pending w = record {
    count = w.count;
    entries = w.entries;
    copied = w.copied;
    rest = w.rest;
  }

  pub installed-same :
      {st : Store}
      → Installing log new log.n st
      → 0 < st.budget
      → (b : ℕ) → Home log b
      → st.disk b ≡ new b
  installed-same {st} w p b h = elim (Bool-cases (logged log.block log.n b)) [
    | inl e ↦
        let (i, lt, eq) = logged-index log.block log.n b e in
        subst (λ k. st.disk k ≡ new k) eq (w.done p i lt)
    | inr e ↦ w.rest b h e
  ]

  -- The header is cleared last. (`log'` is `log` with no entry.)
  pub clear-Outcome :
      (log' : Log) (st : Store)
      → log'.start ≡ log.start
      → log'.n ≡ 0
      → 0 < log.size
      → Installing log new log.n st
      → (Pending log new (write_head log' st).disk × (st.budget ≡ 0))
        ⊎ (Clean log new (write_head log' st).disk × (0 < st.budget))
  unfolding header
  clear-Outcome log' st es en size w = elim (Bool-cases (0 == st.budget)) [
    | inl none_left ↦ inl (
      subst (Pending log new) (sym (write_head-frozen log' st (ground arith)))
          (Installing-Pending w),
      ground arith,
    )
    | inr some_left ↦ inr (
      record {
        head = ground (arith, ap (λ (v : Block). v 0) (write_head-start log' st (ground arith)));
        home =
            λ b h. write_head-other log' st b (ground arith) ∙ installed-same w (ground arith) b h;
      },
      ground arith,
    )
  ]

-- `commit` under any number of disk writes.
module _ (log : Log) (st : Store) (fits : Fits log) (empty : st.disk log.start 0 ≡ 0)
    (coherent : (b : ℕ)
      → Home log b
      → logged log.block log.n b ≡ false
      → st.cache b ≡ st.disk b) where
  abbrev pub written : Store
  written = write_log log st

  pub written-Writing : Writing log st.disk st.cache log.n written
  unfolding write_log
  written-Writing = write_log-Writing fits 0 log.n st (omega arith) (record {
    cached = λ b h. refl;
    kept = λ b h. refl;
    head = empty;
    copied = λ p i l. absurd (omega arith);
    held = λ i l. absurd (omega arith);
  })

  pub headed-Installing : 0 < written.budget → Installing log st.cache 0 (write_head log written)
  unfolding header write_head bwrite bread
  headed-Installing p = record {
    count = ground arith;
    entries = λ i l. ground arith;
    copied = λ i l. ground (arith, w.copied p i l);
    held = λ i l. ground (arith, w.held i l);
    rest = λ b h f. ground (arith, w.kept b h, coherent b h f, fits.room);
    done = λ q i l. absurd (omega arith);
  }
    where
      w : Writing log st.disk st.cache log.n written
      w = written-Writing

  abbrev pub headed : Store
  headed = write_head log written

  -- With the power gone during `write_log`, the rest of the commit changes nothing.
  pub frozen-disk :
      (log' : Log)
      → written.budget ≡ 0
      → (write_head log' (install_trans log headed)).disk ≡ written.disk
  unfolding install_trans
  frozen-disk log' e =
      let f : headed.budget ≡ 0 = headed-budget in
      write_head-frozen log' (install_trans_loop log 0 log.n headed)
        (omega (arith, install_trans_loop-budget log 0 log.n headed))
      ∙ install_trans_loop-frozen log 0 log.n headed f
      ∙ write_head-frozen log written e
    where
      headed-budget : headed.budget ≡ 0
      headed-budget = omega (arith, write_head-budget log written)

  pub installed-Installing :
      0 < written.budget → Installing log st.cache log.n (install_trans log headed)
  unfolding install_trans
  installed-Installing p =
      install_trans-Installing fits 0 log.n headed (omega arith) (headed-Installing p)

  pub commit-some :
      (log' : Log)
      → log'.start ≡ log.start
      → log'.n ≡ 0
      → Outcome log st.disk st.cache (write_head log' (install_trans log headed)).disk
  commit-some log' es en = elim (Bool-cases (0 == written.budget)) [
    | inl gone ↦
        subst (Outcome log st.disk st.cache) (sym (frozen-disk log' (ground arith)))
          (before (record { head = written-Writing.head; home = written-Writing.kept }))
    | inr power ↦
        elim (clear-Outcome log' (install_trans log headed) es en (omega (arith, fits.room))
          (installed-Installing (ground arith))) [ inl (p, _) ↦ between p | inr (c, _) ↦ after c ]
  ]

  -- However many of its disk writes happen, a commit leaves the old blocks, or the new ones, or a
  -- complete log of the new ones.
  pub commit-Outcome : Outcome log st.disk st.cache (commit log st).1.disk
  unfolding commit
  commit-Outcome = elim (Bool-cases (ltb 0 log.n)) [
    | inl some_block ↦ rw some_block (commit-some (record log { n = 0 }) refl refl)
    | inr no_block ↦ rw no_block (before (record { head = empty; home = λ b h. refl }))
  ]
