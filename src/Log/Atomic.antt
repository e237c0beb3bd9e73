-- ===== src/Log/Atomic.antt =====
-- A commit (xv6-public/log.c) is all or nothing across losses of power.
use mathlib.Core.Path.{subst}
use ele.Base.{
  ℕ, suc, ◌+◌, ◌-◌, ◌*◌, ◌≤◌, ◌<◌, ◌≡◌, refl, sym, ◌∙◌, ap, ◌⊎◌, inl, inr, false, arith, ◌==◌, ltb,
  if◌then◌else◌, Bool-cases,
}
use ele.Log.{
  Block, Store, bread, Log, install_trans_loop, install_trans, read_head, header, write_head,
  recover_from_log, initlog, write_log, commit,
}
use ele.Log.Phases.{
  logged, Home, Fits, Installing, install_trans-Installing, install_trans_loop-budget,
  write_head-frozen, write_head-start, write_head-other, logged-ext, write_head-budget, logged-zero,
  write_log-budget, install_trans-budget,
}
use ele.Log.Commit.{
  Clean, Pending, Outcome, before, between, after, clear-Outcome, installed-Installing,
  commit-Outcome, headed,
}

-- A store after the machine starts again, with `budget` disk writes before it stops again.
abbrev pub reboot : (ℕ → Block) → ℕ → Store
reboot d budget = record { cache = d; disk = d; dirty = λ _. false; budget = budget }

-- The disk after `initlog` on it, with at most `budget` writes.
abbrev pub recovered : Log → Log → ℕ → (ℕ → Block) → ℕ → Block
recovered log blank budget d = (initlog log.start log.size blank (reboot d budget)).1.disk

module _ (log blank : Log) where
  -- What `read_head` makes of disk `d`.
  abbrev booted : (ℕ → Block) → Log
  booted d = record blank {
    start = log.start;
    size = log.size;
    n = d log.start 0;
    block = λ i. if ltb i (d log.start 0) then d log.start (suc i) else blank.block i;
  }

  booted-logged :
      {new d : ℕ → Block}
      → Pending log new d
      → (b : ℕ) → logged (booted d).block (booted d).n b ≡ logged log.block log.n b
  booted-logged {d} p b =
      rw p.count (logged-ext _ log.block log.n b (λ i l. ground (arith, p.count, p.entries i l)))

  booted-Pending : {new d : ℕ → Block} → Pending log new d → Pending (booted d) new d
  booted-Pending {d} p = record {
    count = refl;
    entries = λ i l. ground arith;
    copied = λ i l. ground (arith, p.count, p.entries i, p.copied i);
    rest = λ b h f. p.rest b h (sym (booted-logged p b) ∙ f);
  }

  booted-Fits : {new d : ℕ → Block} → Fits log → Pending log new d → Fits (booted d)
  booted-Fits fits p = record {
    room = omega (arith, fits.room, p.count);
    home = λ i l. ground (arith, p.count, p.entries i, fits.home i);
  }

  booted-Installing :
      {new d : ℕ → Block} (budget : ℕ)
      → Pending log new d
      → Installing (booted d) new 0 (reboot d budget)
  booted-Installing {d} budget p =
      let q = booted-Pending p in
      record {
        count = refl;
        entries = q.entries;
        copied = q.copied;
        held = q.copied;
        rest = q.rest;
        done = λ _ i l. absurd (omega arith);
      }

  Pending-back :
      {new d d' : ℕ → Block} → Pending log new d → Pending (booted d) new d' → Pending log new d'
  Pending-back p q = record {
    count = q.count ∙ p.count;
    entries = λ i l. ground (arith, p.count, p.entries i, q.entries i);
    copied = λ i l. ground (arith, p.count, p.entries i, q.copied i);
    rest = λ b h f. q.rest b h (booted-logged p b ∙ f);
  }

  recovered-Pending :
      {new d : ℕ → Block} (budget : ℕ)
      → Fits log
      → Pending log new d
      → (Pending log new (recovered log blank budget d) × (budget ≤ log.n))
        ⊎ (Clean log new (recovered log blank budget d) × (0 < budget))
  unfolding initlog recover_from_log read_head bread install_trans
  recovered-Pending {new} {d} budget fits p =
      let st = install_trans_loop (booted d) 0 (d log.start 0) (reboot d budget) in
      let left = install_trans_loop-budget (booted d) 0 (d log.start 0) (reboot d budget) in
      elim (clear-Outcome (record (booted d) { n = 0 }) st refl refl (omega (arith, fits.room))
        (install_trans-Installing (booted-Fits fits p) 0 (d log.start 0) (reboot d budget)
          (omega arith) (booted-Installing budget p))) [
            | inl (q, e) ↦ inl (Pending-back p q, omega (arith, p.count))
            | inr (c, e) ↦ inr (record { head = c.head; home = c.home }, omega arith)
          ]

  recovered-Clean :
      {want d : ℕ → Block} (budget : ℕ)
      → 0 < log.size
      → Clean log want d
      → Clean log want (recovered log blank budget d)
  unfolding initlog recover_from_log read_head bread install_trans header
  recovered-Clean {want} {d} budget size c =
      subst (λ st. Clean log want (write_head log2 st).disk) (sym idle)
        (elim (Bool-cases (0 == budget)) [
          | inl gone ↦ subst (Clean log want) (sym (write_head-frozen log2 st0 (ground arith))) c
          | inr power ↦ record {
            head =
                ground (arith, ap (λ (v : Block). v 0) (write_head-start log2 st0 (ground arith)));
            home = λ b h. write_head-other log2 st0 b (ground arith) ∙ c.home b h;
          }
        ])
    where
      st0 : Store
      st0 = reboot d budget

      log2 : Log
      log2 = record (booted d) { n = 0 }

      idle : install_trans_loop (booted d) 0 (d log.start 0) st0 ≡ st0
      idle = ap (λ k. install_trans_loop (booted d) 0 k st0) c.head

  -- Recovery may itself be cut short: the outcome stays what it was, or becomes complete.
  recovered-Outcome :
      {old new d : ℕ → Block} (budget : ℕ)
      → Fits log
      → Outcome log old new d
      → Outcome log old new (recovered log blank budget d)
  recovered-Outcome budget fits (before c) =
      before (recovered-Clean budget (omega (arith, fits.room)) c)
  recovered-Outcome budget fits (between p) = elim (recovered-Pending budget fits p) [
    | inl (q, _) ↦ between q
    | inr (c, _) ↦ after c
  ]
  recovered-Outcome budget fits (after c) =
      after (recovered-Clean budget (omega (arith, fits.room)) c)

  recovered-all :
      {old new d : ℕ → Block} (budget : ℕ)
      → Fits log
      → log.n < budget
      → Outcome log old new d
      → (Clean log old (recovered log blank budget d))
        ⊎ (Clean log new (recovered log blank budget d))
  recovered-all budget fits lt (before c) =
      inl (recovered-Clean budget (omega (arith, fits.room)) c)
  recovered-all budget fits lt (between p) = elim (recovered-Pending budget fits p) [
    | inl (q, le) ↦ absurd (omega arith)
    | inr (c, _) ↦ inr c
  ]
  recovered-all budget fits lt (after c) = inr (recovered-Clean budget (omega (arith, fits.room)) c)

-- A commit is atomic. Suppose that the header's blocks lie outside the log and fit it, that the
-- header on disk is empty, and that every other block outside the log is the same in the cache and
-- on disk. Let the power fail after any number of the commit's disk writes (those that `st.budget`
-- allows), and again after any number `cut` of the writes of the recovery that follows. Once a
-- recovery has the power for n + 1 writes, the disk's header is empty and either every block outside
-- the log is as it was before the commit, or every one is as the cache had it.
pub commit_atomic :
    (log blank : Log) (st : Store) (cut full : ℕ)
    → Fits log
    → st.disk log.start 0 ≡ 0
    → ((b : ℕ) → Home log b → logged log.block log.n b ≡ false → st.cache b ≡ st.disk b)
    → log.n < full
    → Clean log st.disk (recovered log blank full (recovered log blank cut (commit log st).1.disk))
      ⊎ Clean log st.cache
          (recovered log blank full (recovered log blank cut (commit log st).1.disk))
commit_atomic log blank st cut full fits empty coherent lt =
    recovered-all log blank full fits lt
      (recovered-Outcome log blank cut fits (commit-Outcome log st fits empty coherent))

-- Suppose that the header's blocks lie outside the log and fit it, that the header on disk is
-- empty, and that every block outside the log that is not in the header is the same in the cache
-- and on disk. A commit that has the power for its 2 * n + 2 disk writes then leaves an empty
-- header, in memory too, and every block outside the log on disk as the cache had it.
pub commit_complete :
    (log : Log) (st : Store)
    → Fits log
    → st.disk log.start 0 ≡ 0
    → ((b : ℕ) → Home log b → logged log.block log.n b ≡ false → st.cache b ≡ st.disk b)
    → 2 * log.n + 1 < st.budget
    → ((commit log st).0.n ≡ 0) × Clean log st.cache (commit log st).1.disk
unfolding commit
commit_complete log st fits empty coherent power = elim (Bool-cases (ltb 0 log.n)) [
  | inl some_block ↦ rw some_block (
    refl,
    elim (clear-Outcome (record log { n = 0 })
        (install_trans log (headed log st fits empty coherent)) refl refl (omega (arith, fits.room))
        (installed-Installing log st fits empty coherent (omega (arith, spent)))) [
          | inl (_, e) ↦
              absurd (omega (arith, spent, spent2, write_head-budget log (write_log log st)))
          | inr (c, _) ↦ c
        ],
  )
  | inr no_block ↦ rw no_block (
    ground arith,
    record {
      head = empty;
      home = λ b h. sym (coherent b h (logged-zero log.block log.n b (ground arith)));
    },
  )
]
  where
    spent : (write_log log st).budget ≡ st.budget - log.n
    spent = write_log-budget log st

    spent2 :
        (install_trans log (write_head log (write_log log st))).budget
        ≡ (write_head log (write_log log st)).budget - log.n
    spent2 = install_trans-budget log (write_head log (write_log log st))
