-- ===== src/Log/Absorb.antt =====
-- `log_write` (xv6-public/log.c): a block is entered in the header once.
use ele.Base.{
  ℕ, zero, suc, ◌+◌, ◌^◌, ◌≤◌, ◌<◌, ◌≡◌, refl, ◌≢◌, ◌⊎◌, inl, inr, true, arith, ◌==◌, if◌then◌else◌,
  update, Bool-cases, ok,
}
use ele.Log.{Store, Log, logsize, absorb_index, log_write}

-- The search ends at `b`, or behind entries that are all other blocks.
pub absorb_index_lem :
    (block : ℕ → ℕ) (b i left : ℕ)
    → (i ≤ absorb_index block b i left)
      × (absorb_index block b i left ≤ i + left)
      × ((j : ℕ) → i ≤ j → j < absorb_index block b i left → block j ≢ b)
      × ((absorb_index block b i left ≡ i + left) ⊎ (block (absorb_index block b i left) ≡ b))
unfolding absorb_index
absorb_index_lem block b i zero =
    (omega arith, omega arith, λ j l m. absurd (omega arith), inl (omega arith))
absorb_index_lem block b i (suc left) =
    let (lo, hi, others, hit) = absorb_index_lem block b (i + 1) left in
    elim (Bool-cases (block i == b)) [
      | inl e ↦ rw e (omega arith, omega arith, λ j l m. absurd (omega arith), inr (ground arith))
      | inr e ↦ rw e (omega arith, omega arith, λ j l m. ground (arith, others j), ground arith)
    ]

-- The entries of the header are different blocks.
abbrev pub IsDistinct : Log → Type 0
IsDistinct log = (i j : ℕ) → i < log.n → j < log.n → log.block i ≡ log.block j → i ≡ j

-- Inside a transaction (`outstanding` is a positive int), with different blocks in the header,
-- fewer than LOGSIZE and fewer than `size - 1` of them (`size` is a positive int): `log_write(b)`
-- succeeds. It leaves different blocks in the header: those that were there, at their places, and
-- `b`; the header grows by one entry exactly if `b` was not among them. The buffer of `b` is marked
-- dirty, and no other.
pub log_write_lem :
    (log : Log) (b : ℕ) (st : Store)
    → IsDistinct log
    → log.n < logsize
    → log.n + 1 < log.size
    → log.size < 2 ^ 31
    → 0 < log.outstanding
    → log.outstanding < 2 ^ 31
    → (log' : Log) × (st' : Store) × (log_write log b st ≡ ok (log', st'))
      × IsDistinct log'
      × ((i : ℕ) → i < log.n → log'.block i ≡ log.block i)
      × ((i : ℕ) × (i < log'.n) × (log'.block i ≡ b))
      × (((log'.n ≡ log.n) × ((i : ℕ) × (i < log.n) × (log.block i ≡ b)))
          ⊎ ((log'.n ≡ log.n + 1) × ((i : ℕ) → i < log.n → log.block i ≢ b)))
      × ((c : ℕ) → st'.dirty c ≡ (if b == c then true else st.dirty c))
unfolding log_write
log_write_lem log b st distinct room size sized trans counted =
    let i = absorb_index log.block b 0 log.n in
    let (lo, hi, others, hit) = absorb_index_lem log.block b 0 log.n in
    (
      record log { block = update log.block i b; n = if i == log.n then log.n + 1 else log.n },
      record st { dirty = update st.dirty b true },
      ground arith,
      λ j k lj lk e. ground (arith, others j, others k, distinct j k),
      λ j lj. ground (arith, others j),
      (i, ground arith, ground arith),
      elim (Bool-cases (i == log.n)) [
        | inl e ↦ rw e (inr (refl, λ j lj. others j (omega arith) (ground arith)))
        | inr e ↦ rw e (inl (refl, (i, ground arith, ground arith)))
      ],
      λ c. refl,
    )
