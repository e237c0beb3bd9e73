-- ===== src/Log.antt =====
-- log.c (xv6-public/log.c): the redo log that makes a group of block writes atomic.
-- A block is its sequence of 32-bit words, as log.c reads a header through `struct logheader`.
-- `Store` stands for the disk behind the buffer cache: `bread` yields what the cache holds of a
-- block (a buffer that is valid; a clean one equals the disk), `bwrite` writes through to the disk.
-- `budget` counts the disk writes that still happen before the machine loses power: a write beyond
-- it is lost. The count n of the header is not negative; outstanding and size are the 32-bit patterns
-- of the source's ints, and `int_lt` compares patterns as the source compares ints. A buffer that
-- `bwrite` is given here is one that `bread` has just returned locked, so its check of the lock passes.
pub mod Phases
pub mod Commit
pub mod Atomic
pub mod Reserve
pub mod Absorb
mod Tests
use ele.Base.{
  ℕ, zero, suc, ◌+◌, ◌-◌, ◌*◌, ◌%◌, ◌^◌, ◌≡◌, Bool, true, false, ◌&&◌, ◌||◌, not, Option, none,
  some, ◌==◌, leb, ltb, if◌then◌else◌, update, Result, ok, panic, ◌>>=◌, ◌>>◌, assert,
}

abbrev pub maxopblocks : ℕ
maxopblocks = 10

abbrev pub logsize : ℕ
logsize = maxopblocks * 3

abbrev pub Block : Type 0
Block = ℕ → ℕ

pub record Store : Type 0 where
  pub cache : ℕ → Block
  pub disk : ℕ → Block
  pub dirty : ℕ → Bool
  pub budget : ℕ

unfoldable pub bread : ℕ → Store → Block
bread b st = st.cache b

unfoldable pub bwrite : ℕ → Block → Store → Store
bwrite b v st = record st {
  cache = update st.cache b v;
  disk = if 0 == st.budget then st.disk else update st.disk b v;
  dirty = update st.dirty b false;
  budget = st.budget - 1;
}

-- `struct log`, with its `struct logheader` as the fields `n` and `block`
pub record Log : Type 0 where
  pub start : ℕ
  pub size : ℕ
  pub outstanding : ℕ
  pub committing : Bool
  pub n : ℕ
  pub block : ℕ → ℕ

-- The loop of `install_trans` from `tail`, with `left` rounds to go.
unfoldable pub install_trans_loop : Log → ℕ → ℕ → Store → Store
install_trans_loop log tail zero st = st
install_trans_loop log tail (suc left) st =
    install_trans_loop log (tail + 1) left
      (bwrite (log.block tail) (bread (log.start + tail + 1) st) st)

unfoldable pub install_trans : Log → Store → Store
unfolding install_trans_loop
install_trans log st = install_trans_loop log 0 log.n st

unfoldable pub read_head : Log → Store → Log
read_head log st =
    let lh = bread log.start st in
    record log { n = lh 0; block = λ i. if ltb i (lh 0) then lh (suc i) else log.block i }

-- The header block that `write_head` fills in, over the old contents of its buffer.
unfoldable pub header : Log → Block → Block
header log old zero = log.n
header log old (suc i) = if ltb i log.n then log.block i else old (suc i)

unfoldable pub write_head : Log → Store → Store
unfolding header
write_head log st = bwrite log.start (header log (bread log.start st)) st

unfoldable pub recover_from_log : Log → Store → Log × Store
unfolding read_head install_trans write_head
recover_from_log log st =
    let log1 = read_head log st in
    let st1 = install_trans log1 st in
    let log2 = record log1 { n = 0 } in (log2, write_head log2 st1)

unfoldable pub write_log_loop : Log → ℕ → ℕ → Store → Store
write_log_loop log tail zero st = st
write_log_loop log tail (suc left) st =
    write_log_loop log (tail + 1) left
      (bwrite (log.start + tail + 1) (bread (log.block tail) st) st)

unfoldable pub write_log : Log → Store → Store
unfolding write_log_loop
write_log log st = write_log_loop log 0 log.n st

unfoldable pub commit : Log → Store → Log × Store
unfolding write_log write_head install_trans
commit log st =
    if ltb 0 log.n
    then (let log' = record log { n = 0 } in
        (log', write_head log' (install_trans log (write_head log (write_log log st)))))
    else (log, st)

-- `a < b` of two ints, by their 32-bit patterns
abbrev pub int_lt : ℕ → ℕ → Bool
int_lt a b = ltb ((a + 2 ^ 31) % 2 ^ 32) ((b + 2 ^ 31) % 2 ^ 32)

-- One round of the loop of `begin_op`: `none` is a call of `sleep`, after which it starts over.
unfoldable pub begin_op : Log → Option Log
begin_op log =
    if log.committing
    then none
    else if int_lt logsize ((log.n + (log.outstanding + 1) * maxopblocks) % 2 ^ 32)
    then none
    else some (record log { outstanding = (log.outstanding + 1) % 2 ^ 32 })

-- The part of `end_op` under the lock: the new log, and `do_commit`. (Without a commit it wakes
-- the callers that wait in `begin_op`.)
unfoldable pub end_op_locked : Log → Result (Log × Bool)
end_op_locked log =
    let outstanding = (log.outstanding + 2 ^ 32 - 1) % 2 ^ 32 in
    assert (not log.committing) "log.committing"
    >> (if outstanding == 0
        then ok (record log { outstanding = outstanding; committing = true }, true)
        else ok (record log { outstanding = outstanding }, false))

-- Both parts: the commit runs without the lock, then `committing` is cleared.
unfoldable pub end_op : Log → Store → Result (Log × Store)
unfolding end_op_locked commit
end_op log st = end_op_locked log >>= λ r.
    if r.1
    then (let done = commit (r.0) st in ok (record (done.0) { committing = false }, done.1))
    else ok (r.0, st)

-- The search of `log_write`: the first index from `i` that holds `b`, else `i + left`.
unfoldable pub absorb_index : (ℕ → ℕ) → ℕ → ℕ → ℕ → ℕ
absorb_index block b i zero = i
absorb_index block b i (suc left) =
    let rest = absorb_index block b (i + 1) left in if block i == b then i else rest

unfoldable pub log_write : Log → ℕ → Store → Result (Log × Store)
unfolding absorb_index
log_write log b st =
    let i = absorb_index log.block b 0 log.n in
    assert (int_lt log.n logsize && int_lt log.n ((log.size + 2 ^ 32 - 1) % 2 ^ 32))
      "too big a transaction"
    >> assert (not (int_lt log.outstanding 1)) "log_write outside of trans"
    >> ok (
      record log { block = update log.block i b; n = if i == log.n then log.n + 1 else log.n },
      record st { dirty = update st.dirty b true },
    )

-- `initlog`: what the superblock says of the log, then recovery.
unfoldable pub initlog : ℕ → ℕ → Log → Store → Log × Store
unfolding recover_from_log
initlog logstart nlog log st = recover_from_log (record log { start = logstart; size = nlog }) st
