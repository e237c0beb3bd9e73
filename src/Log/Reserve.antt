-- ===== src/Log/Reserve.antt =====
-- The space that `begin_op` reserves in the log (xv6-public/log.c), over any interleaving of
-- transactions.
use ele.Base.{
  ℕ, zero, suc, ◌+◌, ◌-◌, ◌*◌, ◌%◌, ◌^◌, ◌≤◌, ◌<◌, ◌≡◌, refl, ap, inl, inr, Bool, true, false, some,
  List, [], ◌∷◌, arith, ◌==◌, if◌then◌else◌, update, Bool-cases, ok, length, get_elem?, set, All,
  All-set, All-get, length-set, get_elem?-lt,
}
use ele.Log.{
  Store, Log, logsize, maxopblocks, absorb_index, log_write, int_lt, begin_op, end_op_locked,
  commit,
}

-- The log, and for each operation between `begin_op` and `end_op` the number of calls of
-- `log_write` that it may still make: an operation writes `maxopblocks` blocks at most.
pub record System : Type 0 where
  pub log : Log
  pub store : Store
  pub left : List ℕ

abbrev pub sum : List ℕ → ℕ
sum [] = 0
sum (x ∷ xs) = x + sum xs

abbrev pub remove : List ℕ → ℕ → List ℕ
remove [] i = []
remove (x ∷ xs) zero = xs
remove (x ∷ xs) (suc i) = x ∷ remove xs i

pub data Step (s : System) : System → Type 0 where
  enter :
      {log' : Log}
      → begin_op s.log ≡ some log'
      → Step s (record s { log = log'; left = maxopblocks ∷ s.left })
  write :
      (i b r : ℕ) {log' : Log} {store' : Store}
      → get_elem? s.left i ≡ some (suc r)
      → log_write s.log b s.store ≡ ok (log', store')
      → Step s (record { log = log'; store = store'; left = set s.left i r })
  leave :
      (i : ℕ) {log' : Log} {do_commit : Bool}
      → i < length s.left
      → end_op_locked s.log ≡ ok (log', do_commit)
      → Step s (record s { log = log'; left = remove s.left i })
  -- the part of `end_op` after `commit` clears `committing`
  finish :
      s.log.committing ≡ true
      → Step s (record s {
        log = record ((commit s.log s.store).0) { committing = false };
        store = (commit s.log s.store).1;
      })

-- From an empty log of `size` blocks, with no operation in progress.
pub data Reach (size : ℕ) : System → Type 0 where
  start :
      (s : System)
      → s.log.size ≡ size
      → s.log.n ≡ 0
      → s.log.outstanding ≡ 0
      → s.log.committing ≡ false
      → s.left ≡ []
      → Reach size s
  later : {s t : System} → Reach size s → Step s t → Reach size t

pub record Inv (size : ℕ) (s : System) : Type 0 where
  pub sized : s.log.size ≡ size
  pub counted : s.log.outstanding ≡ length s.left
  pub few : length s.left ≤ 3
  pub each : All (λ r. r ≤ maxopblocks) s.left
  pub fits : s.log.n + sum s.left ≤ logsize
  pub quiet : s.log.committing ≡ true → length s.left ≡ 0

sum-set : (xs : List ℕ) (i r : ℕ) → get_elem? xs i ≡ some (suc r) → sum (set xs i r) + 1 ≡ sum xs
sum-set [] i r h = cc
sum-set (x ∷ xs) zero r h = ground arith
sum-set (x ∷ xs) (suc i) r h = omega (arith, sum-set xs i r h)

sum-remove : (xs : List ℕ) (i : ℕ) → sum (remove xs i) ≤ sum xs
sum-remove [] i = omega arith
sum-remove (x ∷ xs) zero = omega arith
sum-remove (x ∷ xs) (suc i) = omega (arith, sum-remove xs i)

length-remove : (xs : List ℕ) (i : ℕ) → i < length xs → length (remove xs i) + 1 ≡ length xs
length-remove [] i h = absurd (omega arith)
length-remove (x ∷ xs) zero h = omega arith
length-remove (x ∷ xs) (suc i) h = omega (arith, length-remove xs i (omega arith))

sum-length-zero : (xs : List ℕ) → length xs ≡ 0 → sum xs ≡ 0
sum-length-zero [] h = refl
sum-length-zero (x ∷ xs) h = absurd (omega arith)

sum-le : (xs : List ℕ) → All (λ r. r ≤ maxopblocks) xs → sum xs ≤ length xs * maxopblocks
sum-le [] h = omega arith
sum-le (x ∷ xs) h = omega (arith, sum-le xs (h.1))

All-remove :
    (xs : List ℕ) (i : ℕ) → All (λ r. r ≤ maxopblocks) xs → All (λ r. r ≤ maxopblocks) (remove xs i)
All-remove [] i h = h
All-remove (x ∷ xs) zero h = h.1
All-remove (x ∷ xs) (suc i) h = (h.0, All-remove xs i (h.1))

All-nil : (xs : List ℕ) → xs ≡ [] → All (λ r. r ≤ maxopblocks) xs
All-nil [] e = tt
All-nil (x ∷ xs) e = cc

log_write-grows :
    (log : Log) (b : ℕ) (st : Store) {log' : Log} {st' : Store}
    → log_write log b st ≡ ok (log', st')
    → (log'.size ≡ log.size)
      × (log'.outstanding ≡ log.outstanding)
      × (log'.committing ≡ log.committing)
      × (log'.n ≤ log.n + 1)
      × (0 < log.outstanding)
unfolding log_write
log_write-grows log b st h = ground arith

commit-empties :
    (log : Log) (st : Store)
    → ((commit log st).0.n ≡ 0)
      × ((commit log st).0.size ≡ log.size)
      × ((commit log st).0.outstanding ≡ log.outstanding)
unfolding commit
commit-empties log st = ground arith

begin_op-admits :
    (log : Log) {log' : Log}
    → begin_op log ≡ some log'
    → (log.committing ≡ false)
      × (((log.n + (log.outstanding + 1) * maxopblocks) % 2 ^ 32 + 2 ^ 31) % 2 ^ 32
          ≤ logsize + 2 ^ 31)
      × (log'.n ≡ log.n)
      × (log'.size ≡ log.size)
      × (log'.committing ≡ log.committing)
      × (log'.outstanding ≡ (log.outstanding + 1) % 2 ^ 32)
unfolding begin_op
begin_op-admits log {log'} h = ground arith

log_write_ok :
    (log : Log) (b : ℕ) (st : Store)
    → log.n < logsize
    → int_lt logsize log.size ≡ true
    → 0 < log.outstanding
    → log.outstanding < 4
    → (t : Log × Store) × (log_write log b st ≡ ok t)
unfolding log_write
log_write_ok log b st room size trans few =
    let i = absorb_index log.block b 0 log.n in
    (
      (
        record log { block = update log.block i b; n = if i == log.n then log.n + 1 else log.n },
        record st { dirty = update st.dirty b true },
      ),
      ground arith,
    )

end_op_ok : (log : Log) → log.committing ≡ false → (t : Log × Bool) × (end_op_locked log ≡ ok t)
unfolding end_op_locked
end_op_ok log quiet =
    let left = (log.outstanding + 2 ^ 32 - 1) % 2 ^ 32 in
    elim (Bool-cases (left == 0)) [
      | inl e ↦ ((record log { outstanding = left; committing = true }, true), ground arith)
      | inr e ↦ ((record log { outstanding = left }, false), ground arith)
    ]

Step-Inv : (size : ℕ) {s t : System} → Step s t → Inv size s → Inv size t
unfolding end_op_locked
Step-Inv size {s} (enter {log'} e) v =
    let a = begin_op-admits s.log e in
    record {
      sized = omega (arith, v.sized);
      counted = omega (arith, v.counted, v.few);
      few = omega (arith, v.counted, v.few);
      each = (omega arith, v.each);
      fits = omega (arith, v.counted, v.few, sum-le s.left v.each);
      quiet = λ c. absurd (ground arith);
    }
Step-Inv size {s} (write i b r e w) v =
    let g = log_write-grows s.log b s.store w in
    record {
      sized = ground (arith, v.sized);
      counted = ground (arith, length-set s.left i r);
      few = ground (arith, length-set s.left i r);
      each =
          All-set (λ r. r ≤ maxopblocks) s.left i r v.each
            (omega (arith, All-get (λ r. r ≤ maxopblocks) s.left i v.each e));
      fits = omega (arith, sum-set s.left i r e, v.fits, g.3);
      quiet = λ c. ground (arith, length-set s.left i r, get_elem?-lt s.left i e);
    }
Step-Inv size {s} (leave i {log'} {do_commit} lt e) v =
    let fewer = length-remove s.left i lt in
    record {
      sized = ground (arith, v.sized);
      counted = ground (arith, v.counted, v.few, fewer);
      few = ground (arith, v.few, fewer);
      each = All-remove s.left i v.each;
      fits = ground (arith, v.fits, sum-remove s.left i);
      quiet = λ c. ground (arith, v.counted, v.few, fewer, v.quiet);
    }
Step-Inv size {s} (finish c) v =
    let emptied = commit-empties s.log s.store in
    record {
      sized = omega (arith, v.sized);
      counted = omega (arith, v.counted);
      few = v.few;
      each = v.each;
      fits = omega (arith, sum-length-zero s.left (v.quiet c));
      quiet = λ e. cc;
    }

pub Reach-Inv : (size : ℕ) {s : System} → Reach size s → Inv size s
Reach-Inv size (start s a b c d e) = record {
  sized = a;
  counted = ground (arith, ap length e);
  few = ground (arith, ap length e);
  each = All-nil s.left e;
  fits = ground (arith, ap sum e);
  quiet = λ _. ground (arith, ap length e);
}
Reach-Inv size (later r st) = Step-Inv size st (Reach-Inv size r)

-- On a log of more than `logsize` blocks (`size` is an int, and compared as one), in every state that transactions reach whose operations
-- make at most `maxopblocks` calls of `log_write` each: the header has at most `logsize` entries, no
-- such call panics while the operation has calls left, and no `end_op` of an operation in
-- progress panics.
pub Reach-fits :
    (size : ℕ) {s : System}
    → int_lt logsize size ≡ true
    → Reach size s
    → (s.log.n ≤ logsize)
      × ((i b r : ℕ)
          → get_elem? s.left i ≡ some (suc r)
          → (t : Log × Store) × (log_write s.log b s.store ≡ ok t))
      × ((i : ℕ) → i < length s.left → (t : Log × Bool) × (end_op_locked s.log ≡ ok t))
Reach-fits size {s} big r =
    let v = Reach-Inv size r in
    (
      omega (arith, v.fits),
      λ i b k e.
          let more = sum-set s.left i k e in
          let used = get_elem?-lt s.left i e in
          log_write_ok s.log b s.store (omega arith) (ground (arith, v.sized)) (omega arith)
            (omega (arith, v.counted, v.few)),
      λ i lt. end_op_ok s.log (ground (arith, v.quiet)),
    )
