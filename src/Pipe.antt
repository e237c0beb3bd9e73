-- ===== src/Pipe.antt =====
-- pipe.c (xv6-public/pipe.c): a ring of PIPESIZE bytes between a writer and a reader. The counters
-- nread and nwrite are uints and run freely modulo 2 ^ 32. A call that sleeps returns what is left
-- to do; it goes on with that when it is woken. `killed` is `myproc()->killed`.
pub mod Queue
pub mod Writing
pub mod Reading
mod Tests
use ele.Base.{
  ℕ, zero, suc, ◌+◌, ◌-◌, ◌%◌, ◌^◌, Bool, true, false, ◌&&◌, ◌||◌, not, List, [], ◌∷◌, ◌==◌,
  if◌then◌else◌, update,
}

abbrev pub pipesize : ℕ
pipesize = 512

pub record Pipe : Type 0 where
  pub cells : ℕ → ℕ
  pub nread : ℕ
  pub nwrite : ℕ
  pub readopen : Bool
  pub writeopen : Bool

-- `pipealloc`: the pipe that it sets up in a page.
abbrev pub new_pipe : (ℕ → ℕ) → Pipe
new_pipe page = record { cells = page; nread = 0; nwrite = 0; readopen = true; writeopen = true }

-- The new pipe, and whether `pipeclose` frees its page.
unfoldable pub pipeclose : Pipe → Bool → Pipe × Bool
pipeclose p writable =
    let p' = (if writable then record p { writeopen = false } else record p { readopen = false }) in
    (p', not p'.readopen && not p'.writeopen)

pub data Written : Type 0 where
  wrote : Written
  broken : Written
  full : List ℕ → Written

abbrev pub is_full : Pipe → Bool
is_full p = p.nwrite == (p.nread + pipesize) % 2 ^ 32

-- `p->data[p->nwrite++ % PIPESIZE] = b`
abbrev pub push : ℕ → Pipe → Pipe
push b p = record p {
  cells = update p.cells (p.nwrite % pipesize) b;
  nwrite = (p.nwrite + 1) % 2 ^ 32;
}

-- `pipewrite` of the bytes that are left, until it returns or sleeps.
unfoldable pub pipewrite : Bool → List ℕ → Pipe → Pipe × Written
pipewrite killed [] p = (p, wrote)
pipewrite killed (b ∷ bs) p =
    let rest = pipewrite killed bs (push b p) in
    if is_full p then (p, if not p.readopen || killed then broken else full (b ∷ bs)) else rest

pub data Read : Type 0 where
  got : List ℕ → Read
  interrupted : Read
  empty : Read

abbrev pub is_empty : Pipe → Bool
is_empty p = p.nread == p.nwrite

-- The copy loop of `piperead`, for `n` more bytes.
unfoldable pub read_loop : ℕ → Pipe → Pipe × List ℕ
read_loop zero p = (p, [])
read_loop (suc n) p =
    let (p', bytes) = read_loop n (record p { nread = (p.nread + 1) % 2 ^ 32 }) in
    if is_empty p then (p, []) else (p', p.cells (p.nread % pipesize) ∷ bytes)

-- `piperead` of `n` bytes, until it returns or sleeps.
unfoldable pub piperead : Bool → ℕ → Pipe → Pipe × Read
unfolding read_loop
piperead killed n p =
    if is_empty p && p.writeopen
    then (p, if killed then interrupted else empty)
    else (let (p', bytes) = read_loop n p in (p', got bytes))
