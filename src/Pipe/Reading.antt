-- ===== src/Pipe/Reading.antt =====
-- What `piperead` (xv6-public/pipe.c) takes from the pipe.
use ele.Base.{
  ℕ, zero, suc, ◌%◌, ◌<◌, ◌≡◌, refl, ◌∙◌, ap, ◌≢◌, Bool, true, false, List, [], ◌∷◌, ◌++◌, arith,
  length, Bool-cases, inl, inr, ◌⊎◌,
}
use ele.Pipe.{Pipe, pipesize, is_empty, Read, got, interrupted, empty, read_loop, piperead}
use ele.Pipe.Queue.{contents, IsPipe, advance, contents-advance, advance-IsPipe, contents-empty}

-- The bytes `bytes` have left the pipe: `n` of them, or all that waited.
abbrev pub Taken : ℕ → Pipe → Pipe → List ℕ → Type 0
Taken n p p' bytes =
    (contents p ≡ bytes ++ contents p')
    × IsPipe p'
    × ((length bytes ≡ n) ⊎ ((length bytes < n) × (contents p' ≡ [])))

Taken-advance :
    (n : ℕ) (p p' : Pipe) (bytes : List ℕ)
    → contents p ≡ p.cells (p.nread % pipesize) ∷ contents (advance p)
    → Taken n (advance p) p' bytes
    → Taken (suc n) p p' (p.cells (p.nread % pipesize) ∷ bytes)
Taken-advance n p p' bytes e (c, v, inl l) =
    (e ∙ ap (λ l. p.cells (p.nread % pipesize) ∷ l) c, v, inl (omega arith))
Taken-advance n p p' bytes e (c, v, inr (l, z)) =
    (e ∙ ap (λ l. p.cells (p.nread % pipesize) ∷ l) c, v, inr (omega arith, z))

read_loop-Taken : (n : ℕ) (p : Pipe) → IsPipe p → Taken n p (read_loop n p).0 (read_loop n p).1
unfolding read_loop
read_loop-Taken zero p v = (refl, v, inl refl)
read_loop-Taken (suc n) p v = elim (Bool-cases (is_empty p)) [
  | inl e ↦ rw e (refl, v, inr (omega arith, contents-empty p v (ground arith)))
  | inr e ↦ rw e (
      Taken-advance n p _ _ (contents-advance p v (ground arith))
        (read_loop-Taken n (advance p) (advance-IsPipe p v (ground arith))))
]

-- The outcomes of `piperead`.
abbrev pub Reads : Bool → ℕ → Pipe → Pipe → Read → Type 0
Reads killed n p p' (got bytes) = Taken n p p' bytes × ((contents p ≢ []) ⊎ (p.writeopen ≡ false))
Reads killed n p p' interrupted =
    (p' ≡ p) × (contents p ≡ []) × (p.writeopen ≡ true) × (killed ≡ true)
Reads killed n p p' empty = (p' ≡ p) × (contents p ≡ []) × (p.writeopen ≡ true) × (killed ≡ false)

-- `piperead` of n bytes takes the first bytes that wait in the pipe, in order: n of them, or all
-- if there are fewer. It waits, or returns -1 when the process was killed, exactly while the pipe is
-- empty and the writer open; so it returns no byte, of n > 0, only when the writer is closed.
pub piperead_lem :
    (killed : Bool) (n : ℕ) (p : Pipe)
    → IsPipe p
    → Reads killed n p (piperead killed n p).0 (piperead killed n p).1
unfolding piperead
piperead_lem killed n p v = elim (Bool-cases (is_empty p)) [
  | inr e ↦ rw e (read_loop-Taken n p v, inl (λ z. cc (contents-advance p v (ground arith))))
  | inl e ↦ elim (Bool-cases p.writeopen) [
    | inr shut ↦ simp (e, shut) (read_loop-Taken n p v, inr refl)
    | inl open_ ↦ elim (Bool-cases killed) [
      | inl k ↦ simp (e, open_, k) (refl, contents-empty p v (ground arith), refl, refl)
      | inr k ↦ simp (e, open_, k) (refl, contents-empty p v (ground arith), refl, refl)
    ]
  ]
]
