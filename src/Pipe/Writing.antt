-- ===== src/Pipe/Writing.antt =====
-- What `pipewrite` (xv6-public/pipe.c) puts into the pipe.
use ele.Base.{
  ℕ, ◌<◌, ◌≡◌, refl, sym, ◌∙◌, ap, ◌≢◌, Bool, true, false, ◌||◌, not, List, [], ◌∷◌, ◌++◌, arith,
  if◌then◌else◌, length, Bool-cases, inl, inr, ◌⊎◌,
}
use mathlib.Core.List.{append_assoc, append-nil}
use ele.Pipe.{Pipe, pipesize, push, is_full, Written, wrote, broken, full, pipewrite}
use ele.Pipe.Queue.{count, contents, length-contents, IsPipe, contents-push, push-IsPipe}

-- The bytes that are not in the pipe, by how the call stopped.
abbrev pub Stopped : Bool → Pipe → List ℕ → Written → Type 0
Stopped killed p rest wrote = rest ≡ []
Stopped killed p rest broken =
    (rest ≢ []) × (length (contents p) ≡ pipesize) × ((p.readopen ≡ false) ⊎ (killed ≡ true))
Stopped killed p rest (full bytes) =
    (rest ≢ [])
    × (bytes ≡ rest)
    × (length (contents p) ≡ pipesize)
    × (p.readopen ≡ true)
    × (killed ≡ false)

abbrev pub Writes : Bool → List ℕ → Pipe → Pipe → Written → Type 0
Writes killed bytes p p' w =
    (sent : List ℕ) × (rest : List ℕ) × (bytes ≡ sent ++ rest)
    × (contents p' ≡ contents p ++ sent)
    × IsPipe p'
    × Stopped killed p' rest w

full-count : (p : Pipe) → IsPipe p → is_full p ≡ true → count p ≡ pipesize
full-count p v e = ground (arith, v.read_word, v.write_word, v.fits)

not_full-count : (p : Pipe) → IsPipe p → is_full p ≡ false → count p < pipesize
not_full-count p v e = ground (arith, v.read_word, v.write_word, v.fits)

Writes-push :
    (killed : Bool) (b : ℕ) (bs : List ℕ) (p p' : Pipe) (w : Written)
    → IsPipe p
    → count p < pipesize
    → Writes killed bs (push b p) p' w
    → Writes killed (b ∷ bs) p p' w
Writes-push killed b bs p p' w v room (sent, rest, e, c, v', s) = (
  b ∷ sent,
  rest,
  ap (λ l. b ∷ l) e,
  c ∙ ap (λ l. l ++ sent) (contents-push p v b room) ∙ append_assoc (contents p) (b ∷ []) sent,
  v',
  s,
)

-- `pipewrite`, on a pipe that holds at most PIPESIZE bytes, appends a first part of the bytes to
-- those that wait in the pipe, in order, and keeps the bound. It returns n when nothing is left. It
-- stops earlier only with PIPESIZE bytes in the pipe: it returns -1 when the reader is closed or the
-- process was killed, and else sleeps with the rest still to write.
pub pipewrite_lem :
    (killed : Bool) (bytes : List ℕ) (p : Pipe)
    → IsPipe p
    → Writes killed bytes p (pipewrite killed bytes p).0 (pipewrite killed bytes p).1
unfolding pipewrite
pipewrite_lem killed [] p v = ([], [], refl, sym (append-nil (contents p)), v, refl)
pipewrite_lem killed (b ∷ bs) p v = elim (Bool-cases (is_full p)) [
  | inr room ↦ rw room (
      Writes-push killed b bs p _ _ v (not_full-count p v room)
        (pipewrite_lem killed bs (push b p) (push-IsPipe p v b (not_full-count p v room))))
  | inl e ↦ rw e ([], b ∷ bs, refl, sym (append-nil (contents p)), v, stop e)
]
  where
    stop :
        is_full p ≡ true
        → Stopped killed p (b ∷ bs) (if not p.readopen || killed then broken else full (b ∷ bs))
    stop e = elim (Bool-cases (not p.readopen || killed)) [
      | inl h ↦ rw h (λ x. cc, length-contents p ∙ full-count p v e, ground arith)
      | inr h ↦
          rw h (λ x. cc, refl, length-contents p ∙ full-count p v e, ground arith, ground arith)
    ]
