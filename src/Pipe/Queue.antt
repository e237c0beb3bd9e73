-- ===== src/Pipe/Queue.antt =====
-- The bytes in a pipe (xv6-public/pipe.c) as a queue.
use ele.Base.{
  ℕ, zero, suc, ◌+◌, ◌-◌, ◌%◌, ◌^◌, ◌≤◌, ◌<◌, ◌≡◌, refl, ◌∙◌, ap, ◌≢◌, List, [], ◌∷◌, ◌++◌, arith,
  update, length,
}
use mathlib.Core.Path.{ap₂, ◌≡⟨◌⟩◌, ◌∎}
use ele.Pipe.{Pipe, pipesize, push}

-- `n` bytes from position `s` of the ring.
unfoldable pub ring : (ℕ → ℕ) → ℕ → ℕ → List ℕ
ring cells s zero = []
ring cells s (suc n) = cells (s % pipesize) ∷ ring cells (s + 1) n

-- How many bytes wait: the counters' difference modulo 2 ^ 32.
abbrev pub count : Pipe → ℕ
count p = (p.nwrite + 2 ^ 32 - p.nread) % 2 ^ 32

pub contents : Pipe → List ℕ
unfolding ring
contents p = ring p.cells p.nread (count p)

pub record IsPipe (p : Pipe) : Type 0 where
  pub read_word : p.nread < 2 ^ 32
  pub write_word : p.nwrite < 2 ^ 32
  pub fits : count p ≤ pipesize

ring-cong :
    (cells : ℕ → ℕ) (s t n : ℕ) → s % pipesize ≡ t % pipesize → ring cells s n ≡ ring cells t n
unfolding ring
ring-cong cells s t zero e = refl
ring-cong cells s t (suc n) e = rw (e, ring-cong cells (s + 1) (t + 1) n (omega arith))

ring-update :
    (cells : ℕ → ℕ) (s n i v : ℕ)
    → ((j : ℕ) → j < n → (s + j) % pipesize ≢ i)
    → ring (update cells i v) s n ≡ ring cells s n
unfolding ring
ring-update cells s zero i v out = refl
ring-update cells s (suc n) i v out =
    rw (ring-update cells (s + 1) n i v (λ j l. ground (arith, out (j + 1))))
      (ground (arith, out 0))

ring-snoc :
    (cells : ℕ → ℕ) (s n : ℕ)
    → ring cells s (suc n) ≡ ring cells s n ++ cells ((s + n) % pipesize) ∷ []
unfolding ring
ring-snoc cells s zero = ap (λ i. cells (i % pipesize) ∷ []) (omega arith)
ring-snoc cells s (suc n) =
    ap (λ l. cells (s % pipesize) ∷ l)
      (ring-snoc cells (s + 1) n
        ∙ ap (λ i. ring cells (s + 1) n ++ cells (i % pipesize) ∷ []) (omega arith))

pub length-ring : (cells : ℕ → ℕ) (s n : ℕ) → length (ring cells s n) ≡ n
unfolding ring
length-ring cells s zero = refl
length-ring cells s (suc n) = ap suc (length-ring cells (s + 1) n)

pub length-contents : (p : Pipe) → length (contents p) ≡ count p
unfolding contents
length-contents p = length-ring p.cells p.nread (count p)

module _ (p : Pipe) (v : IsPipe p) where
  -- A byte that is written joins the queue at its end.
  pub contents-push : (b : ℕ) → count p < pipesize → contents (push b p) ≡ contents p ++ b ∷ []
  unfolding contents
  contents-push b room =
      ring (update p.cells (p.nwrite % pipesize) b) p.nread (count (push b p))
      ≡⟨ ap (ring (update p.cells (p.nwrite % pipesize) b) p.nread) grown ⟩
        ring (update p.cells (p.nwrite % pipesize) b) p.nread (suc (count p))
      ≡⟨ ring-snoc (update p.cells (p.nwrite % pipesize) b) p.nread (count p) ⟩
        ring (update p.cells (p.nwrite % pipesize) b) p.nread (count p)
        ++ update p.cells (p.nwrite % pipesize) b ((p.nread + count p) % pipesize) ∷ []
      ≡⟨ ap₂ (λ (l : List ℕ) (x : ℕ). l ++ x ∷ [])
          (ring-update p.cells p.nread (count p) (p.nwrite % pipesize) b
            (λ j l. omega (arith, v.read_word, v.write_word, v.fits)))
          hit ⟩
        ring p.cells p.nread (count p) ++ b ∷ [] ∎
    where
      grown : count (push b p) ≡ suc (count p)
      grown = omega (arith, v.read_word, v.write_word)

      hit : update p.cells (p.nwrite % pipesize) b ((p.nread + count p) % pipesize) ≡ b
      hit =
          let same : (p.nread + count p) % pipesize ≡ p.nwrite % pipesize =
            omega (arith, v.read_word, v.write_word) in
          ground arith

  pub push-IsPipe : (b : ℕ) → count p < pipesize → IsPipe (push b p)
  push-IsPipe b room = record {
    read_word = v.read_word;
    write_word = omega arith;
    fits = omega (arith, v.read_word, v.write_word);
  }

-- The pipe after a byte has been read.
abbrev pub advance : Pipe → Pipe
advance p = record p { nread = (p.nread + 1) % 2 ^ 32 }

module _ (p : Pipe) (v : IsPipe p) (some_byte : p.nread ≢ p.nwrite) where
  shrunk : count p ≡ suc (count (advance p))
  shrunk = omega (arith, v.read_word, v.write_word)

  -- The byte that is read is the queue's first.
  pub contents-advance : contents p ≡ p.cells (p.nread % pipesize) ∷ contents (advance p)
  unfolding contents ring
  contents-advance =
      ap (ring p.cells p.nread) shrunk
      ∙ ap (λ l. p.cells (p.nread % pipesize) ∷ l)
          (ring-cong p.cells (p.nread + 1) ((p.nread + 1) % 2 ^ 32) (count (advance p))
            (omega arith))

  pub advance-IsPipe : IsPipe (advance p)
  advance-IsPipe = record {
    read_word = omega arith;
    write_word = v.write_word;
    fits = omega (arith, v.fits, shrunk);
  }

pub contents-empty : (p : Pipe) → IsPipe p → p.nread ≡ p.nwrite → contents p ≡ []
unfolding contents ring
contents-empty p v e =
    let none_left : count p ≡ 0 = omega (arith, v.read_word, v.write_word) in
    ap (ring p.cells p.nread) none_left
