-- ===== src/Pipe/Tests.antt =====
-- The theorems on pipe.c (xv6-public/pipe.c) at small pipes.
use ele.Base.{false, [], ◌∷◌, arith}
use ele.Pipe.{Pipe, new_pipe, pipewrite, piperead}
use ele.Pipe.Queue.{IsPipe}
use ele.Pipe.Writing.{Writes, pipewrite_lem}
use ele.Pipe.Reading.{Reads, piperead_lem}

-- A new pipe whose counters are about to wrap, with one byte in it.
abbrev nearly_wrapped : Pipe
nearly_wrapped = record (new_pipe (λ _. 9)) { nread = 4294967294; nwrite = 4294967295 }

nearly_wrapped-IsPipe : IsPipe nearly_wrapped
nearly_wrapped-IsPipe = record {
  read_word = omega arith;
  write_word = omega arith;
  fits = omega arith;
}

pipewrite_lem_example :
    Writes false
      (1 ∷ 2 ∷ [])
      nearly_wrapped
      (pipewrite false (1 ∷ 2 ∷ []) nearly_wrapped).0
      (pipewrite false (1 ∷ 2 ∷ []) nearly_wrapped).1
pipewrite_lem_example = pipewrite_lem false (1 ∷ 2 ∷ []) nearly_wrapped nearly_wrapped-IsPipe

piperead_lem_example :
    Reads false 4 nearly_wrapped
      (piperead false 4 nearly_wrapped).0
      (piperead false 4 nearly_wrapped).1
piperead_lem_example = piperead_lem false 4 nearly_wrapped nearly_wrapped-IsPipe
