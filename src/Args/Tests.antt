-- ===== src/Args/Tests.antt =====
-- The theorems on the arguments of system calls (xv6-public/syscall.c) at a small memory.
use ele.Base.{ℕ, ◌-◌, arith}
use ele.Args.{argint, argptr}
use ele.Args.Bounds.{InBlock, argptr_lem}

-- Bytes that fall to 0 at address 100.
abbrev memory : ℕ → ℕ
memory a = 100 - a

argptr_lem_example : InBlock 4096 16 (argint memory 4096 200 1) (argptr memory 4096 200 1 16)
argptr_lem_example = argptr_lem memory 4096 200 1 16 (omega arith)
