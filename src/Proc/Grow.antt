-- ===== src/Proc/Grow.antt =====
-- `growproc` (xv6-public/proc.c) and the lock that it leaves behind when memory runs out.
use ele.Base.{
  ℕ, zero, suc, ◌+◌, ◌-◌, ◌%◌, ◌^◌, ◌≡◌, refl, ◌∙◌, ◌≢◌, Bool, true, false, ◌&&◌, not, none, some,
  arith, ◌==◌, if◌then◌else◌, get_elem?, map, Result, ok, panic, ◌>>◌, assert,
}
use ele.Base.Int.{ℤ, pos, negsuc}
use ele.Proc.{Proc, Kernel, Services, proc_at, Chan}
use ele.Proc.Table.{get_elem?-map}
use ele.Proc.Life.{kill, wakeup, allocproc, wait_round}
use ele.Proc.Mlfq.{switchuvm, dispatch}

-- `if(p->pid == curproc->pid) p->sz = sz;`
abbrev pub resize_one : ℕ → ℕ → Proc → Proc
resize_one pid sz p = if p.pid == pid then record p { sz = sz } else p

abbrev pub is_zero : ℤ → Bool
is_zero (pos m) = m == 0
is_zero (negsuc m) = false

module _ (S : Services) where
  open S use {World}

  -- The new size that `allocuvm` or `deallocuvm` returns, 0 for a failure.
  unfoldable pub resize : ℤ → Proc → World → ℕ × World
  resize (pos zero) p w = (p.sz, w)
  resize (pos (suc n)) p w = S.allocuvm p.pgdir p.sz ((p.sz + suc n) % 2 ^ 32) w
  resize (negsuc n) p w = S.deallocuvm p.pgdir p.sz ((p.sz + 2 ^ 32 - suc n) % 2 ^ 32) w

  -- What `growproc` does with that size. The early returns skip `release(&ptable.lock)`.
  unfoldable pub settle : ℕ → ℤ → Proc → ℕ × World → Kernel World → Result (Kernel World × Bool)
  settle cur n p (sz, w) k =
      if not (is_zero n) && (sz == 0) then ok (record k { locked = true; world = w }, false) else do
        let k' = record k { procs = map (resize_one p.pid sz) k.procs; world = w }
        switchuvm p
        ok (k', true)

  unfoldable pub growproc : ℕ → ℤ → Kernel World → Result (Kernel World × Bool)
  unfolding resize settle
  growproc cur n k = assert (not k.locked) "acquire" >> elim (proc_at k cur) [
    | none ↦ panic "page fault"
    | some p ↦ settle cur n p (resize n p k.world) k
  ]

  growproc-settle :
      (cur : ℕ) (n : ℤ) (p : Proc) (k : Kernel World)
      → k.locked ≡ false
      → get_elem? k.procs cur ≡ some p
      → growproc cur n k ≡ settle cur n p (resize n p k.world) k
  unfolding growproc
  growproc-settle cur n p k unlocked here = simp (unlocked, here)

  -- `growproc` by the process in slot `cur`, with the lock free, when the memory gives it a size
  -- that is not 0: it returns 0, every slot with the pid of the process has the new size, no other
  -- field or process changes, and the lock is free again.
  pub growproc_lem :
      (cur : ℕ) (n : ℤ) (p : Proc) (k : Kernel World)
      → k.locked ≡ false
      → get_elem? k.procs cur ≡ some p
      → p.kstack ≢ 0
      → p.pgdir ≢ 0
      → (resize n p k.world).0 ≢ 0
      → (k' : Kernel World) × (growproc cur n k ≡ ok (k', true))
        × (k'.locked ≡ false)
        × ((j : ℕ) (q : Proc)
            → get_elem? k.procs j ≡ some q
            → get_elem? k'.procs j
              ≡ some (if q.pid == p.pid then record q { sz = (resize n p k.world).0 } else q))
  unfolding settle
  growproc_lem cur n p k unlocked here stack dir size = (
    record k {
      procs = map (resize_one p.pid (resize n p k.world).0) k.procs;
      world = (resize n p k.world).1;
    },
    growproc-settle cur n p k unlocked here
        ∙ simp (some_size, ground_and (not (is_zero n)), no_stack, no_dir),
    unlocked,
    λ j q g. get_elem?-map (resize_one p.pid (resize n p k.world).0) k.procs j g,
  )
    where
      some_size : ((resize n p k.world).0 == 0) ≡ false
      some_size = ground arith

      no_stack : (p.kstack == 0) ≡ false
      no_stack = ground arith

      no_dir : (p.pgdir == 0) ≡ false
      no_dir = ground arith

      ground_and : (b : Bool) → (b && false) ≡ false
      ground_and true = refl
      ground_and false = refl

  -- When the memory refuses, `growproc` returns -1 and still holds the lock of the process table:
  -- the next `kill`, `wakeup`, `allocproc`, `wait` or scheduler round on this CPU panics.
  pub growproc-locked :
      (cur : ℕ) (n : ℤ) (p : Proc) (k : Kernel World)
      → k.locked ≡ false
      → get_elem? k.procs cur ≡ some p
      → n ≢ pos 0
      → (resize n p k.world).0 ≡ 0
      → (k' : Kernel World) × (growproc cur n k ≡ ok (k', false))
        × (k'.procs ≡ k.procs)
        × ((pid : ℕ) → kill pid k' ≡ panic "acquire")
        × ((c : Chan) → wakeup c k' ≡ panic "acquire")
        × (allocproc S k' ≡ panic "acquire")
        × ((i : ℕ) → wait_round S i k' ≡ panic "acquire")
        × ((mlfq_k : ℕ) → dispatch mlfq_k k' ≡ panic "acquire")
  unfolding settle kill wakeup allocproc wait_round dispatch
  growproc-locked cur n p k unlocked here some_n refused = (
    record k { locked = true; world = (resize n p k.world).1 },
    growproc-settle cur n p k unlocked here ∙ simp (not_zero n some_n, refused),
    refl,
    λ pid. refl,
    λ c. refl,
    refl,
    λ i. refl,
    λ mlfq_k. refl,
  )
    where
      not_zero : (n : ℤ) → n ≢ pos 0 → is_zero n ≡ false
      not_zero (pos zero) ne = absurd (ne refl)
      not_zero (pos (suc m)) ne = ground arith
      not_zero (negsuc m) ne = refl
