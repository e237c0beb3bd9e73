-- ===== src/Proc/Life/Sleep.antt =====
-- How a process sleeps, wakes, is killed and yields (xv6-public/proc.c).
use ele.Base.{
  ℕ, Bool, true, false, ◌&&◌, not, none, some, List, [], ◌∷◌, ◌==◌, if◌then◌else◌, map, Result, ok,
  panic, ◌>>◌, assert,
}
use ele.Proc.{
  sleeping, runnable, state_eq, Chan, chan_eq, Proc, Kernel, proc_at, put_proc, with_lock,
}

-- The update of one slot; a slot outside the table is a fault.
abbrev pub modify : {W : Type 0} → ℕ → (Proc → Proc) → Kernel W → Result (Kernel W)
modify i f k = elim (proc_at k i) [ none ↦ panic "page fault" | some p ↦ ok (put_proc i (f p) k) ]

-- `p->state = SLEEPING` for channel `c`, up to `sched()`. (`sleep` with ptable.lock.)
abbrev pub sleep_on : Chan → Proc → Proc
sleep_on c p = record p { chan = c; state = sleeping }

-- `p->chan = 0`, after `sched()` returned.
abbrev pub tidy_up : Proc → Proc
tidy_up p = record p { chan = Chan.null }

abbrev pub wake_one : Chan → Proc → Proc
wake_one c p =
    if state_eq p.state sleeping && chan_eq p.chan c then record p { state = runnable } else p

unfoldable pub wakeup1 : {W : Type 0} → Chan → Kernel W → Kernel W
wakeup1 c k = record k { procs = map (wake_one c) k.procs }

unfoldable pub wakeup : {W : Type 0} → Chan → Kernel W → Result (Kernel W)
unfolding wakeup1
wakeup c k = with_lock k (wakeup1 c)

-- The loop of `kill`; the flag says whether a process had the pid.
unfoldable pub kill_loop : ℕ → List Proc → List Proc × Bool
kill_loop pid [] = ([], false)
kill_loop pid (p ∷ ps) =
    let (ps', found) = kill_loop pid ps in
    if p.pid == pid
    then (
      record p { killed = true; state = if state_eq p.state sleeping then runnable else p.state }
          ∷ ps,
      true,
    )
    else (p ∷ ps', found)

-- True stands for the result 0, false for -1.
unfoldable pub kill : {W : Type 0} → ℕ → Kernel W → Result (Kernel W × Bool)
unfolding kill_loop
kill pid k =
    with_lock k λ k. (record k { procs = (kill_loop pid k.procs).0 }, (kill_loop pid k.procs).1)

-- `yield`: the process may run again; the scheduler chooses.
unfoldable pub yield_cpu : {W : Type 0} → ℕ → Kernel W → Result (Kernel W)
yield_cpu cur k =
    assert (not k.locked) "acquire" >> modify cur (λ p. record p { state = runnable }) k
