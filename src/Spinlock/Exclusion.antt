-- ===== src/Spinlock/Exclusion.antt =====
-- At most one CPU holds a spinlock, however the steps of the CPUs interleave
-- (xv6-public/spinlock.c).
use mathlib.Core.Path.{subst}
use ele.Base.{
  ℕ, ◌<◌, ◌≡◌, refl, sym, ◌∙◌, ◌≢◌, Bool, true, false, ◌&&◌, not, Option, none, some, arith, ◌==◌,
  if◌then◌else◌, update, ok, Bool-cases, inl, inr,
}
use ele.Spinlock.{
  Cpu, Lock, initlock, pushcli, is_owner, holding, begin_acquire, xchg, set_owner, begin_release,
  end_release,
}
use ele.Spinlock.Cli.{IsCpu, popcli-ok, popped_once}

-- Where a CPU is: not in acquire or release of the lock, spinning, past its xchg, in possession of
-- the lock, or in release before the store that frees the lock.
pub data Phase : Type 0 where
  outside spinning taken inside leaving : Phase

pub record System : Type 0 where
  pub lock : Lock
  pub cpu : ℕ → Cpu
  pub phase : ℕ → Phase

abbrev pub move : System → ℕ → Lock → Cpu → Phase → System
move s i lk c ph = record { lock = lk; cpu = update s.cpu i c; phase = update s.phase i ph }

pub data Step (s : System) : System → Type 0 where
  begin :
      (i : ℕ) {c : Cpu}
      → s.phase i ≡ outside
      → begin_acquire i s.lock (s.cpu i) ≡ ok c
      → Step s (move s i s.lock c spinning)
  spin :
      (i : ℕ)
      → s.phase i ≡ spinning
      → Step s (move s i ((xchg s.lock).0) (s.cpu i) (if (xchg s.lock).1 then taken else spinning))
  own : (i : ℕ) → s.phase i ≡ taken → Step s (move s i (set_owner i s.lock) (s.cpu i) inside)
  leave :
      (i : ℕ) {lk : Lock} {c : Cpu}
      → s.phase i ≡ inside
      → begin_release i s.lock (s.cpu i) ≡ ok (lk, c)
      → Step s (move s i lk c leaving)
  free :
      (i : ℕ) {lk : Lock} {c : Cpu}
      → s.phase i ≡ leaving
      → end_release s.lock (s.cpu i) ≡ ok (lk, c)
      → Step s (move s i lk c outside)
  -- Other code on the CPU opens or closes an outer pushcli, or turns interrupts on or off.
  elsewhere : (i : ℕ) (c : Cpu) → s.phase i ≡ outside → IsCpu c → Step s (move s i s.lock c outside)

-- From a lock that `initlock` has made.
pub data Reach : System → Type 0 where
  start :
      (s : System)
      → s.lock ≡ initlock
      → ((i : ℕ) → s.phase i ≡ outside)
      → ((i : ℕ) → IsCpu (s.cpu i))
      → Reach s
  later : {s t : System} → Reach s → Step s t → Reach t

-- The CPU has the lock's word set to 1.
abbrev pub has : Phase → Bool
has outside = false
has spinning = false
has taken = true
has inside = true
has leaving = true

-- A CPU in acquire or release has interrupts off and a pushcli open.
abbrev Covered : Phase → Cpu → Type 0
Covered outside c = IsCpu c
Covered spinning c = (c.iflag ≡ false) × (0 < c.ncli)
Covered taken c = (c.iflag ≡ false) × (0 < c.ncli)
Covered inside c = (c.iflag ≡ false) × (0 < c.ncli)
Covered leaving c = (c.iflag ≡ false) × (0 < c.ncli)

-- `lk->cpu` as each phase of a CPU sees it.
abbrev Owned : ℕ → Phase → Option ℕ → Type 0
Owned i outside o = is_owner i o ≡ false
Owned i spinning o = is_owner i o ≡ false
Owned i taken o = is_owner i o ≡ false
Owned i inside o = o ≡ some i
Owned i leaving o = o ≡ none

pub record Inv (s : System) : Type 0 where
  pub one : (i j : ℕ) → has (s.phase i) ≡ true → has (s.phase j) ≡ true → i ≡ j
  pub held : (i : ℕ) → has (s.phase i) ≡ true → s.lock.locked ≡ true
  pub owner : (i : ℕ) → Owned i (s.phase i) s.lock.cpu
  pub covered : (i : ℕ) → Covered (s.phase i) (s.cpu i)

at_update {ℓ κ} :
    {A : Type ℓ} (P : ℕ → A → Type κ) (f : ℕ → A) (i : ℕ) (a : A)
    → P i a
    → ((j : ℕ) → i ≢ j → P j (f j))
    → (j : ℕ) → P j (update f i a j)
at_update P f i a here others j = elim (Bool-cases (i == j)) [
  | inl e ↦ rw e (subst (λ k. P k a) (ground arith) here)
  | inr e ↦ rw e (others j (ground arith))
]

both_update :
    (f : ℕ → Phase) (c : ℕ → Cpu) (i : ℕ) (ph : Phase) (d : Cpu)
    → Covered ph d
    → ((j : ℕ) → Covered (f j) (c j))
    → (j : ℕ) → Covered (update f i ph j) (update c i d j)
both_update f c i ph d here others j = elim (Bool-cases (i == j)) [
  | inl e ↦ rw e here
  | inr e ↦ rw e (others j)
]

move-Inv :
    (s : System)
    → Inv s
    → (i : ℕ) (lk : Lock) (c : Cpu) (ph : Phase)
    → ((j : ℕ) → i ≢ j → has ph ≡ true → has (s.phase j) ≡ false)
    → ((j : ℕ) → has (update s.phase i ph j) ≡ true → lk.locked ≡ true)
    → Owned i ph lk.cpu
    → ((j : ℕ) → i ≢ j → Owned j (s.phase j) lk.cpu)
    → Covered ph c
    → Inv (move s i lk c ph)
move-Inv s v i lk c ph alone held mine owns cov = record {
  one = λ a b ha hb. ground (arith, v.one a b, alone a, alone b);
  held = held;
  owner = at_update (λ j p. Owned j p lk.cpu) s.phase i ph mine owns;
  covered = both_update s.phase s.cpu i ph c cov v.covered;
}

holding-ok :
    (i : ℕ) (lk : Lock) (c : Cpu)
    → holding i lk c ≡ ok (popped_once (pushcli c), lk.locked && is_owner i lk.cpu)
unfolding holding pushcli
holding-ok i lk c = rw (popcli-ok (pushcli c) refl (omega arith))

-- A CPU in the middle of a critical section, after `holding`.
held_cpu :
    (c : Cpu)
    → c.iflag ≡ false
    → 0 < c.ncli
    → ((popped_once (pushcli c)).iflag ≡ false) × (0 < (popped_once (pushcli c)).ncli)
unfolding pushcli
held_cpu c off deep = (ground arith, ground arith)

begin_acquire-ok :
    (i : ℕ) (lk : Lock) (c : Cpu)
    → is_owner i lk.cpu ≡ false
    → begin_acquire i lk c ≡ ok (popped_once (pushcli (pushcli c)))
unfolding begin_acquire
begin_acquire-ok i lk c other = rw (holding-ok i lk (pushcli c)) (simp (other, and_false lk.locked))
  where
    and_false : (b : Bool) → (b && false) ≡ false
    and_false true = refl
    and_false false = refl

begin_acquire-Covered : (c : Cpu) → Covered spinning (popped_once (pushcli (pushcli c)))
unfolding pushcli
begin_acquire-Covered c = held_cpu (pushcli c) refl (omega arith)

begin_release-ok :
    (i : ℕ) (lk : Lock) (c : Cpu)
    → lk.locked ≡ true
    → lk.cpu ≡ some i
    → begin_release i lk c ≡ ok (record lk { cpu = none }, popped_once (pushcli c))
unfolding begin_release
begin_release-ok i lk c locked mine =
    let same : is_owner i (some i) ≡ true = ground arith in
    rw (holding-ok i lk c) (simp (locked, mine, same))

end_release-ok :
    (lk : Lock) (c : Cpu)
    → c.iflag ≡ false
    → 0 < c.ncli
    → end_release lk c ≡ ok (record lk { locked = false }, popped_once c)
unfolding end_release
end_release-ok lk c off deep = rw (popcli-ok c off deep)

ok-inj {ℓ} : {A : Type ℓ} {a b : A} → ok a ≡ ok b → a ≡ b
ok-inj e = cc

Owned-quiet :
    (j : ℕ) (p : Phase) (o : Option ℕ) → has p ≡ false → is_owner j o ≡ false → Owned j p o
Owned-quiet j outside o h e = e
Owned-quiet j spinning o h e = e
Owned-quiet j taken o h e = cc
Owned-quiet j inside o h e = cc
Owned-quiet j leaving o h e = cc

module _ (s : System) (v : Inv s) (i : ℕ) where
  here-Owned : (p : Phase) → s.phase i ≡ p → Owned i p s.lock.cpu
  here-Owned p h = subst (λ p. Owned i p s.lock.cpu) h (v.owner i)

  here-Covered : (p : Phase) → s.phase i ≡ p → Covered p (s.cpu i)
  here-Covered p h = subst (λ p. Covered p (s.cpu i)) h (v.covered i)

  -- A move to a phase without the lock, which leaves the lock as it is.
  quiet-Inv :
      (p ph : Phase) (c : Cpu)
      → s.phase i ≡ p
      → has ph ≡ false
      → Owned i ph s.lock.cpu
      → Covered ph c
      → Inv (move s i s.lock c ph)
  quiet-Inv p ph c h off mine cov =
      move-Inv s v i s.lock c ph (λ j ne on. absurd (ground arith))
        (λ j on. ground (arith, v.held j)) mine (λ j ne. v.owner j) cov

  begin-Inv :
      (c : Cpu)
      → s.phase i ≡ outside
      → begin_acquire i s.lock (s.cpu i) ≡ ok c
      → Inv (move s i s.lock c spinning)
  begin-Inv c h e =
      subst (λ c. Inv (move s i s.lock c spinning))
        (ok-inj (sym (begin_acquire-ok i s.lock (s.cpu i) (here-Owned outside h)) ∙ e))
        (quiet-Inv outside spinning _ h refl (here-Owned outside h)
          (begin_acquire-Covered (s.cpu i)))

  spin-Inv :
      (b : Bool)
      → s.lock.locked ≡ b
      → s.phase i ≡ spinning
      → Inv (move s i ((xchg s.lock).0) (s.cpu i) (if not b then taken else spinning))
  unfolding xchg
  spin-Inv true e h =
      move-Inv s v i (record (s.lock) { locked = true }) (s.cpu i) spinning (λ j ne on. cc)
        (λ j on. refl) (here-Owned spinning h) (λ j ne. v.owner j) (here-Covered spinning h)
  spin-Inv false e h =
      move-Inv s v i (record (s.lock) { locked = true }) (s.cpu i) taken
        (λ j ne on. ground (arith, v.held j)) (λ j on. refl) (here-Owned spinning h)
        (λ j ne. v.owner j) (here-Covered spinning h)

  alone : (p : Phase) → s.phase i ≡ p → has p ≡ true → (j : ℕ) → i ≢ j → has (s.phase j) ≡ false
  alone p h on j ne = elim (Bool-cases (has (s.phase j))) [
    | inr e ↦ e
    | inl e ↦ absurd (ne (v.one i j (rw h on) e))
  ]

  locked_here : (p : Phase) → s.phase i ≡ p → has p ≡ true → s.lock.locked ≡ true
  locked_here p h on = v.held i (rw h on)

  own-Inv : s.phase i ≡ taken → Inv (move s i (set_owner i s.lock) (s.cpu i) inside)
  unfolding set_owner
  own-Inv h =
      move-Inv s v i (set_owner i s.lock) (s.cpu i) inside (λ j ne on. alone taken h refl j ne)
        (λ j on. locked_here taken h refl) refl
        (λ j ne. Owned-quiet j (s.phase j) (some i) (alone taken h refl j ne) (ground arith))
        (here-Covered taken h)

  leave-ok :
      s.phase i ≡ inside
      → begin_release i s.lock (s.cpu i)
        ≡ ok (record (s.lock) { cpu = none }, popped_once (pushcli (s.cpu i)))
  leave-ok h = begin_release-ok i s.lock (s.cpu i) (locked_here inside h refl) (here-Owned inside h)

  leave-Inv :
      (lk : Lock) (c : Cpu)
      → s.phase i ≡ inside
      → begin_release i s.lock (s.cpu i) ≡ ok (lk, c)
      → Inv (move s i lk c leaving)
  leave-Inv lk c h e =
      subst (λ (r : Lock × Cpu). Inv (move s i (r.0) (r.1) leaving)) (ok-inj (sym (leave-ok h) ∙ e))
        (move-Inv s v i (record (s.lock) { cpu = none }) (popped_once (pushcli (s.cpu i))) leaving
          (λ j ne on. alone inside h refl j ne) (λ j on. locked_here inside h refl) refl
          (λ j ne. Owned-quiet j (s.phase j) none (alone inside h refl j ne) refl)
          (held_cpu (s.cpu i) (here-Covered inside h).0 (here-Covered inside h).1))

  free-ok :
      s.phase i ≡ leaving
      → end_release s.lock (s.cpu i)
        ≡ ok (record (s.lock) { locked = false }, popped_once (s.cpu i))
  free-ok h = end_release-ok s.lock (s.cpu i) (here-Covered leaving h).0 (here-Covered leaving h).1

  free-Inv :
      (lk : Lock) (c : Cpu)
      → s.phase i ≡ leaving
      → end_release s.lock (s.cpu i) ≡ ok (lk, c)
      → Inv (move s i lk c outside)
  free-Inv lk c h e =
      subst (λ (r : Lock × Cpu). Inv (move s i (r.0) (r.1) outside)) (ok-inj (sym (free-ok h) ∙ e))
        (move-Inv s v i (record (s.lock) { locked = false }) (popped_once (s.cpu i)) outside
          (λ j ne on. cc) (λ j on. absurd (ground (arith, alone leaving h refl j))) (unowned i)
          (λ j ne. Owned-quiet j (s.phase j) s.lock.cpu (alone leaving h refl j ne) (unowned j))
          (record { off = λ deep. off_after (s.cpu i) (here-Covered leaving h).0 deep }))
    where
      unowned : (j : ℕ) → is_owner j s.lock.cpu ≡ false
      unowned j = rw (here-Owned leaving h)

      off_after :
          (c : Cpu) → c.iflag ≡ false → 0 < (popped_once c).ncli → (popped_once c).iflag ≡ false
      off_after c off deep = ground arith

Step-Inv : {s t : System} → Inv s → Step s t → Inv t
unfolding xchg
Step-Inv {s} v (begin i {c} h e) = begin-Inv s v i c h e
Step-Inv {s} v (spin i h) = spin-Inv s v i s.lock.locked refl h
Step-Inv {s} v (own i h) = own-Inv s v i h
Step-Inv {s} v (leave i {lk} {c} h e) = leave-Inv s v i lk c h e
Step-Inv {s} v (free i {lk} {c} h e) = free-Inv s v i lk c h e
Step-Inv {s} v (elsewhere i c h cov) =
    quiet-Inv s v i outside outside c h refl (here-Owned s v i outside h) cov

Reach-Inv : {s : System} → Reach s → Inv s
unfolding initlock
Reach-Inv (start s lock out cpus) = record {
  one = λ i j hi hj. absurd (ground (arith, out i));
  held = λ i h. absurd (ground (arith, out i));
  owner = λ i. rw (out i, lock);
  covered = λ i. rw (out i) (cpus i);
}
Reach-Inv (later r st) = Step-Inv (Reach-Inv r) st

-- In every state that CPUs reach from an initialised lock, in whatever order their steps come, at
-- most one CPU is past its xchg and has not yet freed the lock. acquire does not panic on a
-- CPU outside, nor release on the CPU that has the lock, whose interrupts are off.
pub Reach-exclusive :
    {s : System}
    → Reach s
    → ((i j : ℕ) → has (s.phase i) ≡ true → has (s.phase j) ≡ true → i ≡ j)
      × ((i : ℕ) → s.phase i ≡ outside → (c : Cpu) × (begin_acquire i s.lock (s.cpu i) ≡ ok c))
      × ((i : ℕ)
          → s.phase i ≡ inside
          → ((s.cpu i).iflag ≡ false)
            × ((r : Lock × Cpu) × (begin_release i s.lock (s.cpu i) ≡ ok r)))
      × ((i : ℕ) → s.phase i ≡ leaving → (r : Lock × Cpu) × (end_release s.lock (s.cpu i) ≡ ok r))
Reach-exclusive {s} r =
    let v = Reach-Inv r in
    (
      v.one,
      λ i h. (_, begin_acquire-ok i s.lock (s.cpu i) (here-Owned s v i outside h)),
      λ i h. ((here-Covered s v i inside h).0, (_, leave-ok s v i h)),
      λ i h. (_, free-ok s v i h),
    )
