-- ===== src/Fs/Icache/Unique.antt =====
-- An inode has at most one entry in the cache (iget of xv6-public/fs.c).
use mathlib.Core.Path.{subst}
use mathlib.Core.Option.{some_inj}
use native.Mathlib.Nat.{zero-add}
use ele.Base.{
  ℕ, zero, suc, ◌+◌, ◌^◌, ◌<◌, ◌≡◌, refl, ◌≢◌, true, false, Option, none, some, List, [], ◌∷◌,
  arith, ◌==◌, if◌then◌else◌, set, get_elem?, get_elem?-lt, get_elem?-set_self, Result, ok, panic,
  Bool-cases, inl, inr, ◌⊎◌,
}
use ele.Proc.Table.{get_elem?-set}
use ele.Fs.Inode.{Inode, referenced}
use ele.Fs.Icache.{
  is_inode, IgetScan, cached, missing, note_empty, iget_scan, one_more_ref, recycled_inode,
  change_inode, take_inode, iget,
}

-- Entries that are referred to are of different inodes.
abbrev pub IsUnique : List Inode → Type 0
IsUnique ips =
    (i j : ℕ) (a b : Inode)
    → get_elem? ips i ≡ some a
    → get_elem? ips j ≡ some b
    → referenced a ≡ true
    → referenced b ≡ true
    → a.dev ≡ b.dev
    → a.inum ≡ b.inum
    → i ≡ j

-- What `empty` may point to when the entries from `i` on have been looked at.
abbrev IsEmpty : List Inode → ℕ → Option ℕ → Option ℕ → Type 0
IsEmpty ips i before none =
    (before ≡ none) × ((d : ℕ) (a : Inode) → get_elem? ips d ≡ some a → a.ref ≢ 0)
IsEmpty ips i before (some e) =
    (before ≡ some e)
    ⊎ ((d : ℕ) × (a : Inode) × (e ≡ i + d) × (get_elem? ips d ≡ some a) × (a.ref ≡ 0))

-- What the loop finds.
abbrev Scanned : ℕ → ℕ → List Inode → ℕ → Option ℕ → IgetScan → Type 0
Scanned dev inum ips i before (cached j) =
    (d : ℕ) × (a : Inode) × (j ≡ i + d) × (get_elem? ips d ≡ some a) × (is_inode dev inum a ≡ true)
Scanned dev inum ips i before (missing empty) =
    ((d : ℕ) (a : Inode) → get_elem? ips d ≡ some a → is_inode dev inum a ≡ false)
    × IsEmpty ips i before empty

note_empty-none :
    (before : Option ℕ) (i : ℕ) (ip : Inode)
    → note_empty before i ip ≡ none
    → (before ≡ none) × (ip.ref ≢ 0)
unfolding note_empty
note_empty-none (some e) i ip h = cc
note_empty-none none i ip h = (refl, λ z. ground arith)

note_empty-some :
    (before : Option ℕ) (i x : ℕ) (ip : Inode)
    → note_empty before i ip ≡ some x
    → (before ≡ some x) ⊎ ((x ≡ i) × (ip.ref ≡ 0))
unfolding note_empty
note_empty-some (some e) i x ip h = inl h
note_empty-some none i x ip h = elim (Bool-cases (ip.ref == 0)) [
  | inl e ↦ inr (ground arith, ground arith)
  | inr e ↦ absurd (ground arith)
]

module _ (dev inum : ℕ) (ip : Inode) (ips : List Inode) where
  absent-next :
      is_inode dev inum ip ≡ false
      → ((d : ℕ) (a : Inode) → get_elem? ips d ≡ some a → is_inode dev inum a ≡ false)
      → (d : ℕ) (a : Inode) → get_elem? (ip ∷ ips) d ≡ some a
      → is_inode dev inum a ≡ false
  absent-next e h zero a g = subst (λ x. is_inode dev inum x ≡ false) (some_inj.0 g) e
  absent-next e h (suc d) a g = h d a g

  full-next :
      ip.ref ≢ 0
      → ((d : ℕ) (a : Inode) → get_elem? ips d ≡ some a → a.ref ≢ 0)
      → (d : ℕ) (a : Inode) → get_elem? (ip ∷ ips) d ≡ some a
      → a.ref ≢ 0
  full-next e h zero a g = subst (λ x. x.ref ≢ 0) (some_inj.0 g) e
  full-next e h (suc d) a g = h d a g

  Scanned-next :
      (i : ℕ) (before : Option ℕ) (r : IgetScan)
      → is_inode dev inum ip ≡ false
      → Scanned dev inum ips (i + 1) (note_empty before i ip) r
      → Scanned dev inum (ip ∷ ips) i before r
  Scanned-next i before (cached j) e (d, a, at, g, t) = (suc d, a, omega arith, g, t)
  Scanned-next i before (missing none) e (absent, (none_yet, full)) =
      let (b, nz) = note_empty-none before i ip none_yet in
      (absent-next e absent, (b, full-next nz full))
  Scanned-next i before (missing (some x)) e (absent, inr (d, a, at, g, z)) =
      (absent-next e absent, inr (suc d, a, omega arith, g, z))
  Scanned-next i before (missing (some x)) e (absent, inl noted) = (
    absent-next e absent,
    elim (note_empty-some before i x ip noted) [
      | inl b ↦ inl b
      | inr (at, z) ↦ inr (0, ip, omega arith, refl, z)
    ],
  )

iget_scan-Scanned :
    (dev inum : ℕ) (ips : List Inode) (i : ℕ) (before : Option ℕ)
    → Scanned dev inum ips i before (iget_scan dev inum ips i before)
unfolding iget_scan
iget_scan-Scanned dev inum [] i none = (λ d a g. cc, (refl, λ d a g. cc))
iget_scan-Scanned dev inum [] i (some x) = (λ d a g. cc, inl refl)
iget_scan-Scanned dev inum (ip ∷ ips) i before = elim (Bool-cases (is_inode dev inum ip)) [
  | inl e ↦ rw e (0, ip, omega arith, refl, e)
  | inr e ↦ rw e (
      Scanned-next dev inum ip ips i before _ e
        (iget_scan-Scanned dev inum ips (i + 1) (note_empty before i ip)))
]

module _ (ips : List Inode) (u : IsUnique ips) (i : ℕ) (a v : Inode)
    (here : get_elem? ips i ≡ some a) where
  abbrev at_set : (j : ℕ) → get_elem? (set ips i v) j ≡ (if i == j then some v else get_elem? ips j)
  at_set j = get_elem?-set ips i j v (get_elem?-lt ips i here)

  -- An entry changes that already stands for its inode.
  set-IsUnique : referenced a ≡ true → v.dev ≡ a.dev → v.inum ≡ a.inum → IsUnique (set ips i v)
  set-IsUnique held sd si j k x y gx gy rx ry ed ei =
      ground (arith, at_set j, at_set k, u j k x y, u j i x a, u i k a y)

  -- An entry is given an inode that no other entry stands for.
  recycle-IsUnique :
      ((d : ℕ) (b : Inode) → get_elem? ips d ≡ some b → is_inode v.dev v.inum b ≡ false)
      → IsUnique (set ips i v)
  recycle-IsUnique absent j k x y gx gy rx ry ed ei =
      ground (arith, at_set j, at_set k, u j k x y, absent j x, absent k y)

-- The entry is in use and stands for this inode.
abbrev pub StandsFor : ℕ → ℕ → Inode → Type 0
StandsFor dev inum a = (0 < a.ref) × (a.ref < 2 ^ 31) × (a.dev ≡ dev) × (a.inum ≡ inum)

is_inode-StandsFor : (dev inum : ℕ) (a : Inode) → is_inode dev inum a ≡ true → StandsFor dev inum a
is_inode-StandsFor dev inum a h = (ground arith, ground arith, ground arith, ground arith)

not-StandsFor : (dev inum : ℕ) (a : Inode) → is_inode dev inum a ≡ false → StandsFor dev inum a → ⊥
not-StandsFor dev inum a h (used, small, d, n) = ground arith

-- Two states of an entry that differ at most in what `iget` may write.
pub record SameContents (a b : Inode) : Type 0 where
  pub same_lock : a.locked ≡ b.locked
  pub same_type : a.type_ ≡ b.type_
  pub same_major : a.major ≡ b.major
  pub same_minor : a.minor ≡ b.minor
  pub same_user : (i : ℕ) → a.user i ≡ b.user i
  pub same_mode : a.mode ≡ b.mode
  pub same_nlink : a.nlink ≡ b.nlink
  pub same_size : a.size ≡ b.size
  pub same_addrs : (i : ℕ) → a.addrs i ≡ b.addrs i

-- One more reference to an entry that stood for the inode.
pub record Shared (dev inum : ℕ) (a a' : Inode) : Type 0 where
  pub stood : StandsFor dev inum a
  pub same_inode : (a'.dev ≡ dev) × (a'.inum ≡ inum)
  pub one_more : a'.ref ≡ a.ref + 1
  pub same_valid : a'.valid ≡ a.valid
  pub kept : SameContents a' a

-- An entry without references is given to the inode, and is to be read before it is used.
pub record Recycled (dev inum : ℕ) (a a' : Inode) : Type 0 where
  pub unused : a.ref ≡ 0
  pub inode : (a'.dev ≡ dev) × (a'.inum ≡ inum)
  pub one : a'.ref ≡ 1
  pub not_read : a'.valid ≡ false
  pub unlocked : a'.locked ≡ a.locked

-- The entry `a'` that `iget` returns at index `i`, in place of `a`.
abbrev pub Got : ℕ → ℕ → List Inode → Result (List Inode × ℕ) → Type 0
Got dev inum ips (panic s) =
    (s ≡ "iget: no inodes")
    × ((d : ℕ) (a : Inode) → get_elem? ips d ≡ some a → (StandsFor dev inum a → ⊥) × (a.ref ≢ 0))
Got dev inum ips (ok (ips', i)) =
    (a : Inode) × (a' : Inode) × (get_elem? ips i ≡ some a)
    × (get_elem? ips' i ≡ some a')
    × (Shared dev inum a a'
        ⊎ (Recycled dev inum a a'
            × ((d : ℕ) (b : Inode) → get_elem? ips d ≡ some b → StandsFor dev inum b → ⊥)))
    × ((j : ℕ) → i ≢ j → get_elem? ips' j ≡ get_elem? ips j)
    × IsUnique ips'

one_more_ref-Shared :
    (dev inum : ℕ) (a : Inode) → is_inode dev inum a ≡ true → Shared dev inum a (one_more_ref a)
one_more_ref-Shared dev inum a h =
    let (used, small, d, n) = is_inode-StandsFor dev inum a h in
    record {
      stood = is_inode-StandsFor dev inum a h;
      same_inode = (d, n);
      one_more = omega arith;
      same_valid = refl;
      kept = record {
        same_lock = refl;
        same_type = refl;
        same_major = refl;
        same_minor = refl;
        same_user = λ i. refl;
        same_mode = refl;
        same_nlink = refl;
        same_size = refl;
        same_addrs = λ i. refl;
      };
    }

recycled_inode-Recycled :
    (dev inum : ℕ) (a : Inode) → a.ref ≡ 0 → Recycled dev inum a (recycled_inode dev inum a)
recycled_inode-Recycled dev inum a z = record {
  unused = z;
  inode = (refl, refl);
  one = refl;
  not_read = refl;
  unlocked = refl;
}

module _ (dev inum : ℕ) (ips : List Inode) (u : IsUnique ips) where
  change-ok :
      (f : Inode → Inode) (i : ℕ) (a : Inode)
      → get_elem? ips i ≡ some a
      → change_inode f i ips ≡ ok (set ips i (f a), i)
  unfolding change_inode
  change-ok f i a here = rw (here, change_inode) refl

  others-set :
      (i : ℕ) (a v : Inode)
      → get_elem? ips i ≡ some a
      → (j : ℕ) → i ≢ j
      → get_elem? (set ips i v) j ≡ get_elem? ips j
  others-set i a v here j ne = ground (arith, get_elem?-set ips i j v (get_elem?-lt ips i here))

  take-Got :
      (r : IgetScan) → Scanned dev inum ips 0 none r → Got dev inum ips (take_inode dev inum r ips)
  unfolding take_inode
  take-Got (cached i) (d, a, at, g, t) =
      let here : get_elem? ips i ≡ some a = rw (at, zero-add) g in
      rw (change-ok one_more_ref i a here) (
        a,
        one_more_ref a,
        here,
        get_elem?-set_self ips i _ (get_elem?-lt ips i here),
        inl (one_more_ref-Shared dev inum a t),
        others-set i a _ here,
        set-IsUnique ips u i a (one_more_ref a) here (ground (arith, t)) refl refl,
      )
  take-Got (missing none) (absent, (b, full)) =
      (refl, λ d a g. (not-StandsFor dev inum a (absent d a g), full d a g))
  take-Got (missing (some i)) (absent, inl e) = cc
  take-Got (missing (some i)) (absent, inr (d, a, at, g, z)) =
      let here : get_elem? ips i ≡ some a = rw (at, zero-add) g in
      rw (change-ok (recycled_inode dev inum) i a here) (
        a,
        recycled_inode dev inum a,
        here,
        get_elem?-set_self ips i _ (get_elem?-lt ips i here),
        inr (
          recycled_inode-Recycled dev inum a z,
          λ e b h. not-StandsFor dev inum b (absent e b h),
        ),
        others-set i a _ here,
        recycle-IsUnique ips u i a (recycled_inode dev inum a) here absent,
      )

  -- In a cache where the entries in use are of different inodes, `iget` returns an entry of the
  -- inode asked for, and the entries in use are of different inodes again. It is the entry that stood
  -- for the inode, with one more reference and else as it was; or, when there was none, one without
  -- references, which then stands for the inode, has one reference and is marked as not read. No
  -- other entry changes. It panics exactly when no entry stands for the inode and each has
  -- references. (An entry is in use if its reference count, an int, is positive.)
  pub iget_lem : Got dev inum ips (iget dev inum ips)
  unfolding iget
  iget_lem = take-Got (iget_scan dev inum ips 0 none) (iget_scan-Scanned dev inum ips 0 none)
