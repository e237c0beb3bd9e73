-- ===== src/File/Counts.antt =====
-- Reference counts of open files (xv6-public/file.c) against the descriptors that hold them.
use ele.Base.{
  ℕ, zero, suc, ◌+◌, ◌^◌, ◌≤◌, ◌<◌, ◌≡◌, refl, ◌≢◌, Option, none, some, List, [], ◌∷◌, arith, ◌==◌,
  if◌then◌else◌, set, get_elem?, length, get_elem?-lt, length-set,
}
use ele.Proc.Table.{get_elem?-set}
use ele.File.{File, free_fd}

-- One, if a descriptor holds file `i`.
abbrev pub holds : ℕ → Option ℕ → ℕ
holds i none = 0
holds i (some j) = if i == j then 1 else 0

-- How many descriptors hold file `i`.
abbrev pub uses : ℕ → List (Option ℕ) → ℕ
uses i [] = 0
uses i (d ∷ fds) = holds i d + uses i fds

-- Every count is the number of descriptors of the process that hold the file and of the
-- references that `others` counts, and an open descriptor names a file of the table.
pub record IsCounted (files : List File) (fds : List (Option ℕ)) (others : ℕ → ℕ) : Type 0 where
  pub counted : (i : ℕ) (f : File) → get_elem? files i ≡ some f → f.ref ≡ uses i fds + others i
  pub named : (fd i : ℕ) → get_elem? fds fd ≡ some (some i) → i < length files
  pub few : (i : ℕ) → length fds + others i + 1 < 2 ^ 31

pub uses-set :
    (i : ℕ) (fds : List (Option ℕ)) (fd : ℕ) (d e : Option ℕ)
    → get_elem? fds fd ≡ some d
    → uses i (set fds fd e) + holds i d ≡ uses i fds + holds i e
uses-set i [] fd d e h = cc
uses-set i (x ∷ fds) zero d e h = omega (arith, same h)
  where
    same : some x ≡ some d → holds i x ≡ holds i d
    same h = cc
uses-set i (x ∷ fds) (suc fd) d e h = omega (arith, uses-set i fds fd d e h)

holds-le : (i : ℕ) (d : Option ℕ) → holds i d ≤ 1
holds-le i none = omega arith
holds-le i (some j) = ground arith

pub uses-le : (i : ℕ) (fds : List (Option ℕ)) → uses i fds ≤ length fds
uses-le i [] = omega arith
uses-le i (d ∷ fds) = omega (arith, uses-le i fds, holds-le i d)

-- Descriptor `k + d` is the first free one.
abbrev pub FirstFree : List (Option ℕ) → ℕ → ℕ → Type 0
FirstFree fds k j =
    (d : ℕ) × (j ≡ k + d)
    × (get_elem? fds d ≡ some none)
    × ((e : ℕ) → e < d → get_elem? fds e ≢ some none)

pub free_fd-some : (fds : List (Option ℕ)) (k j : ℕ) → free_fd fds k ≡ some j → FirstFree fds k j
unfolding free_fd
free_fd-some [] k j h = cc
free_fd-some (none ∷ fds) k j h = (0, ground arith, refl, λ e l. absurd (omega arith))
free_fd-some (some i ∷ fds) k j h =
    let (d, at, g, first) = free_fd-some fds (k + 1) j h in
    (suc d, omega arith, g, λ e l. before d first e l)
  where
    before :
        (d : ℕ)
        → ((e : ℕ) → e < d → get_elem? fds e ≢ some none)
        → (e : ℕ) → e < suc d
        → get_elem? (some i ∷ fds) e ≢ some none
    before d first zero l h = cc
    before d first (suc e) l h = first e (omega arith) h

pub free_fd-none :
    (fds : List (Option ℕ)) (k : ℕ) → free_fd fds k ≡ none → (e : ℕ) → get_elem? fds e ≢ some none
unfolding free_fd
free_fd-none [] k h e g = cc
free_fd-none (none ∷ fds) k h e g = cc
free_fd-none (some i ∷ fds) k h zero g = cc
free_fd-none (some i ∷ fds) k h (suc e) g = free_fd-none fds (k + 1) h e g

-- A write to file `i` and a write to descriptor `fd` that move one reference.
pub moved-IsCounted :
    {files : List File} {fds : List (Option ℕ)} {others others' : ℕ → ℕ}
    → IsCounted files fds others
    → (i : ℕ) (f v : File) → get_elem? files i ≡ some f
    → (fd : ℕ) (d e : Option ℕ) → get_elem? fds fd ≡ some d
    → ((j : ℕ) → e ≡ some j → j < length files)
    → ((j : ℕ) → others' j ≤ others j)
    → v.ref + holds i d + others i ≡ f.ref + holds i e + others' i
    → ((j : ℕ) → i ≢ j → holds j d + others j ≡ holds j e + others' j)
    → IsCounted (set files i v) (set fds fd e) others'
moved-IsCounted {files} {fds} {others} {others'} c i f v here fd d e at inside fewer moved same =
    record {
      counted = λ j g h. ground (
        arith,
        get_elem?-set files i j v (get_elem?-lt files i here),
        c.counted j g,
        c.counted i f here,
        uses-set j fds fd d e at,
        uses-set i fds fd d e at,
        same j,
      );
      named = λ k j h. rw (length-set files i v) (
          ground (arith, get_elem?-set fds fd k e (get_elem?-lt fds fd at), c.named k j, inside j));
      few = λ j. omega (arith, c.few j, fewer j, length-set fds fd e);
    }
