-- ===== src/File/Tests.antt =====
-- The theorems on open files (xv6-public/file.c, xv6-public/sysfile.c) at two files and three
-- descriptors.
use ele.Base.{
  ℕ, zero, suc, ◌+◌, ◌^◌, ◌<◌, ◌≡◌, false, true, Option, none, some, List, [], ◌∷◌, arith,
  get_elem?,
}
use ele.Base.Int.{pos}
use ele.File.{File, fd_none, fd_inode}
use ele.File.Counts.{uses, IsCounted}
use ele.File.Descriptors.{Dup, Close, sys_dup_lem, sys_close_lem}

abbrev unused_file : File
unused_file = record {
  type_ = fd_none;
  ref = 0;
  readable = false;
  writable = false;
  pipe = 0;
  ip = 0;
  off = 0;
}

abbrev files : List File
files = record unused_file { type_ = fd_inode; ref = 2; readable = true; ip = 4 } ∷ unused_file ∷ []

abbrev fds : List (Option ℕ)
fds = some 0 ∷ none ∷ none ∷ []

-- Another process has the first file open as well.
abbrev others : ℕ → ℕ
others zero = 1
others (suc i) = 0

files-IsCounted : IsCounted files fds others
files-IsCounted = record {
  counted = λ i f h. counts i f h;
  named = λ fd i h. names fd i h;
  few = λ i. small i;
}
  where
    counts : (i : ℕ) (f : File) → get_elem? files i ≡ some f → f.ref ≡ uses i fds + others i
    counts zero f h = ground arith
    counts (suc zero) f h = ground arith
    counts (suc (suc i)) f h = cc

    names : (fd i : ℕ) → get_elem? fds fd ≡ some (some i) → i < 2
    names zero i h = ground arith
    names (suc zero) i h = cc
    names (suc (suc zero)) i h = cc
    names (suc (suc (suc fd))) i h = cc

    small : (i : ℕ) → 3 + others i + 1 < 2 ^ 31
    small zero = omega arith
    small (suc i) = omega arith

sys_dup_lem_example : Dup files fds others files-IsCounted (pos 0)
sys_dup_lem_example = sys_dup_lem files fds others files-IsCounted (pos 0)

sys_close_lem_example : Close files fds others files-IsCounted (pos 0)
sys_close_lem_example = sys_close_lem files fds others files-IsCounted (pos 0)
