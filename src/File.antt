-- ===== src/File.antt =====
-- The table of open files (xv6-public/file.c) and the descriptors of a process (argfd, fdalloc,
-- sys_dup and sys_close of xv6-public/sysfile.c). A `struct file *` is its index in `ftable.file`;
-- ftable.lock is held for the whole of each operation on the table. `fds` is `curproc->ofile`.
pub mod Counts
pub mod Descriptors
pub mod Entries
mod Tests
use ele.Base.{
  ℕ, zero, suc, ◌+◌, ◌-◌, ◌%◌, ◌^◌, Bool, true, false, ◌&&◌, Option, none, some, List, [], ◌∷◌,
  ◌==◌, leb, ltb, if◌then◌else◌, set, get_elem?, Result, ok, panic, ◌>>=◌, ◌>>◌, assert,
}
use ele.Base.Int.{ℤ, pos, negsuc}
use ele.Proc.{nofile}

pub data FileType : Type 0 where
  fd_none fd_pipe fd_inode : FileType

-- `struct file`; a pipe and an inode are their numbers.
pub record File : Type 0 where
  pub type_ : FileType
  pub ref : ℕ
  pub readable : Bool
  pub writable : Bool
  pub pipe : ℕ
  pub ip : ℕ
  pub off : ℕ

-- The loop of `filealloc`, from index `i`.
unfoldable pub free_file : List File → ℕ → Option ℕ
free_file [] i = none
free_file (f ∷ fs) i = if f.ref == 0 then some i else free_file fs (i + 1)

abbrev pub with_ref : ℕ → File → File
with_ref n f = record f { ref = n }

unfoldable pub filealloc : List File → List File × Option ℕ
unfolding free_file
filealloc files = elim (free_file files 0) [
  | none ↦ (files, none)
  | some i ↦ elim (get_elem? files i) [
    | none ↦ (files, none)
    | some f ↦ (set files i (with_ref 1 f), some i)
  ]
]

-- `filedup` of the file that is read.
unfoldable pub dup_ref : ℕ → Option File → List File → Result (List File)
dup_ref i none files = panic "page fault"
dup_ref i (some f) files =
    assert (leb 1 f.ref) "filedup" >> ok (set files i (with_ref ((f.ref + 1) % 2 ^ 32) f))

unfoldable pub filedup : ℕ → List File → Result (List File)
unfolding dup_ref
filedup i files = dup_ref i (get_elem? files i) files

-- What `fileclose` does after the table: nothing, or it gives up the pipe end or the inode of `ff`.
pub data Closed : Type 0 where
  shared : Closed
  last : (ff : File) → Closed

unfoldable pub drop_ref : ℕ → Option File → List File → Result (List File × Closed)
drop_ref i none files = panic "page fault"
drop_ref i (some f) files =
    assert (leb 1 f.ref) "fileclose"
    >> (if ltb 0 (f.ref - 1)
        then ok (set files i (with_ref (f.ref - 1) f), shared)
        else ok (set files i (record f { ref = 0; type_ = fd_none }), last (with_ref 0 f)))

unfoldable pub fileclose : ℕ → List File → Result (List File × Closed)
unfolding drop_ref
fileclose i files = drop_ref i (get_elem? files i) files

-- The descriptor and its file, for an argument that is an open descriptor.
unfoldable pub argfd : ℤ → List (Option ℕ) → Option (ℕ × ℕ)
argfd (negsuc n) fds = none
argfd (pos fd) fds =
    if ltb fd nofile
    then elim (get_elem? fds fd) [ none ↦ none | some none ↦ none | some (some i) ↦ some (fd, i) ]
    else none

-- The loop of `fdalloc`, from descriptor `fd`: the first that is free.
unfoldable pub free_fd : List (Option ℕ) → ℕ → Option ℕ
free_fd [] fd = none
free_fd (none ∷ fds) fd = some fd
free_fd (some i ∷ fds) fd = free_fd fds (fd + 1)

unfoldable pub fdalloc : ℕ → List (Option ℕ) → Option (List (Option ℕ) × ℕ)
unfolding free_fd
fdalloc i fds = elim (free_fd fds 0) [ none ↦ none | some fd ↦ some (set fds fd (some i), fd) ]

-- The rest of `sys_dup`, from the result of `fdalloc`.
unfoldable pub dup_into :
    ℕ
    → Option (List (Option ℕ) × ℕ)
    → List (Option ℕ)
    → List File
    → Result (List (Option ℕ) × List File × Option ℕ)
unfolding filedup
dup_into i none fds files = ok (fds, files, none)
dup_into i (some (fds', fd)) fds files = filedup i files >>= λ files'. ok (fds', files', some fd)

-- The new descriptor, or none for -1.
unfoldable pub sys_dup :
    ℤ → List (Option ℕ) → List File → Result (List (Option ℕ) × List File × Option ℕ)
unfolding fdalloc dup_into
sys_dup arg fds files = elim (argfd arg fds) [
  | none ↦ ok (fds, files, none)
  | some (fd, i) ↦ dup_into i (fdalloc i fds) fds files
]

-- What `fileclose` went on to do, or none for -1.
unfoldable pub sys_close :
    ℤ → List (Option ℕ) → List File → Result (List (Option ℕ) × List File × Option Closed)
unfolding fileclose
sys_close arg fds files = elim (argfd arg fds) [
  | none ↦ ok (fds, files, none)
  | some (fd, i) ↦ fileclose i files >>= λ r. ok (set fds fd none, r.0, some (r.1))
]
