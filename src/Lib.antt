-- ===== src/Lib.antt =====
-- A model of the xv6 kernel of this repository (xv6-public), with its changes to the process table,
-- the scheduler and the user accounts.
--
-- The parts and how they interact. The process table (xv6-public/proc.c) creates, blocks, wakes and
-- reaps processes; the timer interrupt (xv6-public/trap.c) charges the running process and hands it
-- back to the multilevel feedback queue, which chooses the next one. The log (xv6-public/log.c)
-- makes the disk writes of a group of system calls atomic, over the buffer cache (xv6-public/bio.c). Pipes
-- (xv6-public/pipe.c) carry bytes between processes. The accounts (xv6-public/sysfile.c) decide who
-- logs in. The process table and the accounts copy and compare names with the string
-- routines (xv6-public/string.c). The page allocator (xv6-public/kalloc.c) and the open files
-- (xv6-public/file.c) serve the process table, which sees them as parameters; spinlocks
-- (xv6-public/spinlock.c) guard every table. The file system (xv6-public/fs.c) keeps files,
-- directories and names in the blocks that the cache and the log give it.
--
-- The files, with the source each models.
-- - Base: Boolean tests, lists over native numbers, signed integers, and results that may panic.
-- - Str: string.c. A `char *` is a function from offsets to bytes; memory is a function from
--   addresses to bytes.
-- - Log: log.c. `Log` is `struct log`, `Store` the disk with its cache, and `budget` the disk writes
--   that happen before a loss of power. Log/Reserve runs transactions in any interleaving.
-- - Proc: proc.h and the table. Proc/Life has, in its three files, allocproc, fork, fork2, exit, wait, sleep, wakeup, kill
--   and yield; Proc/Grow has growproc; Proc/Mlfq has the scheduler of a build with -D MLFQ_SCHED. A
--   `struct proc *` is a slot, and the memory, file and inode calls are the record `Services`.
-- - Trap: the timer arm of `trap` and what follows its switch.
-- - Pipe: pipe.c. A call that sleeps returns what it has left to do.
-- - Bcache: the list of buffers of bio.c. The log uses the cache through `bread` and `bwrite` only, and
--   has its own `Store` for it.
-- - Spinlock: spinlock.c, with acquire and release cut into the steps that other CPUs can see.
-- - Kalloc: kalloc.c, over memory as a word at each address.
-- - File: the reference counts of file.c and the descriptors of sysfile.c.
-- - Fs: fs.c, over the bytes of each block of the disk as the cache shows them inside a transaction.
--   Fs/Bits, Fs/Words and Fs/Blocks have the bitmap, the numbers in a block and the allocator of blocks;
--   Fs/Inode the inode in memory and on disk; Fs/Icache the inode cache; Fs/Content bmap, itrunc,
--   readi and writei; Fs/Dir directories; Fs/Path path names; Fs/Logged writei and dirlink with
--   their calls of `log_write`. An inode pointer is an index in the cache, or
--   the inode itself where its caller holds it locked.
-- - Args: the argument checks of syscall.c, over user memory as a byte at each address.
-- - Users: the table `utable` with accountcheck, addUser, deleteUser and usysinit.
--
-- Bounds and fuel. `strlen` and `freerange` run on fuel: a fuel above the offset of
-- the first NUL, or the pages of the range and one more, is enough.
-- `readi` and `writei` run on as many rounds as bytes asked for, a search of a directory on as many as
-- its size, and the loops of `skipelem` on any fuel above what is left of the string.
-- The other loops recur on a count or on the table. Counters of C type int or uint wrap at 2 ^ 32
-- where the code lets them. Theorems on new processes ask for a next pid below 2 ^ 32 - 1.
--
-- What is not modelled. Locks other than ptable.lock are left out where the code holds them for a
-- whole operation; an operation under such a lock is one step here. swtch, the page tables, the
-- device drivers, the boot code and the assembly are hardware. In fs.c the operations run one
-- after the other, the sleeplock of an inode is a flag, and readsb and iinit are left out. The
-- rest of sysfile.c, exec, the console, the C library of user programs and the programs themselves
-- have no model here. The thread calls of proc.c are empty. The calls that `Services` stands for
-- return: the panics of kfree, fileclose, iput and sched are those of the models of their own
-- files. Outside Fs/Logged a `log_write` of fs.c is a plain write, as it is while the transaction
-- has room in the log. The wakeups of pipe.c are left out, and what fileclose does with the pipe
-- or the inode behind the last reference is named by its result and not carried out. `argfd` is
-- given the descriptor that argint fetched.
pub mod Base
pub mod Log
pub mod Pipe
pub mod Proc
pub mod Str
pub mod Trap
pub mod Users
pub mod File
pub mod Args
pub mod Kalloc
pub mod Spinlock
pub mod Bcache
pub mod Fs
