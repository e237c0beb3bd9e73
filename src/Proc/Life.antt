-- ===== src/Proc/Life.antt =====
-- The life of a process (xv6-public/proc.c): allocproc, fork, fork2, exit, wait, and the calls that
-- put a process to sleep and wake it. `cur` is the slot of `myproc()`. An operation that ends in
-- `sched()` returns the kernel as it is when the scheduler takes over.
mod Sleep
mod Birth
mod Death
unfoldable pub use Sleep.*
unfoldable pub use Birth.*
unfoldable pub use Death.*
