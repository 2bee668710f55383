-- ===== src/ConcurrentArray/Threads/Invariant.antt =====
-- What holds between the threads, the ring and the counters: where each product is, and who may sleep.
mod Defs
mod Run
mod Waking
pub use Defs.*
pub use Run.{Run-Inv, queue_after}
pub use Waking.{Wake-Inv, spurious-Inv}
