-- ===== src/Atomic.antt =====
-- The programs of atomic/: threads that count the global `gnum` down.
pub mod Claim
pub mod Locked
pub mod Race
pub mod Decrement
