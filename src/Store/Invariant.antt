-- ===== src/Store/Invariant.antt =====
-- What holds of the tables between any two statements of the store (internal/store/postgres), and
-- that every method keeps it.
pub mod Backed
pub mod Queueing
pub mod Finishing
pub mod Creating
pub mod Kept
pub mod Ended
pub mod EndedReported
pub mod EndedKept
