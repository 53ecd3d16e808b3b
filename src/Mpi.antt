-- ===== src/Mpi.antt =====
-- mpi/nonblock.cc: the executor that overlaps the messages of its ranks.
mod Tests
pub mod Ranks
pub mod Network
pub mod Rank
pub mod Memory
pub mod World
