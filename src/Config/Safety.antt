-- ===== src/Config/Safety.antt =====
-- What a sync guarantees in a cluster whose services behave as documented, with failures anywhere.
pub mod Cluster
pub mod Views
pub mod Reads
pub mod Writes
pub mod Calls
pub mod Steps
pub mod Branches
pub mod Handler
