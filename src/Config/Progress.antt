-- ===== src/Config/Progress.antt =====
-- What a sync brings about when its calls succeed.
pub mod Services
pub mod Steps
pub mod Finalizer
pub mod Branches
pub mod Handler
pub mod Converge
pub mod Deletion
pub mod Stuck
pub mod Move
