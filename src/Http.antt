-- ===== src/Http.antt =====
-- The HTTP front end, at the root of the repository.
pub mod Activity
pub mod Dispatch
