-- ===== src/Tests.antt =====
-- Runs of the models at concrete inputs, which the theorems apply to.
pub mod Names
pub mod Configs
pub mod Managers
pub mod Events
pub mod Catalogs
pub mod Pages
pub mod Activities
pub mod Environments
pub mod Registries
pub mod Stores
pub mod Searches
pub mod Pools
pub mod Calls
pub mod Challenges
