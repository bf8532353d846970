-- ===== src/Storage.antt =====
-- storage: persistent event streams.
pub mod EventStore
pub mod Options
pub mod Transactions
pub mod Platform
pub mod Dsn
pub mod Keys
pub mod Adapter
pub mod Affinity
pub mod Stores
pub mod Opening
