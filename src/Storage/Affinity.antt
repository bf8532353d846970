-- ===== src/Storage/Affinity.antt =====
-- Sessions of storage/event_adapter.go stay at their store.
use mmmcp.Base.{text_keys}
use mmmcp.Storage.Adapter.{Adapter}
