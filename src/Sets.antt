-- ===== src/Sets.antt =====
-- crawler/set.go and crawler/timedset.go, over a model of Go's `sync.Map`.
pub mod SyncMap
pub mod Time
pub mod Set
pub mod TimedSet
