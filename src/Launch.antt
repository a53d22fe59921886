-- ===== src/Launch.antt =====
-- crawler/main.go and the start of the other processes in crawler/crawler.go: the arguments of a
-- process, the identifiers of nodes as text, and where processes run. Texts are lists of bytes.
pub mod Hex
pub mod Args
pub mod Spawn
pub mod Stores
pub mod Lead
pub mod Join
pub mod Main
