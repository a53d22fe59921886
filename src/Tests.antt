-- ===== src/Tests.antt =====
-- The theorems at concrete inputs.
mod Queues
mod Crawls
mod Launches
mod Pages
mod Codec
mod Pools
mod Races
mod Services
mod Delivery
mod Clusters
mod Systems
