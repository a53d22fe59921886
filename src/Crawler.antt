-- ===== src/Crawler.antt =====
-- crawler/crawler.go and crawler/msg.go: one crawler process.
-- Each function is one step; Crawler/Pool has the goroutines that call them, in any order.
pub mod Database
pub mod Link
pub mod Message
pub mod State
pub mod Valid
pub mod Handlers
pub mod Claims
pub mod NextUrl
pub mod Response
pub mod Pool
pub mod Known
pub mod Exchange
pub mod Delivery
pub mod Exclusion
pub mod Race
pub mod Cluster
pub mod System
