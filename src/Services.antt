-- ===== src/Services.antt =====
-- The HTTP service: services/http/.
pub mod Client
pub mod Server
pub mod Register
