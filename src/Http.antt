-- ===== src/Http.antt =====
-- The HTTP server and client of src/http.
pub mod Method
pub mod Router
pub mod Query
pub mod Server
pub mod Pool
pub mod Request
pub mod Response
pub mod Exchange
pub mod Threads
pub mod Client
mod Tests
