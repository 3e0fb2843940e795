-- ===== src/Server.antt =====
-- The server: routing and services.
pub mod Timeout
pub mod Programs
pub mod Embedded
pub mod Errors
pub mod Outcome
pub mod Parsing
pub mod Linters
pub mod Analysis
