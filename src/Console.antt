-- ===== src/Console.antt =====
-- cmd/console: what its screens compute apart from the database and the drawing.
pub mod Paging
pub mod Format
pub mod Session
pub mod Curl
