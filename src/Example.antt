-- ===== src/Example.antt =====
-- examples/minimal/main.go: the reference server, its sink, its routes and its start. The operating
-- system (files, environment variables, sql.Open) is a parameter; the graceful shutdown is left out.
pub mod Paths
pub mod Disk
pub mod Routes
pub mod Setup
mod Tests
