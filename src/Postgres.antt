-- ===== src/Postgres.antt =====
-- The postgres subpackage: the two stores over one PostgreSQL database.
pub mod Database
pub mod Migrations
pub mod Tokens
pub mod Imports
