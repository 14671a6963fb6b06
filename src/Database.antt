-- ===== src/Database.antt =====
-- db/db.c: what the engines share of the access to a database.
pub mod Escape
pub mod Dispatch
