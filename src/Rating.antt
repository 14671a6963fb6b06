-- ===== src/Rating.antt =====
-- mod/Rating: rating of calls and the online limit.
pub mod Data
pub mod Mode
pub mod Calc
pub mod TimeCond
pub mod Pcard
pub mod Cache
pub mod World
pub mod Search
pub mod Account
pub mod Racc
pub mod Maxsec
pub mod Ledger
pub mod Exec
pub mod Batch
pub mod Workers
pub mod Tests
