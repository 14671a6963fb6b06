-- ===== src/CdrMediator.antt =====
-- mod/CDRMediator: the records of calls, and what is done to them before they are stored.
pub mod Cdr
pub mod Filter
pub mod Store
pub mod File
pub mod Remote
pub mod RecType
