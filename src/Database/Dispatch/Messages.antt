-- ===== src/Database/Dispatch/Messages.antt =====
-- The codes that the functions of db.c return, and the messages of db_error.
use rate_engine.Base.{ℤ, Option}
use rate_engine.Database.Dispatch.{Conn, Db}
use rate_engine.Database.Dispatch.Speaks.{Speaks, AllSome, EngineSpeaks}

module _ {W : Type 0} (P : ℤ → Type 0) (conn : Conn W) where
  abbrev DbSpeaks : Option (Db W) → Type 0
  DbSpeaks ptr = AllSome (λ db. EngineSpeaks P db.engine) ptr
