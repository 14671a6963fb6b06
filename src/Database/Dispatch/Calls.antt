-- ===== src/Database/Dispatch/Calls.antt =====
-- The functions of db/db.c that pass an operation on to an engine, the retries of db_command, and the binding of an
-- engine.
use rate_engine.Base.{
  ℕ, zero, suc, Bool, ◌++◌, Option, none, some, if◌then◌else◌, ℤ, pos, ltb_ℤ, ◌==ℤ◌, not, Text,
  text, is_set,
}
use rate_engine.Database.Dispatch.{
  db_err_dbp_nul, db_err_conn_nul, db_err_conn_nook, db_err_engname_nul, db_err_engbind_nul,
  db_err_type_unk, db_err_func_unk, Conn, Driver, Engine, Db, Ret, has_prefix, on_sql, on_nosql,
  with_conn, only_sql, only_nosql, either, sql, nosql, unknown,
}

module _ {W : Type 0} (conn : Conn W) where
  unfoldable pub db_connect : Option (Db W) → Driver W
  db_connect ptr = with_conn (λ db. either (λ api. api.connect) (λ api. api.connect) db.engine) ptr

  unfoldable pub db_status : Option (Db W) → Driver W
  db_status ptr = with_conn (λ db. either (λ api. api.status) (λ api. api.status) db.engine) ptr

  -- `close` returns nothing that is read.
  unfoldable pub closing : Option (Driver W) → Option (Driver W)
  closing none = none
  closing (some f) = some (λ w. (pos 0, (f w).1))

  unfoldable pub db_close : Option (Db W) → Driver W
  db_close ptr =
      with_conn (λ db. either (λ api. closing api.close) (λ api. closing api.close) db.engine) ptr

  unfoldable pub db_free_result : Option (Db W) → Driver W
  db_free_result ptr =
      with_conn
        (λ db w.
          if conn.has_res w
          then either (λ api. api.free_result) (λ api. api.free_reply) db.engine w
          else (pos 0, w))
        ptr

  -- The result is freed, and its code lost.
  abbrev pub freeing : Option (Db W) → Ret W → Ret W
  freeing ptr (ret, w) = (ret, (db_free_result ptr w).1)

  abbrev pub freeing_if_ok : Option (Db W) → Ret W → Ret W
  freeing_if_ok ptr (ret, w) = if ret ==ℤ pos 0 then freeing ptr (ret, w) else (ret, w)

  -- A function that is not there is an early return, before the result is freed.
  unfoldable pub query_by : Option (Db W) → Text → Bool → Engine W → Driver W
  query_by ptr query clear (sql api) w =
      on_sql (λ a. a.query) (λ f v. if clear then freeing ptr (f query v) else f query v) api w
  query_by ptr query clear (nosql api) w =
      if clear then freeing ptr (db_err_type_unk, w) else (db_err_type_unk, w)
  query_by ptr query clear unknown w =
      if clear then freeing ptr (db_err_type_unk, w) else (db_err_type_unk, w)

  unfoldable pub db_query : Option (Db W) → Text → Bool → Driver W
  db_query ptr query clear = with_conn (λ db. query_by ptr query clear db.engine) ptr

  -- A statement that does not begin with its word is refused.
  unfoldable pub statement : Text → (Ret W → Ret W) → Option (Db W) → Text → Driver W
  statement word after ptr query =
      with_conn
        (λ db.
          only_sql
            (on_sql (λ a. a.query)
              (λ f v. if has_prefix query word then after (f query v) else (db_err_func_unk, v)))
            db.engine)
        ptr

  unfoldable pub db_select : Option (Db W) → Text → Driver W
  db_select ptr query = statement (text "select") (λ r. r) ptr query

  unfoldable pub db_insert : Option (Db W) → Text → Driver W
  db_insert ptr query = statement (text "insert") (freeing_if_ok ptr) ptr query

  unfoldable pub db_update : Option (Db W) → Text → Driver W
  db_update ptr query = statement (text "update") (freeing_if_ok ptr) ptr query

  unfoldable pub db_fetch : Option (Db W) → Driver W
  db_fetch ptr =
      with_conn (λ db. only_sql (on_sql (λ a. a.fetch) (λ f v. freeing_if_ok ptr (f v))) db.engine)
        ptr

  unfoldable pub db_set : Option (Db W) → Text → Text → Driver W
  db_set ptr key value =
      with_conn
        (λ db.
          only_nosql
            (on_nosql (λ a. a.set)
              (λ f v. let (ret, w) = freeing ptr (f key value v) in (ret, conn.drop_result w)))
            db.engine)
        ptr

  unfoldable pub db_get : Option (Db W) → Text → Driver W
  db_get ptr key =
      with_conn (λ db. only_nosql (on_nosql (λ a. a.get) (λ f v. f key v)) db.engine) ptr

  -- `loop:`, with `n` failed connects left; `k` is `again:` with the `n` that is left.
  unfoldable pub reconnect : Option (Db W) → (ℕ → Driver W) → ℕ → Driver W
  reconnect ptr k zero w = (db_err_conn_nook, w)
  reconnect ptr k (suc n) w =
      let closed = (db_close ptr (db_free_result ptr w).1).1 in
      let (ret, w1) = db_connect ptr closed in
      let failed = reconnect ptr k n w1 in
      let back = k (suc n) (db_status ptr w1).1 in if ltb_ℤ ret (pos 0) then failed else back

  -- `again:`, with `c` commands and `n` failed connects left.
  unfoldable pub again : Option (Db W) → (Text → Driver W) → Text → ℕ → ℕ → Driver W
  again ptr f str zero n w = (db_err_conn_nook, w)
  again ptr f str (suc c) n w =
      let (ret, w1) = f str w in
      let retried = reconnect ptr (again ptr f str c) n w1 in
      if ltb_ℤ ret (pos 0) then retried else (ret, w1)

  unfoldable pub db_command : Option (Db W) → Text → Driver W
  db_command ptr str =
      with_conn (λ db. only_nosql (on_nosql (λ a. a.command) (λ f. again ptr f str 5 5)) db.engine)
        ptr

unfoldable pub bind_by : {W : Type 0} → Option (Db W → ℤ × Db W) → Db W → ℤ × Option (Db W)
bind_by none db = (db_err_engbind_nul, some db)
bind_by (some bind) db = let (ret, db1) = bind db in (ret, some db1)

-- `find` is `mod_find_module` and `mod_find_sim`: the bind function of a name in a library.
unfoldable pub db_engine_bind :
    {W : Type 0}
    → (Text → Text → Option (Db W → ℤ × Db W))
    → Text
    → Option (Db W)
    → ℤ × Option (Db W)
db_engine_bind find enginename none = (db_err_dbp_nul, none)
db_engine_bind find enginename (some db) =
    let bound =
      bind_by (find (enginename ++ text ".so") (text "db_" ++ enginename ++ text "_bind_api")) db in
    if not db.has_conn
    then (db_err_conn_nul, some db)
    else if is_set enginename
    then bound
    else (db_err_engname_nul, some db)
