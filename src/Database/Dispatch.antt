-- ===== src/Database/Dispatch.antt =====
-- db/db.c: a database with the engine that it is bound to, the error codes, and how an operation is passed
-- on to the engine. An engine's functions are parameters, over the state of the connection.
pub mod Calls
pub mod Speaks
pub mod Messages
pub mod Retries
pub mod Tests
use rate_engine.Base.{
  ℕ, zero, suc, ◌+◌, Bool, true, false, ◌&&◌, List, [], ◌∷◌, ◌++◌, map, Option, none, some, leb,
  if◌then◌else◌, ℤ, pos, negsuc, ltb_ℤ, ◌==ℤ◌, not, Text, text, is_set, starts_with,
}

-- The error codes of db.h that the functions return.
abbrev pub db_err_dbp_nul : ℤ
db_err_dbp_nul = negsuc 0

abbrev pub db_err_conn_nul : ℤ
db_err_conn_nul = negsuc 1

abbrev pub db_err_conn_nook : ℤ
db_err_conn_nook = negsuc 2

abbrev pub db_err_engname_nul : ℤ
db_err_engname_nul = negsuc 6

abbrev pub db_err_engbind_nul : ℤ
db_err_engbind_nul = negsuc 7

abbrev pub db_err_sql_nul : ℤ
db_err_sql_nul = negsuc 8

abbrev pub db_err_nosql_nul : ℤ
db_err_nosql_nul = negsuc 12

abbrev pub db_err_type_unk : ℤ
db_err_type_unk = negsuc 13

abbrev pub db_err_func_unk : ℤ
db_err_func_unk = negsuc 14

abbrev pub db_err_func_nul : ℤ
db_err_func_nul = negsuc 15

-- The codes of the messages in `db_err`.
unfoldable pub db_err : List ℤ
db_err =
    db_err_dbp_nul
    ∷ db_err_conn_nul
    ∷ db_err_conn_nook
    ∷ negsuc 3
    ∷ negsuc 4
    ∷ negsuc 5
    ∷ db_err_engname_nul
    ∷ db_err_engbind_nul
    ∷ db_err_sql_nul
    ∷ negsuc 9
    ∷ negsuc 10
    ∷ negsuc 11
    ∷ db_err_nosql_nul
    ∷ db_err_type_unk
    ∷ db_err_func_unk
    ∷ db_err_func_nul
    ∷ negsuc 16
    ∷ negsuc 98
    ∷ []

-- A connection `W`: whether `conn->res` and `conn->result` hold something, and the latter dropped.
pub record Conn (W : Type 0) : Type 0 where
  pub has_res : W → Bool
  pub drop_result : W → W

-- A function of an engine returns a code.
abbrev pub Driver : Type 0 → Type 0
Driver W = W → ℤ × W

-- `db_sql_t` and `db_nosql_t`; `none` is a NULL pointer.
pub record DbSql (W : Type 0) : Type 0 where
  pub connect : Option (Driver W)
  pub query : Option (Text → Driver W)
  pub fetch : Option (Driver W)
  pub status : Option (Driver W)
  pub close : Option (Driver W)
  pub free_result : Option (Driver W)

pub record DbNosql (W : Type 0) : Type 0 where
  pub connect : Option (Driver W)
  pub command : Option (Text → Driver W)
  pub set : Option (Text → Text → Driver W)
  pub get : Option (Text → Driver W)
  pub status : Option (Driver W)
  pub close : Option (Driver W)
  pub free_reply : Option (Driver W)

-- `db_type_t` with the pointer of the union that goes with it.
pub data Engine (W : Type 0) : Type 0 where
  sql : Option (DbSql W) → Engine W
  nosql : Option (DbNosql W) → Engine W
  unknown : Engine W

-- `db_t`, without the connection.
pub record Db (W : Type 0) : Type 0 where
  pub engine : Engine W
  pub has_conn : Bool

-- The return value, and the connection after the call.
abbrev pub Ret : Type 0 → Type 0
Ret W = ℤ × W

-- `strncasecmp(query,prefix,strlen(prefix)) == 0`, for a prefix of small letters.
unfoldable pub to_lower : ℕ → ℕ
to_lower c = if leb 65 c && leb c 90 then c + 32 else c

unfoldable pub has_prefix : Text → Text → Bool
has_prefix query prefix = starts_with (map to_lower query) prefix

module _ {W : Type 0} where
  -- The tests for NULL, and the call.
  unfoldable pub call : {F : Type 0} → Option F → (F → Driver W) → Driver W
  call none k w = (db_err_func_nul, w)
  call (some f) k w = k f w

  unfoldable pub on_sql :
      {F : Type 0} → (DbSql W → Option F) → (F → Driver W) → Option (DbSql W) → Driver W
  on_sql pick k none w = (db_err_sql_nul, w)
  on_sql pick k (some api) w = call (pick api) k w

  unfoldable pub on_nosql :
      {F : Type 0} → (DbNosql W → Option F) → (F → Driver W) → Option (DbNosql W) → Driver W
  on_nosql pick k none w = (db_err_nosql_nul, w)
  on_nosql pick k (some api) w = call (pick api) k w

  -- What a function does with a `db_t` that has a connection.
  unfoldable pub with_conn : (Db W → Driver W) → Option (Db W) → Driver W
  with_conn k none w = (db_err_dbp_nul, w)
  with_conn k (some db) w = if db.has_conn then k db w else (db_err_conn_nul, w)

  unfoldable pub only_sql : (Option (DbSql W) → Driver W) → Engine W → Driver W
  only_sql k (sql api) w = k api w
  only_sql k (nosql api) w = (db_err_type_unk, w)
  only_sql k unknown w = (db_err_type_unk, w)

  unfoldable pub only_nosql : (Option (DbNosql W) → Driver W) → Engine W → Driver W
  only_nosql k (sql api) w = (db_err_type_unk, w)
  only_nosql k (nosql api) w = k api w
  only_nosql k unknown w = (db_err_type_unk, w)

  unfoldable pub either :
      (DbSql W → Option (Driver W)) → (DbNosql W → Option (Driver W)) → Engine W → Driver W
  either pick pick' (sql api) w = on_sql pick (λ f. f) api w
  either pick pick' (nosql api) w = on_nosql pick' (λ f. f) api w
  either pick pick' unknown w = (db_err_type_unk, w)
