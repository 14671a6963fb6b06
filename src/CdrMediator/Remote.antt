-- ===== src/CdrMediator/Remote.antt =====
-- mod/CDRMediator/cdr_storage.c and cdr_storage_sched.c, on SQL: the records of calls that are read
-- from the database of a switch, and the schedule of the reading. Times are seconds since 1970, and
-- a time before that is 1970. Buffers are long enough; the engine of the switch is SQL.
pub mod Covered
pub mod Failed
pub mod Tests
use rate_engine.Base.{
  ℕ, ◌+◌, ◌-◌, ◌*◌, ◌/◌, Bool, true, false, List, [], ◌∷◌, ◌++◌, Option, none, some, ltb, leb, ◌==◌,
  if◌then◌else◌, Text, text, is_set, length, print_d,
}
use rate_engine.CdrMediator.Cdr.{Cdr, zero_cdr}
use rate_engine.CdrMediator.Filter.{Filter}
use rate_engine.CdrMediator.Store.{Value, cdr_add_in_db}

-- CDR_STORAGE_SCHED_M and CDR_STORAGE_SCHED_D.
abbrev pub cdr_storage_sched_m : ℕ
cdr_storage_sched_m = 60

abbrev pub cdr_storage_sched_d : ℕ
cdr_storage_sched_d = 86400

-- `cdr_storage_sched_t`, as it is stored.
pub record Sched : Type 0 where
  pub start : ℕ
  pub last : ℕ
  pub ts : ℕ

-- `cdr_storage_col_t`.
pub record Col : Type 0 where
  pub col_name : Text
  pub func : Cdr → Text → Cdr

-- `cdr_storage_profile_t`; `sched_ts` is `cdr_sched_ts` as a time, and `cols` ends before the
-- zeroed column.
pub record StorageProfile : Type 0 where
  pub sched_ts : ℕ
  pub cdr_table : Text
  pub sql_col_where : Text
  pub is_ts : Bool
  pub sql_where_const : Text
  pub cols : List Col
  pub filters : Option (List Filter)
  pub cdr_server_id : ℕ
  pub cdr_rec_type_id : ℕ

-- The two databases: the select of the schedules of a server, their insert and update, which may do
-- nothing, the insert of a record, and the connect, the select and the close of the remote one. A
-- select without a result is `none`.
pub record Databases (W : Type 0) : Type 0 where
  pub scheds : W → ℕ → Option (List Sched)
  pub add_sched : W → ℕ → Sched → W
  pub set_sched : W → ℕ → ℕ → ℕ → W
  pub insert : W → List (Text × Value) → W × Bool
  pub connect : W → W × Bool
  pub select : W → Text → Option (List (List Text))
  pub close : W → W

-- `cdr_storage_sched_get`: the last of the rows.
unfoldable pub cdr_storage_sched_get : Sched → List Sched → Sched
cdr_storage_sched_get sched [] = sched
cdr_storage_sched_get sched (row ∷ rows) = cdr_storage_sched_get row rows

-- The time that the records are read from, in the days since the start: `chk` is now.
unfoldable pub sched_ts_of : ℕ → ℕ → Sched → ℕ
sched_ts_of call_maxsec_limit chk sched =
    let curr_cycle = (chk - sched.start) / cdr_storage_sched_d in
    let curr_ts = curr_cycle * cdr_storage_sched_d + sched.start in
    let last_cycle = (sched.last - sched.start) / cdr_storage_sched_d in
    if sched.start == sched.last
    then sched.start
    else if ltb 1 curr_cycle
    then (if ltb sched.last curr_ts
        then (if ltb 1 last_cycle
            then last_cycle * cdr_storage_sched_d + sched.start
            else sched.start)
        else (if leb curr_ts sched.ts
            then sched.last - (call_maxsec_limit + cdr_storage_sched_m)
            else curr_ts))
    else sched.start

-- A schedule without a start has that of the profile, and one that was never checked was at its
-- start.
abbrev pub started : ℕ → Sched → Sched
started sched_ts sched =
    let start = if sched.start == 0 then sched_ts else sched.start in
    record { start = start; last = if sched.last == 0 then start else sched.last; ts = sched.ts }

-- `cfg->ts`, of the rows of the server.
unfoldable pub cdr_storage_sched_set_ts : ℕ → ℕ → ℕ → List Sched → ℕ
cdr_storage_sched_set_ts call_maxsec_limit sched_ts chk rows =
    sched_ts_of call_maxsec_limit chk
      (started sched_ts (cdr_storage_sched_get (record { start = 0; last = 0; ts = 0 }) rows))

-- The names of the columns.
unfoldable pub add_columns : Text → List Col → Text
add_columns columns [] = columns
add_columns columns (col ∷ cols) =
    add_columns (if is_set col.col_name then columns ++ b',' ∷ col.col_name else columns) cols

unfoldable pub columns_of : List Col → Text
columns_of [] = []
columns_of (col ∷ cols) = add_columns col.col_name cols

-- `show_ts` is `convert_epoch_to_ts`.
unfoldable pub cdr_storage_sql_query_parser : (ℕ → Text) → StorageProfile → ℕ → Text
cdr_storage_sql_query_parser show_ts profile ts =
    let sql_where = if profile.is_ts then b'\'' ∷ show_ts ts ++ b'\'' ∷ [] else print_d ts in
    let sql_query =
      text "select "
      ++ columns_of profile.cols
      ++ text " from "
      ++ profile.cdr_table
      ++ text " where "
      ++ profile.sql_col_where
      ++ text " >= "
      ++ sql_where in
    if is_set profile.sql_where_const
    then sql_query ++ text " and " ++ profile.sql_where_const
    else sql_query

-- A row has a value for each column.
unfoldable pub put_cols : List Col → List Text → Cdr → Cdr
put_cols [] row cdr = cdr
put_cols (col ∷ cols) [] cdr = cdr
put_cols (col ∷ cols) (txt ∷ row) cdr = put_cols cols row (col.func cdr txt)

unfoldable pub remote_cdr : StorageProfile → List Text → Cdr
remote_cdr profile row = put_cols profile.cols row (record zero_cdr {
  cdr_server_id = profile.cdr_server_id;
  cdr_rec_type_id = profile.cdr_rec_type_id;
})

module _ {W : Type 0} (dbs : Databases W) (profile : StorageProfile) where
  -- The records that were inserted are counted.
  unfoldable pub insert_row : List Text → W × ℕ → W × ℕ
  insert_row row (w, p) = elim (cdr_add_in_db profile.filters (remote_cdr profile row)) [
    | none ↦ (w, p)
    | some statement ↦ let (w1, ok) = dbs.insert w statement in (w1, if ok then p + 1 else p)
  ]

  unfoldable pub insert_rows : List (List Text) → W × ℕ → W × ℕ
  insert_rows [] s = s
  insert_rows (row ∷ rows) s = insert_rows rows (insert_row row s)

  unfoldable pub cdr_storage_get_remote_cdrs : Text → W → W × ℕ
  cdr_storage_get_remote_cdrs sql_query w = elim (dbs.select w sql_query) [
    | none ↦ (w, 0)
    | some rows ↦ insert_rows rows (w, 0)
  ]

  -- A select of the schedules without a result counts as no rows.
  unfoldable pub sched_rows : W → List Sched
  sched_rows w = elim (dbs.scheds w profile.cdr_server_id) [ none ↦ [] | some rows ↦ rows ]

  -- The schedule of the next reading.
  unfoldable pub reschedule : ℕ → ℕ → List Sched → W → W
  reschedule ts chk [] w =
      dbs.add_sched w profile.cdr_server_id
        (record { start = profile.sched_ts; last = chk; ts = ts })
  reschedule ts chk (row ∷ rows) w = dbs.set_sched w profile.cdr_server_id chk ts

  module _ (show_ts : ℕ → Text) (call_maxsec_limit : ℕ) where
    abbrev pub ts_at : ℕ → W → ℕ
    ts_at chk w = cdr_storage_sched_set_ts call_maxsec_limit profile.sched_ts chk (sched_rows w)

    -- A round of the reader at the time `chk`, and whether it connected.
    unfoldable pub cdr_storage_reader : ℕ → W → W × Bool
    cdr_storage_reader chk w =
        let ts = ts_at chk w in
        let sql_query = cdr_storage_sql_query_parser show_ts profile ts in
        let (w1, ok) = dbs.connect w in
        let (w2, p) = cdr_storage_get_remote_cdrs sql_query w1 in
        if ok then (reschedule ts chk (sched_rows w) (dbs.close w2), true) else (w1, false)
