-- ===== src/CdrMediator/Remote/Tests.antt =====
-- Rounds of the reader of a remote database: a world is the schedules and the number of the records
-- inserted, and has one schedule at most.
use rate_engine.Base.{
  ℕ, suc, ◌≡◌, refl, ap, ◌≤◌, true, List, [], ◌∷◌, map, Option, none, some, arith, Text, text,
}
use rate_engine.CdrMediator.Remote.{
  Sched, Col, StorageProfile, Databases, ts_at, cdr_storage_reader, cdr_storage_sql_query_parser,
  columns_of, add_columns, cdr_storage_sched_set_ts, cdr_storage_sched_get, sched_ts_of, sched_rows,
}
use rate_engine.CdrMediator.Remote.Covered.{IsSchedTable, IsCovered, rounds, rounds-covers}
use rate_engine.CdrMediator.Remote.Failed.{day_of, cdr_storage_reader-failed}

abbrev World : Type 0
World = List Sched × ℕ

abbrev moved : ℕ → ℕ → List Sched → List Sched
moved chk ts rows = map (λ (r : Sched). record { start = r.start; last = chk; ts = ts }) rows

abbrev uid_col : Col
uid_col = record { col_name = text "uniqueid"; func = λ cdr txt. record cdr { call_uid = txt } }

abbrev cld_col : Col
cld_col = record { col_name = text "dst"; func = λ cdr txt. record cdr { called_number = txt } }

abbrev profile : StorageProfile
profile = record {
  sched_ts = 1;
  cdr_table = text "cdr";
  sql_col_where = text "calldate";
  is_ts = true;
  sql_where_const = text "disposition = 'ANSWERED'";
  cols = uid_col ∷ cld_col ∷ [];
  filters = none;
  cdr_server_id = 7;
  cdr_rec_type_id = 0;
}

-- A select that answers `answer`.
abbrev dbs_of : Option (List (List Text)) → Databases World
dbs_of answer = record {
  scheds = λ (rows, n) server. some rows;
  add_sched = λ (rows, n) server row. (row ∷ rows, n);
  set_sched = λ (rows, n) server chk ts. (moved chk ts rows, n);
  insert = λ (rows, n) statement. ((rows, suc n), true);
  connect = λ w. (w, true);
  select = λ w query. answer;
  close = λ w. w;
}

abbrev midnight : ℕ → Text
midnight t = text "2026-01-01 00:00:00"

query_test :
    cdr_storage_sql_query_parser midnight profile 5
    ≡ text
        "select uniqueid,dst from cdr where calldate >= '2026-01-01 00:00:00' and disposition = 'ANSWERED'"
unfolding cdr_storage_sql_query_parser columns_of add_columns
query_test = refl

dbs_of-IsSchedTable : (answer : Option (List (List Text))) → IsSchedTable (dbs_of answer) 7
dbs_of-IsSchedTable answer = record {
  added = λ w row e. ap (λ o. elim o [ none ↦ none | some rows ↦ some (row ∷ rows) ]) e;
  updated =
      λ w row chk ts e. ap (λ o. elim o [ none ↦ none | some rows ↦ some (moved chk ts rows) ]) e;
  inserted = λ w statement. refl;
  connected = λ w. refl;
  closed = λ w. refl;
}

abbrev one_row : Option (List (List Text))
one_row = some ((text "u-1" ∷ text "359888" ∷ []) ∷ [])

rounds-covers_example : IsCovered (dbs_of one_row) profile midnight 3600 (
    rounds
      (dbs_of one_row)
      profile
      midnight
      3600
      (100 ∷ 172900 ∷ 200000 ∷ 200100 ∷ [])
      (([], 0), []))
rounds-covers_example =
    rounds-covers (dbs_of one_row) profile midnight 3600 (100 ∷ 172900 ∷ 200000 ∷ 200100 ∷ [])
      ([], 0) (dbs_of-IsSchedTable one_row) (λ w query connected. (_, refl, tt)) refl

-- The reading of the second day of the schedule, a reading that failed, and the one after it.
abbrev second_day : Sched
second_day = record { start = 1; last = 172900; ts = 1 }

abbrev failed_world : World
failed_world = (second_day ∷ [], 0)

day_of_start : day_of 1 200100 ≤ ts_at (dbs_of none) profile midnight 3600 200000 failed_world
unfolding cdr_storage_sched_set_ts cdr_storage_sched_get sched_ts_of sched_rows
day_of_start = omega arith

cdr_storage_reader-failed_example :
    let ts = ts_at (dbs_of none) profile midnight 3600 200000 failed_world in
    let w2 : World = (moved 200000 ts (second_day ∷ []), 0) in
    (cdr_storage_reader (dbs_of none) profile midnight 3600 200000 failed_world ≡ (w2, true))
    × (ts_at (dbs_of none) profile midnight 3600 200100 w2 ≡ 196340)
cdr_storage_reader-failed_example =
    cdr_storage_reader-failed (dbs_of none) profile midnight 3600 200000 200100 failed_world
      second_day (dbs_of-IsSchedTable none) refl refl refl (omega arith) (omega arith) (omega arith)
      (omega arith) day_of_start
