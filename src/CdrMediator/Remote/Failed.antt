-- ===== src/CdrMediator/Remote/Failed.antt =====
-- A round of the reader whose select has no result.
use rate_engine.Base.{
  ℕ, ◌+◌, ◌-◌, ◌*◌, ◌/◌, ◌≤◌, ◌<◌, ◌≡◌, refl, ◌∙◌, ap, true, [], ◌∷◌, none, some, arith, Text,
}
use rate_engine.CdrMediator.Remote.{
  Sched, StorageProfile, Databases, cdr_storage_sched_d, cdr_storage_sched_m, sched_ts_of,
  cdr_storage_sched_set_ts, cdr_storage_sched_get, cdr_storage_get_remote_cdrs, reschedule, ts_at,
  sched_rows, cdr_storage_reader, cdr_storage_sql_query_parser,
}
use rate_engine.CdrMediator.Remote.Covered.{IsSchedTable, sched_rows-some}

-- The start of the day of a time.
abbrev pub day_of : ℕ → ℕ → ℕ
day_of start chk = (chk - start) / cdr_storage_sched_d * cdr_storage_sched_d + start

-- On the day of the last reading, when that day was begun, a reading starts a call and a minute
-- before it.
set_ts-same_day :
    (call_maxsec_limit sched_ts chk : ℕ) (row : Sched)
    → 0 < row.start
    → row.start < row.last
    → 1 < (chk - row.start) / cdr_storage_sched_d
    → day_of row.start chk ≤ row.last
    → day_of row.start chk ≤ row.ts
    → cdr_storage_sched_set_ts call_maxsec_limit sched_ts chk (row ∷ [])
      ≡ row.last - (call_maxsec_limit + cdr_storage_sched_m)
unfolding cdr_storage_sched_set_ts cdr_storage_sched_get sched_ts_of
set_ts-same_day call_maxsec_limit sched_ts chk row p q d l t = ground (arith, p, q, d, l, t)

module _ {W : Type 0} (dbs : Databases W) (profile : StorageProfile) (show_ts : ℕ → Text)
    (call_maxsec_limit : ℕ) where
  failed_select :
      (query : Text) (w : W)
      → dbs.select w query ≡ none
      → cdr_storage_get_remote_cdrs dbs profile query w ≡ (w, 0)
  unfolding cdr_storage_get_remote_cdrs
  failed_select query w n = rw (cdr_storage_get_remote_cdrs, n) refl

  failed_round :
      (chk : ℕ) (w : W) (row : Sched)
      → dbs.scheds w profile.cdr_server_id ≡ some (row ∷ [])
      → (dbs.connect w).1 ≡ true
      → let ts = ts_at dbs profile show_ts call_maxsec_limit chk w in
        dbs.select (dbs.connect w).0 (cdr_storage_sql_query_parser show_ts profile ts) ≡ none
        → cdr_storage_reader dbs profile show_ts call_maxsec_limit chk w
          ≡ (dbs.set_sched (dbs.close (dbs.connect w).0) profile.cdr_server_id chk ts, true)
  unfolding cdr_storage_reader reschedule
  failed_round chk w row e c n =
      let ts =
        cdr_storage_sched_set_ts call_maxsec_limit profile.sched_ts chk
          (sched_rows dbs profile w) in
      rw
        (
          c,
          failed_select (cdr_storage_sql_query_parser show_ts profile ts) (dbs.connect w).0 n,
          sched_rows-some dbs profile show_ts call_maxsec_limit w (row ∷ []) e,
        )
        refl

  -- A round that connects and whose select has no result inserts nothing, and sets the last reading
  -- of the schedule to its time. A later round, two days or more after the start of the schedule,
  -- starts a call and a minute before the failed one, wherever the last successful one was, when the
  -- start of the later round's day is not after the failed round's time nor after the time that the
  -- failed round read from.
  pub cdr_storage_reader-failed :
      (chk chk2 : ℕ) (w : W) (row : Sched)
      → IsSchedTable dbs profile.cdr_server_id
      → dbs.scheds w profile.cdr_server_id ≡ some (row ∷ [])
      → (dbs.connect w).1 ≡ true
      → let ts = ts_at dbs profile show_ts call_maxsec_limit chk w in
        dbs.select (dbs.connect w).0 (cdr_storage_sql_query_parser show_ts profile ts) ≡ none
        → 0 < row.start
        → row.start < chk
        → 1 < (chk2 - row.start) / cdr_storage_sched_d
        → day_of row.start chk2 ≤ chk
        → day_of row.start chk2 ≤ ts_at dbs profile show_ts call_maxsec_limit chk w
        → let w2 =
            dbs.set_sched
              (dbs.close (dbs.connect w).0)
              profile.cdr_server_id
              chk
              (ts_at dbs profile show_ts call_maxsec_limit chk w) in
          (cdr_storage_reader dbs profile show_ts call_maxsec_limit chk w ≡ (w2, true))
          × (ts_at dbs profile show_ts call_maxsec_limit chk2 w2
              ≡ chk - (call_maxsec_limit + cdr_storage_sched_m))
  cdr_storage_reader-failed chk chk2 w row table e c n p q d l t =
      let ts = ts_at dbs profile show_ts call_maxsec_limit chk w in
      let moved : Sched = record { start = row.start; last = chk; ts = ts } in
      let rows =
        table.updated (dbs.close (dbs.connect w).0) row chk ts
          (table.closed (dbs.connect w).0 ∙ table.connected w ∙ e) in
      (
        failed_round chk w row e c n,
        ap (cdr_storage_sched_set_ts call_maxsec_limit profile.sched_ts chk2)
              (sched_rows-some dbs profile show_ts call_maxsec_limit _ _ rows)
            ∙ set_ts-same_day call_maxsec_limit profile.sched_ts chk2 moved p q d l t,
      )
