-- ===== src/Rating/Racc/Tests.antt =====
-- The theorems on the query of accounts, at small answers.
use rate_engine.Base.{
  print_d, emit, if◌then◌else◌, ◌==◌, ◌>>=◌, ◌≡◌, refl, [], ◌∷◌, some, arith, text, Gives,
}
use rate_engine.Database.Escape.{db_sql_escape, escape_loop}
use rate_engine.Rating.Data.{Call}
use rate_engine.Rating.World.{World}
use rate_engine.Rating.Ledger.{Log}
use rate_engine.Rating.Cache.Kinds.{RaccData, rt_cache_init, rt_cache_racc_get}
use rate_engine.Rating.Cache.Table.{table_get, chain_get, hash_str, hash_from}
use rate_engine.Rating.Racc.{
  PlanRow, TrunkRow, RaccRows, mode_query, plan_query, read_rows, read_columns, racc_rows,
  plan_columns, with_data, data_of, new_racc, rt_data_q_racc, racc_key,
}
use rate_engine.Rating.Racc.Servers.{rt_data_q_racc-shared}
use rate_engine.Offline.{record_5}

abbrev trunk : TrunkRow
trunk = record {
  billing_account_id = 3;
  bill_plan_id = 5;
  clg_nadi = 4;
  cld_nadi = 2;
  start_period = 0;
  end_period = 0;
  billing_day = 1;
  round_mode_id = 1;
}

abbrev row_200 : PlanRow
row_200 = record {
  billing_account_id = 3;
  bill_plan_id = 5;
  start_period = 0;
  end_period = 0;
  billing_day = 1;
  round_mode_id = 1;
  day_of_payment = 0;
}

abbrev pub account_3 : RaccData
account_3 = record {
  bacc_id = 3;
  bplan_id = 5;
  bplan_start_period = 0;
  bplan_end_period = 0;
  billing_day = 1;
  round_mode_id = 1;
  day_of_payment = 0;
}

-- Server 0 has an account of the number 200, the others have none.
abbrev pub answers : RaccRows Log
answers = record {
  now = 1000;
  plan_rows = λ db table cond server. if server == 0 then row_200 ∷ [] else [];
  sms_rows = λ db table cond server. [];
  trunk_rows = λ db table cond server clg cld. trunk ∷ [];
}

abbrev trunk_call : Call
trunk_call = record record_5 { rating_mode_id = 5; src_tgroup = text "tg1" }

abbrev world : World Log
world = record { db = []; cache = some rt_cache_init }

-- The same number on another server.
abbrev pub other_call : Call
other_call = record record_5 { cdr_server_id = 2 }

rt_data_q_racc-shared_example :
    Gives
      (λ (w1, rtp).
        (rtp ≡ with_data account_3 (new_racc record_5))
        × Gives
            (λ (w2, rtp'). rtp' ≡ with_data account_3 (new_racc other_call))
            (rt_data_q_racc answers (record w1 { db = [] }) other_call))
      (rt_data_q_racc answers world record_5)
unfolding mode_query read_rows read_columns racc_rows plan_columns with_data data_of db_sql_escape
    escape_loop ◌>>=◌ racc_key print_d emit rt_cache_racc_get table_get chain_get hash_str hash_from
rt_data_q_racc-shared_example =
    rt_data_q_racc-shared answers world rt_cache_init record_5 other_call (text "200")
      (plan_query (text "calling_number")) (plan_query (text "calling_number")) (text "200") [] refl
      refl refl refl refl (ground arith) refl refl
