-- ===== src/Offline.antt =====
-- The theorems on the rating of records, on their store and on the escaping of their texts, at a
-- small database.
use rate_engine.Base.{
  true, ◌≤◌, ◌⊎◌, ◌>>=◌, text_eq, ceil_div, ◌*ℤ◌, starts_with, ℕ, ◌≡◌, refl, false, List, [], ◌∷◌,
  Option, none, some, arith, pos, negsuc, ◌+ℤ◌, ◌-ℤ◌, text, Gives, length, ◌++◌,
}
use rate_engine.Base.Clock.{Tm}
use rate_engine.CdrMediator.Cdr.{Cdr, zero_cdr, cdr_tbl, read_row}
use rate_engine.CdrMediator.Filter.{
  Filter, filtered, cdr_called_number_filtering_match, NoneApply, IsFirst,
  cdr_called_number_filtering_match-IsFirst,
}
use rate_engine.CdrMediator.Store.{insert_fields, cdr_add_in_db_query}
use rate_engine.CdrMediator.Store.Stored.{insert, select_row, read_row-cdr_add_in_db_query}
use rate_engine.Rating.Data.{CalcFunction, Pcard, Rate, Call, Racc, zero_call}
use rate_engine.Rating.World.{Host, World}
use rate_engine.Rating.Calc.{
  calc_cprice_2, calc_cprice_group, append_free_billsec, charge, charge_tier, cprice_loop, units,
}
use rate_engine.Rating.Search.{
  rt_data_q_rate, rt_data_q_rate_sql, prefix_loop, rate_matches, rt_data_q_chk_rate_periods,
  rt_chk_tr_opt, tariff_free_limit, tariff_has_tc, query_free_billsec, rt_data_q_tariff_sql,
  rt_chk_bplan_periods,
}
use rate_engine.Rating.Account.{
  rt_rate_searching, prerate, rt_prerating_process, is_unpaid, check_date_valid, load_balance,
  with_bal, with_free_billsec, with_free_sum,
}
use rate_engine.Rating.Ledger.{Log, Books, add_rating, set_leg, set_balance}
use rate_engine.Rating.Exec.{count_sms_on, round_call, rate_call, close, rt_exec}
use rate_engine.Rating.Exec.Same.{legs, frees}
use rate_engine.Rating.Exec.Carded.{rt_exec-marks}
use rate_engine.Rating.Exec.Charged.{charges}
use rate_engine.Rating.Exec.Billed.{priced_part, log_of, rt_exec-charges}
use rate_engine.Rating.Exec.Free.{has_row, rows}
use rate_engine.Rating.Exec.Double.{rate_call-lost}
use rate_engine.Rating.Batch.{threads_loop, single_loop}
use rate_engine.Rating.Batch.Threads.{threads_loop-single_loop}
use rate_engine.Database.Escape.{
  escape_loop, db_sql_escape, read_literal, stored_text, quote, db_sql_escape-reads,
}

abbrev per_second : CalcFunction
per_second = record { step = 1; delta = 1; fee = 2; iterations = 0 }

abbrev any_rate : Rate
any_rate = record {
  id = 1;
  prefix_id = 1;
  prefix = text "&";
  tariff_id = 7;
  start_period = 0;
  end_period = 0;
  free_billsec_id = 0;
}

abbrev card : Pcard
card = record {
  id = 11;
  amount = pos 500;
  start = text "2024-05-01";
  end = text "2024-06-01";
  status = 1;
  type = 1;
  call_number = pos 2;
}

abbrev pub record_5 : Call
record_5 = record zero_call {
  clg = text "200";
  cld = text "35929000";
  call_uid = text "u1";
  epoch = 900;
  ts = 900;
  cdr_id = pos 5;
  billsec = pos 90;
  rating_mode_id = 1;
}

-- An account with a card or without one.
abbrev account : Option Pcard → Racc
account pcard = record {
  rtm = 1;
  bal = record { id = 9; amount = pos 100 };
  bacc = record {
    id = 3;
    username = text "ann";
    cdr_server_id = 1;
    round_mode_id = 0;
    billing_day = 1;
    day_of_payment = 0;
    pcard = pcard;
  };
  bplan = record { id = 5; bplan_start_period = 0; bplan_end_period = 0; rates_ptr = none };
  call = record_5;
}

-- The account with its tariff and 60 free seconds.
abbrev free_account : ℕ → Racc
free_account billsec = record (account (some card)) {
  bplan = record {
    id = 5;
    bplan_start_period = 0;
    bplan_end_period = 0;
    rates_ptr = some (record { rates = any_rate ∷ []; calc_funcs = some (per_second ∷ []) });
  };
  call = record record_5 { billsec = pos billsec; free_billsec_limit = pos 60; rate_id = 1 };
}

abbrev noon : ℕ → Tm
noon t = record { sec = 0; min = 0; hour = 12; mday = 5; mon = 4; year = 124; wday = 0 }

abbrev pub host : Host Log
host = record {
  has_dbp = true;
  now = 1000;
  localtime = noon;
  scan_date = λ s. (2024, 5, 1);
  stray_day = negsuc 0;
  stray_days = 0;
  billing_day = 1;
  bal_num = 2;
  call_maxsec_limit = 3660;
  k_num = 1;
  k_den = 20;
  has_time_cond = λ db pre. false;
  time_conds = λ db pre. none;
  free_billsec = λ db pre. none;
  tariff_rows = λ db id. some (per_second ∷ []);
  rate_rows = λ db id. some (any_rate ∷ []);
  pcard_rows = λ db id. some (card ∷ []);
  racc = λ db pre. some (account none);
  bal_count = λ db bacc. 0;
  bal = λ db bacc start end. some (record { id = 9; amount = pos 100 });
  free_used = λ db rtp start end. none;
  free_sum = λ db rtp. none;
  pcard_set = λ db id status. db;
}

abbrev books : Books
books = record {
  is_rated = λ db pre bacc. has_row db pre.cdr_id bacc.id pre.rate_id;
  new_id = λ db. some (pos 77);
  free_id = λ db bal_id free_id. none;
  sms_count = λ db rtp start end. none;
}

abbrev world : Log → World Log
world db = record { db = db; cache = none }

rt_exec-marks_example :
    Gives
      (λ (w1, rtp1). (legs w1.db ≡ 1) × (record_5.bal_id ≡ 0 → frees w1.db ≡ 0))
      (rt_exec books host b'a' (world []) (account (some card)))
unfolding legs frees
rt_exec-marks_example =
    rt_exec-marks books host b'a' (world []) (account (some card)) card refl (refl, refl)

rt_exec-charges_example :
    let (searched, priced, ret) = priced_part books host (world []) (account (some card)) in
    log_of (rt_exec books host b'a' (world []) (account (some card)))
    ≡ some
        (set_balance 9 (pos 280) ∷ set_leg b'a' (pos 77) (pos 5) ∷ add_rating priced.call 3 11 ∷ [])
unfolding calc_cprice_group calc_cprice_2 count_sms_on round_call rt_rate_searching prerate
    rt_data_q_rate rt_data_q_rate_sql rt_prerating_process is_unpaid prefix_loop rate_matches
    rt_data_q_chk_rate_periods text_eq rt_chk_tr_opt tariff_free_limit tariff_has_tc
    query_free_billsec rt_data_q_tariff_sql ceil_div ◌*ℤ◌ ◌+ℤ◌ ◌-ℤ◌ check_date_valid load_balance
    with_bal with_free_billsec with_free_sum append_free_billsec charge charge_tier cprice_loop
    units starts_with rt_chk_bplan_periods has_row
rt_exec-charges_example =
    rt_exec-charges books host b'a' (world []) (account (some card)) (per_second ∷ []) card (pos 77)
      (refl, refl) refl refl refl refl refl refl refl refl

rate_call-lost_example :
    Gives
      (λ (db1, done).
        (rows db1 ≡ 1)
        × (charges db1 ≤ 1)
        × ((close books host b'a' (db1, done)).0 ≡ set_leg b'a' (negsuc 0) (pos 5) ∷ db1))
      (rate_call books host [] (free_account 90))
unfolding calc_cprice_group calc_cprice_2 count_sms_on round_call rt_rate_searching prerate
    rt_data_q_rate rt_data_q_rate_sql rt_prerating_process is_unpaid prefix_loop rate_matches
    rt_data_q_chk_rate_periods text_eq rt_chk_tr_opt tariff_free_limit tariff_has_tc
    query_free_billsec rt_data_q_tariff_sql ceil_div ◌*ℤ◌ ◌+ℤ◌ ◌-ℤ◌ check_date_valid load_balance
    with_bal with_free_billsec with_free_sum append_free_billsec charge charge_tier cprice_loop
    units starts_with rt_chk_bplan_periods has_row rows charges
rate_call-lost_example =
    rate_call-lost books host b'a' [] (free_account 90) card (λ db rtp h. h) refl
      (refl, refl, refl, refl, refl) refl

abbrev batch : List Cdr
batch =
    record zero_cdr { id = 5; cdr_rec_type_id = 3; billsec = 90 }
    ∷ record zero_cdr { id = 6; cdr_rec_type_id = 3; billsec = 30 }
    ∷ []

threads_loop-single_loop_example :
    threads_loop books host length b'a' batch 2 2 (world [])
    ≡ single_loop books host length b'a' batch (world []) 0
threads_loop-single_loop_example =
    threads_loop-single_loop books host length b'a' batch 2 (world []) (omega arith)

db_sql_escape-reads_example :
    read_literal false (text "o''neil" ++ quote ∷ text ",1") ≡ some (text "o'neil", text ",1")
unfolding db_sql_escape stored_text escape_loop ◌>>=◌
db_sql_escape-reads_example =
    db_sql_escape-reads false (text "o'neil") 32 (text "o''neil") (text ",1") refl refl

abbrev plus : Filter
plus = record {
  id = 4;
  filtering_prefix = text "+";
  filtering_number = 1;
  replace_str = text "00";
  cdr_server_id = 0;
  len = 0;
}

abbrev international : Cdr
international = record zero_cdr {
  call_uid = text "it's";
  called_number = text "+3592";
  billsec = 90;
}

cdr_called_number_filtering_match-IsFirst_example :
    let matched = cdr_called_number_filtering_match (plus ∷ []) international in
    (NoneApply (plus ∷ []) (text "+3592") × (matched ≡ international))
    ⊎ ((f : Filter) × IsFirst f (plus ∷ []) (text "+3592")
        × (matched ≡ record international {
          called_number = filtered f (text "+3592");
          prefix_filter_id = f.id;
        }))
cdr_called_number_filtering_match-IsFirst_example =
    cdr_called_number_filtering_match-IsFirst (plus ∷ []) international

read_row-cdr_add_in_db_query_example :
    Gives
      (λ columns.
        read_row cdr_tbl (select_row 8 cdr_tbl columns) zero_cdr ≡ record international { id = 8 })
      (cdr_add_in_db_query international >>= insert false)
unfolding insert_fields stored_text
read_row-cdr_add_in_db_query_example =
    read_row-cdr_add_in_db_query false international 8 (ground arith) (omega arith, omega arith)
