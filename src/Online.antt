-- ===== src/Online.antt =====
-- The theorems on the cache, the search of rates, the grant and the table of calls, at a small
-- database.
use rate_engine.Base.{
  ◌⊎◌, ℕ, suc, ◌+◌, ◌*◌, ◌%◌, ◌^◌, ◌≤◌, ◌≡◌, refl, true, false, List, [], ◌∷◌, none, some, arith,
  ◌==◌, if◌then◌else◌, pos, negsuc, ◌-ℤ◌, Text, text, text_eq, starts_with, ◌*ℤ◌, get_elem?,
  replicate,
}
use rate_engine.Base.Clock.{Tm}
use rate_engine.Rating.Data.{CalcFunction, Pcard, Rate, Call, Racc, TimeCond, zero_call}
use rate_engine.Rating.Cache.Table.{table_get}
use rate_engine.Rating.Cache.Laws.{History, table_of, last_put, table_get-last_put}
use rate_engine.Rating.Cache.Kinds.{RaccData, rt_cache_init, int_keys, int_keys-IsLawful}
use rate_engine.Rating.World.{Host, World}
use rate_engine.Rating.Search.{
  take_rate, check_time_conds, rt_data_q_rate_sql, rt_chk_tr_opt, tariff_has_tc, tariff_free_limit,
  query_free_billsec, rt_data_q_tariff_sql, rt_data_q_chk_rate_periods, rate_matches, prefix_loop,
  rt_data_q_rate,
}
use rate_engine.Rating.Account.{is_unpaid}
use rate_engine.Rating.Calc.{calc_maxsec}
use rate_engine.Rating.Calc.Tiers.{tier_price}
use rate_engine.Rating.Maxsec.{is_above_min, grant, rt_maxsec, refuse, no_credit}
use rate_engine.Rating.Maxsec.Granted.{IsAnswer, rt_maxsec-IsAnswer}
use rate_engine.Rating.Maxsec.Shared.{shared_call, grant-shared}
use rate_engine.CallControl.Table.{
  Cc, CcMaxsec, CcTerm, CcTermStatus, CcEvent, Slot, empty_slot, cc_server_call_init,
  cc_server_call_search_racc,
}
use rate_engine.CallControl.Occupied.{free_slots}
use rate_engine.CallControl.Events.{cc_term_f, store_call, MaxsecApi, cc_maxsec_pre}
use rate_engine.CallControl.Events.Weekly.{check_time_conds-cc_maxsec_pre}
use rate_engine.CallControl.Events.Ended.{ended_slot, sweep-cc_term_f}
use rate_engine.CallControl.Events.Race.{store_call-race}
use rate_engine.CallControl.Sweep.{Billing, sweep}
use rate_engine.CallControl.Swept.{AreSwept, used_slots, sweep-AreSwept}

abbrev per_minute : CalcFunction
per_minute = record { step = 1; delta = 60; fee = 10; iterations = 0 }

abbrev rate : ℕ → Text → Rate
rate id prefix = record {
  id = id;
  prefix_id = id;
  prefix = prefix;
  tariff_id = 7;
  start_period = 0;
  end_period = 0;
  free_billsec_id = 0;
}

-- In descending order of their prefixes.
abbrev rates : List Rate
rates = rate 3 (text "3592") ∷ rate 2 (text "359") ∷ rate 1 (text "&") ∷ []

abbrev card : Pcard
card = record {
  id = 11;
  amount = pos 500;
  start = text "2024-05-01";
  end = text "2024-06-01";
  status = 1;
  type = 1;
  call_number = pos 2;
}

abbrev pub account : Racc
account = record {
  rtm = 1;
  bal = record { id = 0; amount = pos 0 };
  bacc = record {
    id = 3;
    username = text "ann";
    cdr_server_id = 1;
    round_mode_id = 1;
    billing_day = 1;
    day_of_payment = 0;
    pcard = some card;
  };
  bplan = record { id = 5; bplan_start_period = 0; bplan_end_period = 0; rates_ptr = none };
  call = zero_call;
}

abbrev noon : ℕ → Tm
noon t = record { sec = 0; min = 0; hour = 12; mday = 5; mon = 4; year = 124; wday = 0 }

-- The database is the list of the card statuses that were set; an account has `unpaid` balances.
abbrev pub Db : Type 0
Db = List (ℕ × ℕ)

abbrev pub host : ℕ → Host Db
host unpaid = record {
  has_dbp = true;
  now = 1000;
  localtime = noon;
  scan_date = λ s. (2024, 5, 1);
  stray_day = negsuc 0;
  stray_days = 0;
  billing_day = 1;
  bal_num = 2;
  call_maxsec_limit = 3660;
  k_num = 1;
  k_den = 20;
  has_time_cond = λ db pre. false;
  time_conds = λ db pre. none;
  free_billsec = λ db pre. none;
  tariff_rows = λ db id. some (per_minute ∷ []);
  rate_rows = λ db id. some rates;
  pcard_rows = λ db id. some (card ∷ []);
  racc = λ db pre. some account;
  bal_count = λ db bacc. unpaid;
  bal = λ db bacc start end. some (record { id = 9; amount = pos 100 });
  free_used = λ db rtp start end. none;
  free_sum = λ db rtp. none;
  pcard_set = λ db id status. (id, status) ∷ db;
}

abbrev pub world : World Db
world = record { db = []; cache = none }

abbrev dialled : Call
dialled = record zero_call {
  clg = text "200";
  cld = text "35929000";
  call_uid = text "u1";
  ts = 900;
}

-- Two keys of one bucket.
abbrev puts : History ℕ ℕ
puts = (30, 257, 9) ∷ (10, 1, 8) ∷ (0, 1, 7) ∷ []

table_get-last_put_example :
    table_get int_keys 65 1 (table_of int_keys int_keys-IsLawful puts)
    ≡ last_put int_keys int_keys-IsLawful 65 1 puts
table_get-last_put_example =
    table_get-last_put int_keys int_keys-IsLawful puts 65 1 (refl, (refl, (refl, tt)))

abbrev racc_row : RaccData
racc_row = record {
  bacc_id = 3;
  bplan_id = 5;
  bplan_start_period = 0;
  bplan_end_period = 0;
  billing_day = 1;
  round_mode_id = 1;
  day_of_payment = 0;
}

-- A worker with an empty cache.
abbrev cached_world : World Db
cached_world = record { db = []; cache = some rt_cache_init }

rt_maxsec-IsAnswer_example :
    ((true ≡ true) × IsAnswer 3660 1 (rt_maxsec (host 0) world dialled 1).1)
    ⊎ ((true ≡ false) × (rt_maxsec (host 0) world dialled 1 ≡ (world, (dialled, none))))
rt_maxsec-IsAnswer_example = rt_maxsec-IsAnswer (host 0) world dialled 1

-- 400 are left of 500, and each of two calls may use half of them.
abbrev used_account : Racc
used_account = record account { bal = record { id = 9; amount = pos 100 } }

left : card.amount -ℤ used_account.bal.amount ≡ pos 400
unfolding ◌-ℤ◌
left = refl

above : is_above_min 1 20 (pos 400) (pos 500) ≡ true
unfolding is_above_min ◌*ℤ◌
above = refl

grant-shared_example :
    let timed = calc_maxsec 3660 (some (per_minute ∷ [])) (shared_call used_account 400 2) in
    (n : ℕ) × (timed.maxsec ≡ pos n)
    × (tier_price (per_minute ∷ []) n * 2 ≤ 400)
    × (grant 3660 1 20 1 used_account card (per_minute ∷ []) ≡ (
        if n == 0
        then refuse timed no_credit
        else (timed, some (record used_account { call = timed }))))
grant-shared_example =
    grant-shared 3660 1 20 1 2 400 used_account card (per_minute ∷ []) (ground arith) (ground arith)
      (ground arith) refl (ground arith) (ground arith) left (ground arith) above

-- With three unpaid balances the card is blocked.
abbrev online_call : Call
online_call = record dialled { rating_mode_id = 1 }

abbrev online_account : Racc
online_account = record account { call = online_call }

has_rates :
    (rt_data_q_rate (host 3) world online_account).1.bplan.rates_ptr
    ≡ some (record { rates = rates; calc_funcs = some (per_minute ∷ []) })
unfolding rt_data_q_rate rt_data_q_rate_sql prefix_loop rate_matches rt_data_q_chk_rate_periods
    text_eq starts_with rt_chk_tr_opt tariff_has_tc tariff_free_limit query_free_billsec
    rt_data_q_tariff_sql
has_rates = refl

unpaid :
    is_unpaid
      (host 3)
      (rt_data_q_rate (host 3) world online_account).0.db
      (rt_data_q_rate (host 3) world online_account).1
      card
    ≡ true
unfolding rt_data_q_rate rt_data_q_rate_sql prefix_loop rate_matches rt_data_q_chk_rate_periods
    text_eq starts_with rt_chk_tr_opt tariff_has_tc tariff_free_limit query_free_billsec
    rt_data_q_tariff_sql is_unpaid
unpaid = refl

-- The request and its call.
abbrev request_1 : CcMaxsec
request_1 = record {
  clg = text "200";
  cld = text "35929000";
  call_uid = text "u1";
  ts = 900;
  maxsec = pos 0;
}

abbrev pub call_1 : Cc
call_1 = record {
  cdr_server_id = 1;
  t = CcEvent.maxsec_event;
  max = some request_1;
  term = none;
  bal = none;
  rate = none;
  cprice = none;
  is_active = true;
}

abbrev pub table : List Slot
table = replicate 2 empty_slot

abbrev hang_up : CcTerm
hang_up = record {
  status = CcTermStatus.normal_clear;
  call_uid = text "u1";
  billsec = 61;
  duration = 70;
  tbl_idx = pos 0;
}

stored_1 : (cc_server_call_init call_1 account table).1 ≡ true
unfolding cc_server_call_init
stored_1 = refl

-- The world of the billing is the list of the accounts that were rated.
abbrev billing : Billing (List Racc)
billing = record {
  add_cdr = λ w cdr. (w, true);
  get_cdr_id = λ w cdr. pos 8;
  exec = λ w rtp. rtp ∷ w;
  epoch_to_ts = λ t. [];
  call_maxsec_limit = 3660;
}

abbrev pub ended_table : List Slot
ended_table =
    record { cc = some (record call_1 { term = some hang_up }); rtp = some account }
    ∷ record { cc = some call_1; rtp = some account }
    ∷ empty_slot
    ∷ []

sweep-AreSwept_example :
    AreSwept 3660 1000 ended_table (sweep billing 1000 [] ended_table).0
    × ((sweep billing 1000 [] ended_table).2
        ≡ used_slots billing (sweep billing 1000 [] ended_table).0 % 2 ^ 16)
sweep-AreSwept_example = sweep-AreSwept billing 1000 [] ended_table

-- A tariff for the weekend only.
abbrev weekend : TimeCond
weekend = record { id = 4; tariff_id = 7; hours = []; dweek = text "sat-sun"; tc_date = [] }

abbrev weekend_host : Host Db
weekend_host = record (host 0) { time_conds = λ db pre. some (weekend ∷ []) }

check_time_conds-cc_maxsec_pre_example :
    (check_time_conds weekend_host world
      (take_rate (rate 2 (text "359")) (cc_maxsec_pre call_1 request_1))).tariff_id
    ≡ 0
check_time_conds-cc_maxsec_pre_example =
    check_time_conds-cc_maxsec_pre weekend_host world (rate 2 (text "359")) call_1 request_1
      (weekend ∷ []) refl
      (
        record {
          from = 5;
          to = 6;
          from_day = ground arith;
          to_day = ground arith;
          days = refl;
          no_date = refl;
        },
        tt,
      )

-- An interface that grants a minute on a card for one call more than are up.
abbrev card_for : ℕ → Racc
card_for sim = record account {
  bacc = record (account.bacc) { pcard = some (record card { call_number = pos (suc sim) }) };
  call = record dialled { maxsec = pos 60 };
}

abbrev granting : MaxsecApi ℕ
granting = record {
  most = 3660;
  has_dbp = true;
  maxsec = λ w pre sim. (w, (record dialled { maxsec = pos 60 }, some (card_for sim)));
  answers = λ w pre sim here. (
    59,
    refl,
    ground arith,
    refl,
    (record card { call_number = pos (suc sim) }, refl, ground arith, ground arith),
  );
  unanswered = λ w pre sim gone. absurd (ground (arith, gone));
}

two_free : free_slots table ≡ 0 + 2
unfolding free_slots
two_free = refl

store_call-race_example :
    let sim = cc_server_call_search_racc (text "200") table in
    let stored =
      (store_call table call_1 request_1
        (granting.maxsec 0 (cc_maxsec_pre call_1 request_1) sim).1).0 in
    cc_server_call_search_racc
      (text "200")
      (store_call stored call_1 request_1
        (granting.maxsec 0 (cc_maxsec_pre call_1 request_1) sim).1).0
    ≡ sim + 2
store_call-race_example =
    store_call-race granting 0 0 table call_1 call_1 request_1 request_1
      (record dialled { maxsec = pos 60 }) (record dialled { maxsec = pos 60 })
      (card_for (cc_server_call_search_racc (text "200") table))
      (card_for (cc_server_call_search_racc (text "200") table)) 0 refl two_free refl refl

abbrev end_request : Cc
end_request = record call_1 { t = CcEvent.term_event; max = none; term = some hang_up }

sweep-cc_term_f_example :
    let ended = (cc_term_f (cc_server_call_init call_1 account table).0 end_request).0 in
    (i : ℕ) × (get_elem? ended i ≡ some (ended_slot call_1 account hang_up i))
    × (get_elem? (sweep billing 1000 [] ended).0 i ≡ some empty_slot)
sweep-cc_term_f_example =
    sweep-cc_term_f billing 1000 [] call_1 end_request request_1 account hang_up table refl refl
      refl (refl, (refl, tt)) stored_1
