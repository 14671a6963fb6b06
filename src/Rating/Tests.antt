-- ===== src/Rating/Tests.antt =====
-- The theorems on prices, limits, time conditions and cards at concrete calls.
use rate_engine.Base.{
  ℕ, ◌*◌, ◌≤◌, ◌<◌, ◌≡◌, ◌≢◌, ◌⊎◌, refl, List, [], ◌∷◌, none, some, arith, pos, ◌+ℤ◌, ◌-ℤ◌, ◌*ℤ◌,
  ceil_div, ◌/◌, ◌≤ℤ◌, text, strcmp,
}
use rate_engine.Base.Clock.{Tm, date_key}
use rate_engine.Rating.Data.{CalcFunction, Pcard, Bacc, Call, TimeCond, zero_call}
use rate_engine.Rating.Calc.{units, charge, charge_tier, calc_cprice_2, cprice_loop, calc_maxsec}
use rate_engine.Rating.Calc.Tiers.{tier_price, tier_seconds}
use rate_engine.Rating.Calc.Price.{calc_cprice_2-tiers}
use rate_engine.Rating.Calc.Refund.{excess, calc_cprice_2-refunds}
use rate_engine.Rating.Calc.Limit.{calc_maxsec-affordable}
use rate_engine.Rating.Calc.Overgrant.{calc_maxsec-overgrants}
use rate_engine.Rating.Pcard.{
  credit_card, debit_card, billing_period, credit_dates, is_current, find_card, pcard_manager,
}
use rate_engine.Rating.Pcard.Period.{today, pcard_manager-days}
use rate_engine.Rating.Workers.{range, worker_indices, worker_count, worker_start, shares}

-- Two minutes at 5 a minute, then 3 for every 60 seconds.
abbrev first_minutes : CalcFunction
first_minutes = record { step = 1; delta = 60; fee = 5; iterations = 2 }

abbrev later_minutes : CalcFunction
later_minutes = record { step = 2; delta = 60; fee = 6; iterations = 0 }

abbrev tariff : List CalcFunction
tariff = first_minutes ∷ later_minutes ∷ []

-- A call of 200 seconds with a limit of 30.
abbrev call : Call
call = record zero_call { billsec = pos 200; limit = pos 30; ts = 86400 }

calc_cprice_2_test : (calc_cprice_2 (some tariff) call).0.cprice ≡ pos 22
unfolding calc_cprice_2 cprice_loop units ceil_div charge charge_tier ◌+ℤ◌ ◌-ℤ◌ ◌*ℤ◌
calc_cprice_2_test = refl

calc_cprice_2-tiers_example :
    (calc_cprice_2 (some tariff) call ≡ (
      record call { cprice = pos (tier_price tariff 200); billsec = pos (tier_seconds tariff 200) },
      pos 0,
    ))
    × (200 ≤ tier_seconds tariff 200)
calc_cprice_2-tiers_example =
    calc_cprice_2-tiers tariff call 200 (ground arith) (ground arith) refl refl

-- 30-second blocks, then blocks of 10 seconds: a call of 31 seconds.
abbrev half_minutes : CalcFunction
half_minutes = record { step = 1; delta = 30; fee = 9; iterations = 2 }

abbrev ten_seconds : CalcFunction
ten_seconds = record { step = 2; delta = 10; fee = 3; iterations = 0 }

abbrev short_call : Call
short_call = record zero_call { billsec = pos 31 }

calc_cprice_2-refunds_example :
    ((calc_cprice_2 (some (half_minutes ∷ ten_seconds ∷ [])) short_call).0.cprice
      ≡ pos (tier_price (half_minutes ∷ ten_seconds ∷ []) 31)
        -ℤ pos (excess half_minutes 31 / 10 * 3))
calc_cprice_2-refunds_example =
    calc_cprice_2-refunds half_minutes ten_seconds short_call 31 (ground arith) (ground arith)
      (ground arith) (ground arith) refl (ground arith) (ground arith) refl

calc_maxsec-affordable_example :
    (n : ℕ) × ((calc_maxsec 3660 (some tariff) call).maxsec ≡ pos n)
    × (n ≤ 3660)
    × (tier_price tariff n * 1 ≤ 30)
calc_maxsec-affordable_example =
    calc_maxsec-affordable 3660 tariff call 30 (ground arith) (ground arith) (ground arith)
      (ground arith) refl

-- A minute for 100, then seconds for 1 each: the limit of 150 pays for 100 seconds at most.
abbrev dear_minute : CalcFunction
dear_minute = record { step = 1; delta = 60; fee = 100; iterations = 2 }

abbrev cheap_second : CalcFunction
cheap_second = record { step = 2; delta = 1; fee = 1; iterations = 0 }

abbrev rich_call : Call
rich_call = record zero_call { limit = pos 150 }

calc_maxsec-overgrants_example :
    ((calc_maxsec 3660 (some (dear_minute ∷ cheap_second ∷ [])) rich_call).maxsec ≡ pos 110)
    × (150 < tier_price (dear_minute ∷ cheap_second ∷ []) 110 * 1)
calc_maxsec-overgrants_example =
    calc_maxsec-overgrants 3660 dear_minute cheap_second rich_call 150 (ground arith) (ground arith)
      (ground arith) refl (ground arith) (ground arith) refl (ground arith) (ground arith)
      (ground arith) (ground arith)

abbrev working_week : TimeCond
working_week = record {
  id = 4;
  tariff_id = 7;
  hours = text "08:00-17:30";
  dweek = text "mon-fri";
  tc_date = [];
}

-- Noon of 5 May 2024, a Sunday.
abbrev sunday_noon : ℕ → Tm
sunday_noon t = record { sec = 0; min = 0; hour = 12; mday = 5; mon = 4; year = 124; wday = 0 }

abbrev weekend : TimeCond
weekend = record working_week { dweek = text "sat-sun"; hours = [] }

abbrev sunday_call : Call
sunday_call = record zero_call { dow = 0; epoch = 1714903200; tc = some (weekend ∷ []) }

abbrev credit : Pcard
credit = record {
  id = 11;
  amount = pos 500;
  start = text "2024-01-01";
  end = [];
  status = 1;
  type = 2;
  call_number = pos 2;
}

abbrev account : Bacc
account = record {
  id = 3;
  username = text "ann";
  cdr_server_id = 1;
  round_mode_id = 1;
  billing_day = 10;
  day_of_payment = 0;
  pcard = none;
}

abbrev found_credit : Pcard
found_credit = record credit { start = text "2024-04-10"; end = text "2024-05-10" }

finds_credit :
    (pcard_manager sunday_noon (some (credit ∷ [])) sunday_call account).pcard ≡ some found_credit
unfolding pcard_manager find_card billing_period credit_dates is_current strcmp
finds_credit = refl

pcard_manager-days_example :
    (date_key 2024 4 10 ≤ date_key 2024 5 5)
    × (date_key 2024 5 5 < date_key 2024 5 10)
    × (found_credit.id ≢ 0)
    × ((found_credit.type ≡ credit_card) ⊎ (found_credit.type ≡ debit_card))
pcard_manager-days_example =
    pcard_manager-days sunday_noon (some (credit ∷ [])) sunday_call account found_credit 2024 4 10
      2024 5 10
      (record { year = omega arith; mon = omega arith; first = omega arith; last = omega arith })
      (omega arith, omega arith, omega arith) (omega arith, omega arith, omega arith) finds_credit
      refl refl

starts : strcmp (text "2024-01-01") (today sunday_noon sunday_call) ≤ℤ pos 0
unfolding strcmp
starts = ground arith

-- Ten records on four threads.
shares_test : shares 10 4 4 ≡ 0 ∷ 1 ∷ 2 ∷ 3 ∷ 4 ∷ 5 ∷ 6 ∷ 7 ∷ 8 ∷ 9 ∷ []
unfolding shares worker_indices range worker_count worker_start
shares_test = refl
