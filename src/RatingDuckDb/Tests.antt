-- ===== src/RatingDuckDb/Tests.antt =====
-- The theorems on the DuckDB query at a concrete tariff.
use rate_engine.Base.{◌≡◌, refl, List, [], ◌∷◌, some, arith, pos}
use rate_engine.Rating.Data.{CalcFunction, Call, zero_call}
use rate_engine.Rating.Calc.{calc_cprice_2}
use rate_engine.RatingDuckDb.{WalkRow, find_pos, price_walk}
use rate_engine.RatingDuckDb.Parity.{IsNumbered, price_walk-calc_cprice_2}
use rate_engine.RatingDuckDb.FreeSplit.{split, free_sec}

abbrev minute : CalcFunction
minute = record { step = 1; delta = 60; fee = 5; iterations = 1 }

abbrev seconds : CalcFunction
seconds = record { step = 2; delta = 1; fee = 1; iterations = 0 }

abbrev tariff : List CalcFunction
tariff = minute ∷ seconds ∷ []

abbrev call : Call
call = record zero_call { billsec = pos 75 }

numbered : IsNumbered tariff
unfolding find_pos
numbered = (refl, refl, (refl, refl, refl))

price_walk-calc_cprice_2_example :
    (row : WalkRow) × (price_walk tariff (pos 75) ≡ some row)
    × (row.price ≡ (calc_cprice_2 (some tariff) call).0.cprice)
    × (row.bsec ≡ (calc_cprice_2 (some tariff) call).0.billsec)
price_walk-calc_cprice_2_example =
    price_walk-calc_cprice_2 minute (seconds ∷ []) call (ground arith) numbered

-- 100 free seconds, of which 20 were used.
split_test : split 100 20 (30 ∷ 60 ∷ 10 ∷ []) ≡ 30 ∷ 50 ∷ 0 ∷ []
unfolding split free_sec
split_test = refl
