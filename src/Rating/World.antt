-- ===== src/Rating/World.antt =====
-- What the engine asks of its surroundings: libc's local time and `sscanf`, the settings of
-- rating.h, and the answers of the SQL database, whose rows each query of mod/Rating turns into the
-- values below. A select leaves the database as it is. The clock does not move while one call is
-- handled.
use rate_engine.Base.{ℕ, ℤ, Bool, List, Option, Text}
use rate_engine.Base.Clock.{Tm}
use rate_engine.Rating.Data.{CalcFunction, Pcard, Bacc, Rate, Bal, TimeCond, Call, Racc}
use rate_engine.Rating.Cache.Kinds.{RtCache}

pub record Host (Db : Type 0) : Type 0 where
  -- The worker has a database: `dbp` is not NULL.
  pub has_dbp : Bool
  -- `time(NULL)`, `localtime` and `sscanf(str,"%d-%d-%d",...)`.
  pub now : ℕ
  pub localtime : ℕ → Tm
  pub scan_date : Text → ℕ × ℕ × ℕ
  -- The words before `week_days` and before `daysinmonth`.
  pub stray_day : ℤ
  pub stray_days : ℕ
  -- `billing_day`, `rt_eng.bal_num`, `call_maxsec_limit`, and `k_limit_min` as a quotient.
  pub billing_day : ℕ
  pub bal_num : ℕ
  pub call_maxsec_limit : ℕ
  pub k_num : ℕ
  pub k_den : ℕ
  -- `f_time_cond_query_id`, `f_time_cond_query_v2` and `f_free_billsec_query`.
  pub has_time_cond : Db → Call → Bool
  pub time_conds : Db → Call → Option (List TimeCond)
  pub free_billsec : Db → Call → Option ℤ
  -- The rows of `rt_data_q_tariff_sql`, `rt_data_q_rate_sql` and `rt_data_q_pcard_sql`.
  pub tariff_rows : Db → ℕ → Option (List CalcFunction)
  pub rate_rows : Db → ℕ → Option (List Rate)
  pub pcard_rows : Db → ℕ → Option (List Pcard)
  -- `rt_data_q_racc`, `rt_data_q_bal_count` and the row of `rt_data_q_bal`.
  pub racc : Db → Call → Option Racc
  pub bal_count : Db → Bacc → ℕ
  pub bal : Db → Bacc → Text → Text → Option Bal
  -- The sums of `free_billsec_balance_v2` and `f_free_billsec_bal_query_2`.
  pub free_used : Db → Racc → Text → Text → Option ℤ
  pub free_sum : Db → Racc → Option ℤ
  -- `rt_data_q_pcard_set`: the card's id and its new status.
  pub pcard_set : Db → ℕ → ℕ → Db

-- The database and `rt_eng.cache`.
pub record World (Db : Type 0) : Type 0 where
  pub db : Db
  pub cache : Option RtCache
