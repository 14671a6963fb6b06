-- ===== src/Rating/Data.antt =====
-- The structures of mod/Rating/rt_data.h. Ids, times and unsigned fields are natural numbers; the
-- signed fields that the code compares with 0 or subtracts from are integers. An amount of money (a
-- C `double`) is a whole number of the smallest unit of the tariffs, and arithmetic on it is exact;
-- `limit` counts parts of that unit, `limit_parts` to a unit, since the code divides it by a number
-- of calls. Arrays that end in a zeroed entry are lists; a pointer that may be NULL is an option.
use rate_engine.Base.{ℕ, ℤ, pos, Text, [], List, Option, none}

-- One tier of a tariff: `iterations` blocks of `delta` seconds at `fee` each, 0 for no end.
pub record CalcFunction : Type 0 where
  pub step : ℕ
  pub delta : ℕ
  pub fee : ℕ
  pub iterations : ℕ

pub record Pcard : Type 0 where
  pub id : ℕ
  pub amount : ℤ
  pub start : Text
  pub end : Text
  pub status : ℕ
  pub type : ℕ
  pub call_number : ℤ

pub record Bacc : Type 0 where
  pub id : ℕ
  pub username : Text
  pub cdr_server_id : ℕ
  pub round_mode_id : ℕ
  pub billing_day : ℕ
  pub day_of_payment : ℕ
  pub pcard : Option Pcard

pub record Rate : Type 0 where
  pub id : ℕ
  pub prefix_id : ℕ
  pub prefix : Text
  pub tariff_id : ℕ
  pub start_period : ℕ
  pub end_period : ℕ
  pub free_billsec_id : ℕ

-- The rates of a bill plan, with the tariff that a search attached to the array.
pub record RateTable : Type 0 where
  pub rates : List Rate
  pub calc_funcs : Option (List CalcFunction)

pub record Bplan : Type 0 where
  pub id : ℕ
  pub bplan_start_period : ℕ
  pub bplan_end_period : ℕ
  pub rates_ptr : Option RateTable

pub record Bal : Type 0 where
  pub id : ℕ
  pub amount : ℤ

-- `struct time_cond` of time_cond.h.
pub record TimeCond : Type 0 where
  pub id : ℕ
  pub tariff_id : ℕ
  pub hours : Text
  pub dweek : Text
  pub tc_date : Text

-- `rating_t`: one call on its way through the engine.
pub record Call : Type 0 where
  pub cdr_server_id : ℕ
  pub clg : Text
  pub cld : Text
  pub call_uid : Text
  pub timestamp : Text
  pub epoch : ℕ
  pub clg_nadi : ℕ
  pub cld_nadi : ℕ
  pub maxsec : ℤ
  pub billsec : ℤ
  pub billusec : ℤ
  pub free_id : ℕ
  pub free_billsec : ℤ
  pub free_billsec_id : ℕ
  pub free_billsec_sum : ℤ
  pub free_billsec_limit : ℤ
  pub dow : ℕ
  pub bal_id : ℕ
  pub limit : ℤ
  pub limit_parts : ℕ
  pub cprice : ℤ
  pub ts : ℕ
  pub tc : Option (List TimeCond)
  pub tc_id : ℕ
  pub cdr_id : ℤ
  pub rating_id : ℤ
  pub rating_mode_id : ℕ
  pub account_code : Text
  pub src_context : Text
  pub dst_context : Text
  pub src_tgroup : Text
  pub dst_tgroup : Text
  pub tariff_id : ℕ
  pub rate_id : ℕ
  pub prefix_id : ℕ

-- `memset(pre,0,sizeof(rating_t))` of `rt_rating_init`.
abbrev pub zero_call : Call
zero_call = record {
  cdr_server_id = 0;
  clg = [];
  cld = [];
  call_uid = [];
  timestamp = [];
  epoch = 0;
  clg_nadi = 0;
  cld_nadi = 0;
  maxsec = pos 0;
  billsec = pos 0;
  billusec = pos 0;
  free_id = 0;
  free_billsec = pos 0;
  free_billsec_id = 0;
  free_billsec_sum = pos 0;
  free_billsec_limit = pos 0;
  dow = 0;
  bal_id = 0;
  limit = pos 0;
  limit_parts = 1;
  cprice = pos 0;
  ts = 0;
  tc = none;
  tc_id = 0;
  cdr_id = pos 0;
  rating_id = pos 0;
  rating_mode_id = 0;
  account_code = [];
  src_context = [];
  dst_context = [];
  src_tgroup = [];
  dst_tgroup = [];
  tariff_id = 0;
  rate_id = 0;
  prefix_id = 0;
}

-- `racc_t`: the account, plan and balance that a call is rated on. `rtm` is its mode.
pub record Racc : Type 0 where
  pub rtm : ℕ
  pub bal : Bal
  pub bacc : Bacc
  pub bplan : Bplan
  pub call : Call
