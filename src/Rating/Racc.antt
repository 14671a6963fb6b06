-- ===== src/Rating/Racc.antt =====
-- rt_data_q_racc of rt_data_q.c, on SQL: the account and the plan of a call in one mode, with their
-- cache.
pub mod Modes
pub mod Preload
pub mod Servers
pub mod Tests
use rate_engine.Base.{
  map, ◌==◌, ◌>>=◌, ℕ, Bool, List, [], ◌∷◌, ◌++◌, Option, none, some, ltb, if◌then◌else◌, pos, Text,
  text, print_d,
}
use rate_engine.Database.Escape.{db_sql_escape}
use rate_engine.Rating.Mode
use rate_engine.Rating.Data.{Call, Racc}
use rate_engine.Rating.World.{World}
use rate_engine.Rating.Cache.Kinds.{RaccData, RtCache, rt_cache_racc_get, rt_cache_racc_put}

-- The rows of the first two queries, and of the one with the nature of both numbers.
pub record PlanRow : Type 0 where
  pub billing_account_id : ℕ
  pub bill_plan_id : ℕ
  pub start_period : ℕ
  pub end_period : ℕ
  pub billing_day : ℕ
  pub round_mode_id : ℕ
  pub day_of_payment : ℕ

pub record TrunkRow : Type 0 where
  pub billing_account_id : ℕ
  pub bill_plan_id : ℕ
  pub clg_nadi : ℕ
  pub cld_nadi : ℕ
  pub start_period : ℕ
  pub end_period : ℕ
  pub billing_day : ℕ
  pub round_mode_id : ℕ

-- The columns in the order of each `SELECT`.
unfoldable pub plan_columns : PlanRow → List ℕ
plan_columns r =
    r.billing_account_id ∷ r.bill_plan_id ∷ r.start_period ∷ r.end_period ∷ r.billing_day
    ∷ r.round_mode_id ∷ r.day_of_payment ∷ []

unfoldable pub trunk_columns : TrunkRow → List ℕ
trunk_columns r =
    r.billing_account_id ∷ r.bill_plan_id ∷ r.clg_nadi ∷ r.cld_nadi ∷ r.start_period ∷ r.end_period
    ∷ r.billing_day ∷ r.round_mode_id ∷ []

-- The rows of the three queries, by the table, the escaped value and the CDR server; and
-- `time(NULL)`.
pub record RaccRows (Db : Type 0) : Type 0 where
  pub now : ℕ
  pub plan_rows : Db → Text → Text → ℕ → List PlanRow
  pub sms_rows : Db → Text → Text → ℕ → List PlanRow
  pub trunk_rows : Db → Text → Text → ℕ → ℕ → ℕ → List TrunkRow

-- What a mode asks for.
pub data Query : Type 0 where
  plan_query : Text → Query
  sms_query : Text → Query
  trunk_query : Text → Query

-- The field of the call and the query of a mode: the switch of `rt_data_q_racc_sql`.
unfoldable pub mode_query : ℕ → Call → Option (Text × Query)
mode_query mode pre =
    if mode == Mode.clg
    then some (pre.clg, plan_query (text "calling_number"))
    else if mode == Mode.acode
    then some (pre.account_code, plan_query (text "account_code"))
    else if mode == Mode.srcc
    then some (pre.src_context, plan_query (text "src_context"))
    else if mode == Mode.dstc
    then some (pre.dst_context, plan_query (text "dst_context"))
    else if mode == Mode.srctg
    then some (pre.src_tgroup, trunk_query (text "src_tgroup"))
    else if mode == Mode.dsttg
    then some (pre.dst_tgroup, trunk_query (text "dst_tgroup"))
    else if mode == Mode.sms
    then some (pre.clg, sms_query (text "calling_number"))
    else none

-- `rt_data_racc_init` with the mode, the server and the call.
abbrev pub new_racc : Call → Racc
new_racc pre = record {
  rtm = pre.rating_mode_id;
  bal = record { id = 0; amount = pos 0 };
  bacc = record {
    id = 0;
    username = [];
    cdr_server_id = pre.cdr_server_id;
    round_mode_id = 0;
    billing_day = 0;
    day_of_payment = 0;
    pcard = none;
  };
  bplan = record { id = 0; bplan_start_period = 0; bplan_end_period = 0; rates_ptr = none };
  call = pre;
}

unfoldable pub with_data : RaccData → Racc → Racc
with_data d rtp = record rtp {
  bacc = record (rtp.bacc) {
    id = d.bacc_id;
    billing_day = d.billing_day;
    round_mode_id = d.round_mode_id;
    day_of_payment = d.day_of_payment;
  };
  bplan = record (rtp.bplan) {
    id = d.bplan_id;
    bplan_start_period = d.bplan_start_period;
    bplan_end_period = d.bplan_end_period;
  };
}

unfoldable pub data_of : Racc → RaccData
data_of rtp = record {
  bacc_id = rtp.bacc.id;
  bplan_id = rtp.bplan.id;
  bplan_start_period = rtp.bplan.bplan_start_period;
  bplan_end_period = rtp.bplan.bplan_end_period;
  billing_day = rtp.bacc.billing_day;
  round_mode_id = rtp.bacc.round_mode_id;
  day_of_payment = rtp.bacc.day_of_payment;
}

-- A row, by the positions of its columns, of which each query has at least seven.
unfoldable pub read_columns : List ℕ → Racc → Racc
read_columns (c0 ∷ c1 ∷ c2 ∷ c3 ∷ c4 ∷ c5 ∷ c6 ∷ more) rtp =
    with_data
      (record {
        bacc_id = c0;
        bplan_id = c1;
        bplan_start_period = c2;
        bplan_end_period = c3;
        billing_day = c4;
        round_mode_id = c5;
        day_of_payment = c6;
      })
      rtp
read_columns _ rtp = rtp

-- The last row stays.
unfoldable pub read_rows : List (List ℕ) → Racc → Racc
read_rows [] rtp = rtp
read_rows (row ∷ rows) rtp = read_rows rows (read_columns row rtp)

-- `%d:%s` of the mode and the value.
unfoldable pub racc_key : ℕ → Text → Text
racc_key mode cond = print_d mode ++ b':' ∷ cond

module _ {Db : Type 0} (answers : RaccRows Db) where
  unfoldable pub racc_rows : Db → Query → Text → Call → List (List ℕ)
  racc_rows db (plan_query table) cond pre =
      map plan_columns (answers.plan_rows db table cond pre.cdr_server_id)
  racc_rows db (sms_query table) cond pre =
      map plan_columns (answers.sms_rows db table cond pre.cdr_server_id)
  racc_rows db (trunk_query table) cond pre =
      map trunk_columns
        (answers.trunk_rows db table cond pre.cdr_server_id pre.clg_nadi pre.cld_nadi)

  -- An account that was found is stored in the cache.
  unfoldable pub store_racc : RtCache → Text → Racc → RtCache
  store_racc cache key rtp =
      if ltb 0 rtp.bacc.id then rt_cache_racc_put answers.now cache key (data_of rtp) else cache

  unfoldable pub cached_racc : World Db → RtCache → Text → Racc → Racc → World Db × Racc
  cached_racc w cache key fresh rtp =
      let (hit, counted) = rt_cache_racc_get answers.now cache key in
      elim hit [
        | some d ↦ (record w { cache = some counted }, with_data d rtp)
        | none ↦ (record w { cache = some (store_racc counted key fresh) }, fresh)
      ]

  -- No account is a negative return value, not an empty answer.
  unfoldable pub rt_data_q_racc : World Db → Call → Option (World Db × Racc)
  rt_data_q_racc w pre = do
    (cond, query) ← mode_query pre.rating_mode_id pre
    safe ← db_sql_escape cond 160
    let fresh = read_rows (racc_rows w.db query safe pre) (new_racc pre)
    elim w.cache [
      | none ↦ some (w, fresh)
      | some cache ↦
          some (cached_racc w cache (racc_key pre.rating_mode_id cond) fresh (new_racc pre))
    ]
