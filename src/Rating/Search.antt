-- ===== src/Rating/Search.antt =====
-- rating.c (rt_chk_bplan_periods, rt_chk_tr_opt, rt_rate_searching) and rt_data_q.c (the rates and
-- tiers of a bill plan, and the choice of a rate by the called number), on an SQL database.
pub mod Longest
use rate_engine.Base.{
  ℕ, zero, suc, ◌≡◌, Bool, true, false, ◌&&◌, ◌||◌, not, List, [], ◌∷◌, Option, none, some, ltb,
  leb, ◌==◌, if◌then◌else◌, ℤ, pos, Text, text_eq, starts_with, length,
}
use rate_engine.Rating.Data.{CalcFunction, Bplan, Rate, RateTable, Call, Racc}
use rate_engine.Rating.TimeCond.{tc_ts_cmp}
use rate_engine.Rating.World.{Host, World}
use rate_engine.Rating.Cache.Kinds.{
  RtCache, rt_cache_tc_get, rt_cache_tc_put, rt_cache_fbs_get, rt_cache_fbs_put, rt_cache_rates_get,
  rt_cache_rates_put, rt_cache_tariff_get, rt_cache_tariff_put,
}

-- A plan out of its period loses its id.
unfoldable pub rt_chk_bplan_periods : Bplan → ℕ → Bplan
rt_chk_bplan_periods bpt ts =
    if bpt.bplan_start_period == 0
    then bpt
    else if leb bpt.bplan_start_period ts
    then (if bpt.bplan_end_period == 0
        then bpt
        else if leb ts bpt.bplan_end_period
        then bpt
        else record bpt { id = 0 })
    else record bpt { id = 0 }

unfoldable pub rt_data_q_chk_rate_periods : ℕ → ℕ → ℕ → Bool
rt_data_q_chk_rate_periods start stop ts =
    if start == 0
    then true
    else if ltb ts start
    then false
    else if stop == 0
    then true
    else if ltb stop ts
    then false
    else true

abbrev pub any_prefix : Text
any_prefix = b'&' ∷ []

-- The tests of `rt_data_q_prefix_sql` on one rate.
unfoldable pub rate_matches : Call → Rate → Bool
rate_matches pre rt =
    rt_data_q_chk_rate_periods rt.start_period rt.end_period pre.ts
    && (text_eq rt.prefix any_prefix || starts_with pre.cld rt.prefix)

-- The call takes the ids of a rate.
abbrev pub take_rate : Rate → Call → Call
take_rate rt pre = record pre {
  tariff_id = rt.tariff_id;
  rate_id = rt.id;
  prefix_id = rt.prefix_id;
  free_billsec_id = rt.free_billsec_id;
}

-- A query without rows attaches no array.
abbrev pub some_rows {ℓ} : {A : Type ℓ} → Option (List A) → Option (List A)
some_rows none = none
some_rows (some []) = none
some_rows (some (row ∷ rows)) = some (row ∷ rows)

module _ {Db : Type 0} (host : Host Db) where
  -- The first half of `rt_chk_tr_opt`: has the tariff a time condition?
  unfoldable pub tariff_has_tc : World Db → Call → Bool × World Db
  tariff_has_tc w pre = elim w.cache [
    | none ↦ (host.has_time_cond w.db pre, w)
    | some c ↦ elim (rt_cache_tc_get host.now c pre.tariff_id) [
      | some has_tc ↦ (has_tc, w)
      | none ↦ (
        host.has_time_cond w.db pre,
        record w {
          cache = some (rt_cache_tc_put host.now c pre.tariff_id (host.has_time_cond w.db pre));
        },
      )
    ]
  ]

  unfoldable pub check_time_conds : World Db → Call → Call
  check_time_conds w pre =
      let (compared, ok) =
        tc_ts_cmp host.stray_day host.localtime (record pre { tc = host.time_conds w.db pre }) in
      if ok then record compared { tc = none } else record compared { tariff_id = 0; tc = none }

  -- `f_free_billsec_query`: without a row the limit stays.
  unfoldable pub query_free_billsec : Db → Call → Call
  query_free_billsec db pre = elim (host.free_billsec db pre) [
    | none ↦ pre
    | some limit ↦ record pre { free_billsec_limit = limit }
  ]

  -- Its second half: the free seconds of the tariff.
  unfoldable pub tariff_free_limit : World Db → Call → World Db × Call
  tariff_free_limit w pre = elim w.cache [
    | none ↦ (w, query_free_billsec w.db pre)
    | some c ↦ elim (rt_cache_fbs_get host.now c pre.tariff_id) [
      | some limit ↦ (w, record pre { free_billsec_limit = limit })
      | none ↦ (
        record w {
          cache = some (
              rt_cache_fbs_put host.now c (query_free_billsec w.db pre).tariff_id
                (query_free_billsec w.db pre).free_billsec_limit);
        },
        query_free_billsec w.db pre,
      )
    ]
  ]

  unfoldable pub rt_chk_tr_opt : World Db → Call → World Db × Call
  rt_chk_tr_opt w pre =
      let (has_tc, w1) = tariff_has_tc w pre in
      tariff_free_limit w1 (if has_tc then check_time_conds w1 pre else pre)

  -- The tiers of the call's tariff; none are attached when there are no rows.
  unfoldable pub rt_data_q_tariff_sql : World Db → ℕ → World Db × Option (List CalcFunction)
  rt_data_q_tariff_sql w tariff_id =
      let rows = some_rows (host.tariff_rows w.db tariff_id) in
      elim w.cache [
        | none ↦ (w, rows)
        | some c ↦
            let (hit, c1) = rt_cache_tariff_get host.now c tariff_id in
            elim hit [
              | some tr ↦ (record w { cache = some c1 }, some tr)
              | none ↦ elim rows [
                | none ↦ (record w { cache = some c1 }, none)
                | some tr ↦ (
                  record w {
                    cache =
                        some
                          (rt_cache_tariff_put host.now c1 tariff_id (some tr) (pos (length tr)));
                  },
                  some tr,
                )
              ]
            ]
      ]

  -- The rates of the bill plan, the cached ones first.
  unfoldable pub rt_data_q_rate_sql : World Db → ℕ → World Db × Option (List Rate)
  rt_data_q_rate_sql w bplan_id = elim w.cache [
    | none ↦ (w, host.rate_rows w.db bplan_id)
    | some c ↦
        let (hit, c1) = rt_cache_rates_get host.now c bplan_id in
        elim hit [
          | some rates ↦ (record w { cache = some c1 }, some rates)
          | none ↦ elim (host.rate_rows w.db bplan_id) [
            | none ↦ (record w { cache = some c1 }, none)
            | some rates ↦ (
              record w {
                cache =
                    some
                      (rt_cache_rates_put host.now c1 bplan_id (some rates) (pos (length rates)));
              },
              some rates,
            )
          ]
        ]
  ]

  -- The loop of `rt_data_q_prefix_sql`, `while((rt[p].tariff_id) > 0)`: was a rate chosen?
  unfoldable pub prefix_loop : List Rate → World Db → Call → World Db × Call × Bool
  prefix_loop [] w pre = (w, pre, false)
  prefix_loop (rt ∷ rates) w pre =
      let found = rate_matches pre rt in
      let (w1, pre1) = if found then rt_chk_tr_opt w (take_rate rt pre) else (w, pre) in
      let rest = prefix_loop rates w1 pre1 in
      if rt.tariff_id == 0
      then (w, pre, false)
      else if found && not (pre1.tariff_id == 0)
      then (w1, pre1, true)
      else rest

  -- `rt_data_q_rate`: the rates are read anew, and a tariff is attached when one is chosen.
  unfoldable pub rt_data_q_rate : World Db → Racc → World Db × Racc
  rt_data_q_rate w rtp =
      let (w1, rows) = rt_data_q_rate_sql w rtp.bplan.id in
      elim rows [
        | none ↦ (w1, record rtp { bplan = record (rtp.bplan) { rates_ptr = none } })
        | some rates ↦
            let (w2, pre, chosen) = prefix_loop rates w1 rtp.call in
            let (w3, tr) = if chosen then rt_data_q_tariff_sql w2 pre.tariff_id else (w2, none) in
            (
              w3,
              record rtp {
                call = pre;
                bplan = record (rtp.bplan) {
                  rates_ptr = some (record { rates = rates; calc_funcs = tr });
                };
              },
            )
      ]
