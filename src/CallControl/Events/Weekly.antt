-- ===== src/CallControl/Events/Weekly.antt =====
-- The time conditions of a tariff, for a request for seconds.
use rate_engine.Base.{◌≡◌, refl, List, some, arith, All}
use rate_engine.Rating.Data.{Rate, TimeCond}
use rate_engine.Rating.World.{Host, World}
use rate_engine.Rating.TimeCond.Window.{IsWeekly, tc_ts_cmp-sunday}
use rate_engine.Rating.Search.{take_rate, check_time_conds}
use rate_engine.CallControl.Table.{Cc, CcMaxsec}
use rate_engine.CallControl.Events.{cc_maxsec_pre}

module _ {Db : Type 0} (host : Host Db) where
  -- A request carries no day of the week, so that a tariff whose time conditions name days of the
  -- week is dropped for it at every time.
  pub check_time_conds-cc_maxsec_pre :
      (w : World Db) (rt : Rate) (c : Cc) (m : CcMaxsec) (cs : List TimeCond)
      → host.time_conds w.db (take_rate rt (cc_maxsec_pre c m)) ≡ some cs
      → All IsWeekly cs
      → (check_time_conds host w (take_rate rt (cc_maxsec_pre c m))).tariff_id ≡ 0
  unfolding check_time_conds cc_maxsec_pre
  check_time_conds-cc_maxsec_pre w rt c m cs e weekly =
      let pre = take_rate rt (cc_maxsec_pre c m) in
      let given = record pre { tc = host.time_conds w.db pre } in
      let missed = tc_ts_cmp-sunday host.stray_day host.localtime given cs refl e weekly in
      ground (arith, missed)
