-- ===== src/Rating/Exec/Searched.antt =====
-- The search for a rate keeps the account and the ids of the record, and sends no statement but the
-- blocking of a card.
use rate_engine.Base.{
  ap, is_set, if_ind, ℕ, ◌≡◌, refl, ◌∙◌, Bool, List, [], ◌∷◌, arith, Option-cases, inl, inr,
  if◌then◌else◌, not, ◌&&◌,
}
use rate_engine.Rating.Data.{Rate, Pcard, Call, Racc}
use rate_engine.Rating.TimeCond.{tc_ts_cmp}
use rate_engine.Rating.World.{Host, World}
use rate_engine.Rating.Search.{
  take_rate, rate_matches, tariff_has_tc, check_time_conds, query_free_billsec, tariff_free_limit,
  rt_chk_tr_opt, prefix_loop, rt_data_q_rate, rt_data_q_rate_sql, rt_data_q_tariff_sql,
}
use rate_engine.Rating.Account.{
  load_balance, with_bal, with_free_billsec, rt_prerating_process, prerate, rt_rate_searching,
  is_unpaid,
}
use rate_engine.Rating.Ledger.{Log, with_log}
use rate_engine.Rating.Exec.Same.{
  legs, frees, IsSame, IsQuiet, IsQuiet-trans, with_bal-IsSame, with_free_billsec-IsSame,
  with_free_sum-IsSame,
}

-- Calls with the same ids.
abbrev HasIds : Call → Call → Type 0
HasIds a b = (a.cdr_id ≡ b.cdr_id) × (a.bal_id ≡ b.bal_id)

ids_trans : (a b c : Call) → HasIds a b → HasIds b c → HasIds a c
ids_trans a b c (p, q) (r, s) = (p ∙ r, q ∙ s)

module _ {Db : Type 0} (host : Host Db) where
  check_time_conds-ids : (w : World Db) (pre : Call) → HasIds (check_time_conds host w pre) pre
  unfolding check_time_conds tc_ts_cmp
  check_time_conds-ids w pre = ground arith

  query_free_billsec-ids : (db : Db) (pre : Call) → HasIds (query_free_billsec host db pre) pre
  unfolding query_free_billsec
  query_free_billsec-ids db pre = ground arith

  tariff_free_limit-ids : (w : World Db) (pre : Call) → HasIds (tariff_free_limit host w pre).1 pre
  unfolding tariff_free_limit
  tariff_free_limit-ids w pre = ground (arith, query_free_billsec-ids w.db pre)

  tariff_has_tc-db : (w : World Db) (pre : Call) → (tariff_has_tc host w pre).1.db ≡ w.db
  unfolding tariff_has_tc
  tariff_has_tc-db w pre = ground arith

  tariff_free_limit-db : (w : World Db) (pre : Call) → (tariff_free_limit host w pre).0.db ≡ w.db
  unfolding tariff_free_limit
  tariff_free_limit-db w pre = ground arith

  -- The database of a world, and the ids of a call, as they were.
  abbrev IsKept : World Db → Call → World Db → Call → Type 0
  IsKept w pre w1 pre1 = (w1.db ≡ w.db) × HasIds pre1 pre

  rt_chk_tr_opt-IsKept :
      (w : World Db) (pre : Call)
      → IsKept w pre (rt_chk_tr_opt host w pre).0 (rt_chk_tr_opt host w pre).1
  unfolding rt_chk_tr_opt
  rt_chk_tr_opt-IsKept w pre =
      let (has_tc, w1) = tariff_has_tc host w pre in
      let timed = if has_tc then check_time_conds host w1 pre else pre in
      let (p, q) = check_time_conds-ids w1 pre in
      let same : HasIds timed pre = (ground (arith, p), ground (arith, q)) in
      (
        tariff_free_limit-db w1 timed ∙ tariff_has_tc-db w pre,
        ids_trans (tariff_free_limit host w1 timed).1 timed pre (tariff_free_limit-ids w1 timed)
            same,
      )

  prefix_loop-IsKept :
      (rates : List Rate) (w : World Db) (pre : Call)
      → IsKept w pre (prefix_loop host rates w pre).0 (prefix_loop host rates w pre).1
  unfolding prefix_loop
  prefix_loop-IsKept [] w pre = (refl, (refl, refl))
  prefix_loop-IsKept (rt ∷ rates) w pre =
      let found = rate_matches pre rt in
      let (d, (p, q)) = rt_chk_tr_opt-IsKept w (take_rate rt pre) in
      let (w1, pre1) = if found then rt_chk_tr_opt host w (take_rate rt pre) else (w, pre) in
      let d1 : w1.db ≡ w.db = ground (arith, d) in
      let p1 : pre1.cdr_id ≡ pre.cdr_id = ground (arith, p) in
      let q1 : pre1.bal_id ≡ pre.bal_id = ground (arith, q) in
      let (d2, (p2, q2)) = prefix_loop-IsKept rates w1 pre1 in
      (ground (arith, d1, d2), (ground (arith, p1, p2), ground (arith, q1, q2)))

  rt_data_q_rate_sql-db : (w : World Db) (id : ℕ) → (rt_data_q_rate_sql host w id).0.db ≡ w.db
  unfolding rt_data_q_rate_sql
  rt_data_q_rate_sql-db w id = ground arith

  rt_data_q_tariff_sql-db : (w : World Db) (id : ℕ) → (rt_data_q_tariff_sql host w id).0.db ≡ w.db
  unfolding rt_data_q_tariff_sql
  rt_data_q_tariff_sql-db w id = ground arith

  rt_data_q_rate-kept :
      (w : World Db) (rtp : Racc)
      → let (w1, found) = rt_data_q_rate host w rtp in (w1.db ≡ w.db) × IsSame found rtp
  unfolding rt_data_q_rate
  rt_data_q_rate-kept w rtp =
      let sql = rt_data_q_rate_sql-db w rtp.bplan.id in
      elim (Option-cases (rt_data_q_rate_sql host w rtp.bplan.id).1) [
        | inl e ↦
            (ground (arith, e, sql), (ground (arith, e), ground (arith, e), ground (arith, e)))
        | inr (rates, e) ↦
            let w1 = (rt_data_q_rate_sql host w rtp.bplan.id).0 in
            let (d, (p, q)) = prefix_loop-IsKept rates w1 rtp.call in
            let (w2, pre, chosen) = prefix_loop host rates w1 rtp.call in
            let tr = rt_data_q_tariff_sql-db w2 pre.tariff_id in
            (
              ground (arith, e, sql, d, tr),
              (ground (arith, e), ground (arith, e, p), ground (arith, e, q)),
            )
      ]

module _ (host : Host Log) where
  load_balance-IsSame :
      (db : Log) (rtp : Racc) (card : Pcard) → IsSame (load_balance host db rtp card) rtp
  unfolding load_balance
  load_balance-IsSame db rtp card =
      let loaded = with_bal (host.bal db rtp.bacc card.start card.end) rtp in
      let used = with_free_billsec (host.free_used db loaded card.start card.end) loaded in
      let (a, b, c) = with_bal-IsSame (host.bal db rtp.bacc card.start card.end) rtp in
      let (a1, b1, c1) =
        with_free_billsec-IsSame (host.free_used db loaded card.start card.end) loaded in
      let (a2, b2, c2) = with_free_sum-IsSame (host.free_sum db used) used in
      (ground (arith, a, a1, a2), ground (arith, b, b1, b2), ground (arith, c, c1, c2))

  rt_prerating_process-IsQuiet :
      (w : World Log) (rtp : Racc) (card : Pcard)
      → let (w1, rtp1, failed) = rt_prerating_process (with_log host) w rtp card in
        IsQuiet w.db rtp (w1.db, rtp1)
  unfolding rt_prerating_process load_balance legs frees
  rt_prerating_process-IsQuiet w rtp card =
      let Quiet : World Log × Racc × Bool → Type 0 =
        λ (w1, rtp1, failed). IsQuiet w.db rtp (w1.db, rtp1) in
      let same = load_balance-IsSame w.db rtp card in
      let none_sent : IsQuiet w.db rtp (w.db, rtp) = ((refl, refl, refl), refl, λ z. refl) in
      if_ind Quiet (is_unpaid (with_log host) w.db rtp card) _ _ none_sent (
        if_ind Quiet (not (is_set card.start && is_set card.end)) _ _ none_sent
          (if_ind Quiet _ _ _ none_sent (same, refl, λ z. refl)))

  prerate-IsQuiet :
      (w : World Log) (found : Racc)
      → let (w1, rtp1) = prerate (with_log host) w found in IsQuiet w.db found (w1.db, rtp1)
  unfolding prerate
  prerate-IsQuiet w found = elim (Option-cases found.bplan.rates_ptr) [
    | inl e ↦ quiet (ground (arith, e))
    | inr (rates, e) ↦ elim (Option-cases found.bacc.pcard) [
      | inl f ↦ quiet (ground (arith, e, f))
      | inr (card, f) ↦
          let ((a, b, c), l, r) = rt_prerating_process-IsQuiet w found card in
          let p : prerate (with_log host) w found ≡ (
            (rt_prerating_process (with_log host) w found card).0,
            (rt_prerating_process (with_log host) w found card).1,
          ) =
            ground (arith, e, f) in
          rw p ((a, b, c), l, r)
    ]
  ]
    where
      quiet :
          prerate (with_log host) w found ≡ (w, found)
          → let (w1, rtp1) = prerate (with_log host) w found in IsQuiet w.db found (w1.db, rtp1)
      quiet p = rw p ((refl, refl, refl), refl, λ z. refl)

  -- The search for the rate of a record.
  pub rt_rate_searching-IsQuiet :
      (w : World Log) (rtp : Racc)
      → let (w1, found) = rt_rate_searching (with_log host) w rtp in IsQuiet w.db rtp (w1.db, found)
  unfolding rt_rate_searching
  rt_rate_searching-IsQuiet w rtp =
      let (d, same) = rt_data_q_rate-kept (with_log host) w rtp in
      let (searched, found) = rt_data_q_rate (with_log host) w rtp in
      let (w1, rtp1) = prerate (with_log host) searched found in
      IsQuiet-trans w.db rtp searched.db found (w1.db, rtp1) (same, ap legs d, λ z. ap frees d)
        (prerate-IsQuiet searched found)
