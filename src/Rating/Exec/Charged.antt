-- ===== src/Rating/Exec/Charged.antt =====
-- The charges to balances: the statements that set or insert a balance.
use rate_engine.Base.{
  ℕ, suc, ◌≤◌, ◌≡◌, refl, Option, none, some, [], ◌∷◌, arith, ltb, pos, ◌==ℤ◌, ◌&&◌, not, Text,
  is_set, if◌then◌else◌, if_ind,
}
use rate_engine.Rating.Data.{Pcard, Call, Racc}
use rate_engine.Rating.World.{Host}
use rate_engine.Rating.Account.{with_bal, with_free_billsec}
use rate_engine.Rating.Ledger.{
  Log, Books, set_balance, add_balance, insert_rating, rt_balance_exec, rt_data_q_bal_add,
  add_price, write_free, create_free_billsec_balance, update_free_billsec_balance,
  f_free_bal_id_query, free_billsec_exec,
}
use rate_engine.Rating.Exec.{settle_free_on}

-- The statements that charge a balance.
unfoldable pub charges : Log → ℕ
charges [] = 0
charges (set_balance id amount ∷ db) = suc (charges db)
charges (add_balance id start stop amount ∷ db) = suc (charges db)
charges (_ ∷ db) = charges db

module _ (books : Books) (host : Host Log) where
  pub insert_rating-charges :
      (db : Log) (rtp : Racc) (card_id : ℕ)
      → charges (insert_rating books db rtp card_id).0 ≡ charges db
  unfolding insert_rating charges
  insert_rating-charges db rtp card_id = refl

  rt_balance_exec-charges :
      (db : Log) (rtp : Racc) (start stop : Text)
      → charges (rt_balance_exec books host db rtp start stop).0 ≡ suc (charges db)
  unfolding rt_balance_exec rt_data_q_bal_add charges
  rt_balance_exec-charges db rtp start stop =
      let loaded =
        if ltb 0 rtp.bal.id then rtp else with_bal (host.bal db rtp.bacc start stop) rtp in
      if_ind (λ l. charges l ≡ suc (charges db)) (ltb 0 (add_price loaded).bal.id) _ _ refl refl

  update_free_billsec_balance-charges :
      (db : Log) (pre : Call) → charges (update_free_billsec_balance books db pre) ≡ charges db
  unfolding update_free_billsec_balance charges
  update_free_billsec_balance-charges db pre =
      if_ind (λ l. charges l ≡ charges db) (ltb 0 pre.bal_id && ltb 0 pre.tariff_id) _ _ refl refl

  write_free-charges : (db : Log) (pre : Call) → charges (write_free books db pre).0 ≡ charges db
  unfolding write_free create_free_billsec_balance charges
  write_free-charges db pre =
      if_ind (λ (s : Log × Call). charges s.0 ≡ charges db) (ltb 0 pre.free_id) _ _
        (update_free_billsec_balance-charges db pre) refl

  free_billsec_exec-charges :
      (db : Log) (rtp : Racc) (start stop : Text)
      → charges (free_billsec_exec books host db rtp start stop).0 ≡ charges db
  unfolding free_billsec_exec
  free_billsec_exec-charges db rtp start stop =
      let used = with_free_billsec (host.free_used db rtp start stop) rtp in
      write_free-charges db (f_free_bal_id_query books db used.call)

  -- The settlement of the free seconds charges the balance once at most.
  pub settle_free_on-charges :
      (o : Option Pcard) (db : Log) (rtp : Racc)
      → charges (settle_free_on books host o db rtp).0 ≤ suc (charges db)
  unfolding settle_free_on
  settle_free_on-charges none db rtp = omega arith
  settle_free_on-charges (some card) db rtp =
      let (db1, rtp1) = rt_balance_exec books host db rtp card.start card.end in
      let once = rt_balance_exec-charges db rtp card.start card.end in
      let same = free_billsec_exec-charges db1 rtp1 card.start card.end in
      if_ind (λ (s : Log × Racc). charges s.0 ≤ suc (charges db))
        (not (is_set card.start && is_set card.end)) _ _ (omega arith)
        (if_ind (λ (s : Log × Racc). charges s.0 ≤ suc (charges db))
          (rtp1.call.free_billsec_limit ==ℤ pos 0) _ _ (omega (arith, once))
          (omega (arith, once, same)))
