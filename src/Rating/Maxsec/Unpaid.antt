-- ===== src/Rating/Maxsec/Unpaid.antt =====
-- A request for a card that the search has just blocked.
use rate_engine.Base.{ℕ, ◌≡◌, inl, inr, true, some, arith, Option-cases}
use rate_engine.Rating.Data.{Pcard, RateTable, Racc}
use rate_engine.Rating.Pcard.{pcard_block}
use rate_engine.Rating.World.{Host, World}
use rate_engine.Rating.Search.{rt_data_q_rate, rt_data_q_rate_sql}
use rate_engine.Rating.Account.{is_unpaid, rt_prerating_process, prerate, rt_rate_searching}
use rate_engine.Rating.Maxsec.{grant_found, check_pcard}

module _ {Db : Type 0} (host : Host Db) where
  rt_data_q_rate-bal : (w : World Db) (rtp : Racc) → (rt_data_q_rate host w rtp).1.bal ≡ rtp.bal
  unfolding rt_data_q_rate
  rt_data_q_rate-bal w rtp = elim (Option-cases (rt_data_q_rate_sql host w rtp.bplan.id).1) [
    | inl e ↦ ground (arith, e)
    | inr (rates, e) ↦ ground (arith, e)
  ]

  rt_data_q_rate-bacc : (w : World Db) (rtp : Racc) → (rt_data_q_rate host w rtp).1.bacc ≡ rtp.bacc
  unfolding rt_data_q_rate
  rt_data_q_rate-bacc w rtp = elim (Option-cases (rt_data_q_rate_sql host w rtp.bplan.id).1) [
    | inl e ↦ ground (arith, e)
    | inr (rates, e) ↦ ground (arith, e)
  ]

  prerate-unpaid :
      (w : World Db) (found : Racc) (rates : RateTable) (card : Pcard)
      → found.bplan.rates_ptr ≡ some rates
      → found.bacc.pcard ≡ some card
      → is_unpaid host w.db found card ≡ true
      → prerate host w found ≡ (record w { db = host.pcard_set w.db card.id pcard_block }, found)
  unfolding prerate rt_prerating_process
  prerate-unpaid w found rates card r c u = ground (arith, r, c, u)

  -- When the account has rates and its unpaid balances block its card, the card's status is set
  -- and the request is answered all the same, on the balance that the account came with.
  pub check_pcard-unpaid :
      (w : World Db) (sim : ℕ) (rtp : Racc) (rates : RateTable) (card : Pcard)
      → rtp.bacc.pcard ≡ some card
      → let (searched, found) = rt_data_q_rate host w rtp in
        found.bplan.rates_ptr ≡ some rates
        → is_unpaid host searched.db found card ≡ true
        → (found.bal ≡ rtp.bal)
          × (check_pcard host w sim rtp ≡ (
            record searched { db = host.pcard_set searched.db card.id pcard_block },
            grant_found host sim found card,
          ))
  unfolding check_pcard rt_rate_searching
  check_pcard-unpaid w sim rtp rates card c r u =
      let (searched, found) = rt_data_q_rate host w rtp in
      let same = rt_data_q_rate-bacc w rtp in
      let blocked = prerate-unpaid searched found rates card r (ground (arith, c, same)) u in
      (rt_data_q_rate-bal w rtp, ground (arith, c, blocked))
