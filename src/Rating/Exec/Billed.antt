-- ===== src/Rating/Exec/Billed.antt =====
-- What the rating of one record sends to the database.
use rate_engine.Base.{
  Bool-cases, inl, inr, if◌then◌else◌, ap, ◌>>=◌, ℕ, ◌≡◌, refl, true, false, Option, none, some,
  List, ◌∷◌, arith, ltb, ltb_ℤ, pos, negsuc, ◌+ℤ◌, ◌==◌, ◌||◌, ℤ,
}
use rate_engine.Rating.Data.{CalcFunction, Pcard, Racc}
use rate_engine.Rating.World.{Host, World}
use rate_engine.Rating.Ledger.{
  Log, Books, with_log, add_rating, set_leg, set_balance, cdr_update_cdr, rt_rating_save,
  add_rating_on, insert_rating, with_rating_id, rt_balance_exec, rt_data_q_bal_add,
}
use rate_engine.Rating.Account.{rt_rate_searching}
use rate_engine.Rating.Search.{rt_chk_bplan_periods}
use rate_engine.Rating.Exec.{
  rate_on, rt_exec, stored, price, round_call, count_sms, rate_call, settle_on, close, tariff,
}

-- The call of an account, priced in one part, and the return value.
abbrev pub priced_part : Books → Host Log → World Log → Racc → (World Log × Racc × ℤ)
priced_part books host w rtp =
    let planned = record rtp { bplan = rt_chk_bplan_periods rtp.bplan rtp.call.ts } in
    let (searched, found) = rt_rate_searching (with_log host) w planned in
    let (priced, ret) = price (count_sms books host searched.db (round_call found)) in
    (searched, priced, ret)

-- The statements of a database after a step.
abbrev pub log_of : Option (World Log × Racc) → Option Log
log_of none = none
log_of (some (w, rtp)) = some w.db

module _ (books : Books) (host : Host Log) where
  -- A record with a saved row, of an account with a card whose balance is loaded, is marked with
  -- the row, and its price is added to the balance; with a price of 0 as well.
  pub close-billed :
      (leg : ℕ) (db : Log) (rtp : Racc) (card : Pcard)
      → rtp.bacc.pcard ≡ some card
      → ltb 0 rtp.bal.id ≡ true
      → rtp.call.free_billsec_limit ≡ pos 0
      → ltb_ℤ (pos 0) rtp.call.rating_id ≡ true
      → ltb_ℤ (pos 0) rtp.call.cdr_id ≡ true
      → ((leg == b'a') || (leg == b'b')) ≡ true
      → (close books host leg (db, rtp)).0
        ≡ set_balance rtp.bal.id (rtp.bal.amount +ℤ rtp.call.cprice)
          ∷ set_leg leg rtp.call.rating_id rtp.call.cdr_id
          ∷ db
  unfolding close settle_on rt_balance_exec rt_data_q_bal_add cdr_update_cdr
  close-billed leg db rtp card h b f r c l = ground (arith, h, b, f, r, c, l)

  rt_rating_save-new :
      (db : Log) (rtp : Racc) (card : Pcard) (id : ℤ)
      → rtp.bacc.pcard ≡ some card
      → ltb_ℤ (pos 0) rtp.call.cdr_id ≡ true
      → books.is_rated db rtp.call rtp.bacc ≡ false
      → books.new_id (add_rating rtp.call rtp.bacc.id card.id ∷ db) ≡ some id
      → rt_rating_save books db rtp
        ≡ some (add_rating rtp.call rtp.bacc.id card.id ∷ db, with_rating_id rtp id)
  unfolding rt_rating_save add_rating_on insert_rating
  rt_rating_save-new db rtp card id h c r n = ground (arith, h, c, r, n)

  pub rt_rating_save-old :
      (db : Log) (rtp : Racc) (card : Pcard)
      → rtp.bacc.pcard ≡ some card
      → ltb_ℤ (pos 0) rtp.call.cdr_id ≡ true
      → books.is_rated db rtp.call rtp.bacc ≡ true
      → rt_rating_save books db rtp ≡ some (db, with_rating_id rtp (pos 0))
  unfolding rt_rating_save add_rating_on
  rt_rating_save-old db rtp card h c r = ground (arith, h, c, r)

  pub close-old :
      (leg : ℕ) (db : Log) (rtp : Racc)
      → ltb_ℤ (pos 0) rtp.call.cdr_id ≡ true
      → ((leg == b'a') || (leg == b'b')) ≡ true
      → (close books host leg (db, with_rating_id rtp (pos 0))).0
        ≡ set_leg leg (negsuc 0) rtp.call.cdr_id ∷ db
  unfolding close cdr_update_cdr
  close-old leg db rtp c l = ground (arith, c, l)

  rate_call-single :
      (db : Log) (rtp : Racc)
      → (price (count_sms books host db (round_call rtp))).1 ≡ pos 0
      → rate_call books host db rtp
        ≡ rt_rating_save books db (price (count_sms books host db (round_call rtp))).0
  unfolding rate_call
  rate_call-single db rtp e = ground (arith, e)

  -- The call has a mode, and the search attached a tariff to its plan.
  abbrev pub IsPriced : World Log → Racc → List CalcFunction → Type 0
  IsPriced w rtp tr =
      let planned = record rtp { bplan = rt_chk_bplan_periods rtp.bplan rtp.call.ts } in
      ((rtp.rtm == 0) ≡ false) × (tariff (rt_rate_searching (with_log host) w planned).1 ≡ some tr)

  rt_exec-single :
      (leg : ℕ) (w : World Log) (rtp : Racc) (tr : List CalcFunction)
      → IsPriced w rtp tr
      → let (searched, priced, ret) = priced_part books host w rtp in
        ret ≡ pos 0
        → rt_exec books host leg w rtp ≡ (
            rt_rating_save books searched.db priced >>= λ s.
            some (stored searched (close books host leg s)))
  unfolding rt_exec rate_on
  rt_exec-single leg w rtp tr (m, t) e =
      let planned = record rtp { bplan = rt_chk_bplan_periods rtp.bplan rtp.call.ts } in
      let (searched, found) = rt_rate_searching (with_log host) w planned in
      let once = rate_call-single searched.db found e in rw (m, t, once) refl

  -- A call that is priced in one part, on an account with a card, a loaded balance and no free
  -- seconds, is rated once: when its row is new, three statements are sent, the row, the mark of
  -- the record with the row's id, and the balance with the price added; when the call is rated
  -- already, the record is marked with -1 and nothing else is sent.
  pub rt_exec-charges :
      (leg : ℕ) (w : World Log) (rtp : Racc) (tr : List CalcFunction) (card : Pcard) (id : ℤ)
      → IsPriced w rtp tr
      → let (searched, priced, ret) = priced_part books host w rtp in
        let row = add_rating priced.call priced.bacc.id card.id in
        ret ≡ pos 0
        → priced.bacc.pcard ≡ some card
        → ltb 0 priced.bal.id ≡ true
        → priced.call.free_billsec_limit ≡ pos 0
        → ltb_ℤ (pos 0) priced.call.cdr_id ≡ true
        → ((leg == b'a') || (leg == b'b')) ≡ true
        → books.new_id (row ∷ searched.db) ≡ some id
        → ltb_ℤ (pos 0) id ≡ true
        → log_of (rt_exec books host leg w rtp)
          ≡ some (
              if books.is_rated searched.db priced.call priced.bacc
              then set_leg leg (negsuc 0) priced.call.cdr_id ∷ searched.db
              else set_balance priced.bal.id (priced.bal.amount +ℤ priced.call.cprice)
                ∷ set_leg leg id priced.call.cdr_id
                ∷ row
                ∷ searched.db)
  unfolding ◌>>=◌
  rt_exec-charges leg w rtp tr card id p e h b f c l n i =
      let (searched, priced, ret) = priced_part books host w rtp in
      let row = add_rating priced.call priced.bacc.id card.id in
      let closed =
        close-billed leg (row ∷ searched.db) (with_rating_id priced id) card h b f i c l in
      elim (Bool-cases (books.is_rated searched.db priced.call priced.bacc)) [
        | inl r ↦
            rw
              (rt_exec-single leg w rtp tr p e, rt_rating_save-old searched.db priced card h c r, r)
              (ap some (close-old leg searched.db priced c l))
        | inr r ↦
            rw
              (
                rt_exec-single leg w rtp tr p e,
                rt_rating_save-new searched.db priced card id h c r n,
                r,
              )
              (ap some closed)
      ]
