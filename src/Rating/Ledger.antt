-- ===== src/Rating/Ledger.antt =====
-- The statements that the rating of a record sends to the database, and the operations that send
-- them: rt_data_q_rating_add and rt_data_q_bal_add of rt_data_q.c with rt_rating_save and
-- rt_balance_exec of rating.c, free_billsec_exec of free_billsec.c, and cdr_update_cdr of
-- CDRMediator/cdr.c, on SQL. The database is the list of the statements sent, the last one first;
-- what it answers to a query is a function of that list.
use rate_engine.Base.{
  ℕ, Bool, ◌&&◌, ◌||◌, List, ◌∷◌, Option, none, some, ltb, ◌==◌, if◌then◌else◌, ℤ, pos, ◌+ℤ◌, ltb_ℤ,
  Text,
}
use rate_engine.Rating.Data.{Pcard, Bacc, Call, Racc}
use rate_engine.Rating.World.{Host}
use rate_engine.Rating.Account.{with_bal, with_free_billsec, with_free_sum}

pub data Statement : Type 0 where
  -- `insert into rating`: the call, the account and the card.
  add_rating : Call → ℕ → ℕ → Statement
  -- `update balance`, by id, and `insert into balance`, by account and period.
  set_balance : ℕ → ℤ → Statement
  add_balance : ℕ → Text → Text → ℤ → Statement
  -- `free_billsec_balance`: the seconds of a balance and of free seconds, by their ids.
  set_free : ℕ → ℕ → ℤ → Statement
  add_free : ℕ → ℕ → ℤ → Statement
  -- `update cdrs set leg_%c = %d`: the leg, the rating and the record.
  set_leg : ℕ → ℤ → ℤ → Statement
  -- `update pcard set pcard_status_id`.
  set_pcard : ℕ → ℕ → Statement

abbrev pub Log : Type 0
Log = List Statement

pub record Books : Type 0 where
  -- Is the call already rated on the account, and the id that an `insert into rating` returns.
  pub is_rated : Log → Call → Bacc → Bool
  pub new_id : Log → Option ℤ
  -- The row of `f_free_bal_id_query`, by the ids of the balance and of the free seconds.
  pub free_id : Log → ℕ → ℕ → Option ℕ
  -- `free_billsec_sms_balance`: the free messages of the period.
  pub sms_count : Log → Racc → Text → Text → Option ℤ

-- A host whose cards are blocked by a statement.
abbrev pub with_log : Host Log → Host Log
with_log host = record host { pcard_set = λ db id status. set_pcard id status ∷ db }

unfoldable pub cdr_update_cdr : Log → ℤ → ℤ → ℕ → Log
cdr_update_cdr db rating_id cdr_id leg =
    if ltb_ℤ (pos 0) cdr_id && ((leg == b'a') || (leg == b'b'))
    then set_leg leg rating_id cdr_id ∷ db
    else db

abbrev pub with_call : Racc → Call → Racc
with_call rtp pre = record rtp { call = pre }

abbrev pub with_rating_id : Racc → ℤ → Racc
with_rating_id rtp id = record rtp { call = record (rtp.call) { rating_id = id } }

-- `rt_data_q_bal_add_sql`.
unfoldable pub rt_data_q_bal_add : Log → Racc → Text → Text → Log
rt_data_q_bal_add db rtp start stop =
    if ltb 0 rtp.bal.id
    then set_balance rtp.bal.id rtp.bal.amount ∷ db
    else add_balance rtp.bacc.id start stop rtp.bal.amount ∷ db

abbrev pub add_price : Racc → Racc
add_price rtp = record rtp { bal = record (rtp.bal) { amount = rtp.bal.amount +ℤ rtp.call.cprice } }

module _ (books : Books) where
  abbrev pub with_new_id : Option ℤ → Racc → Racc
  with_new_id none rtp = rtp
  with_new_id (some id) rtp = with_rating_id rtp id

  unfoldable pub insert_rating : Log → Racc → ℕ → Log × Racc
  insert_rating db rtp card_id =
      let added = add_rating rtp.call rtp.bacc.id card_id ∷ db in
      (added, with_new_id (books.new_id added) rtp)

  -- `rt_data_q_rating_add_sql`. It reads the card of the account without a test for NULL: no
  -- result.
  unfoldable pub add_rating_on : Option Pcard → Log → Racc → Option (Log × Racc)
  add_rating_on none db rtp = none
  add_rating_on (some card) db rtp = some (
      if books.is_rated db rtp.call rtp.bacc
      then (db, with_rating_id rtp (pos 0))
      else insert_rating db rtp card.id)

  abbrev pub rt_data_q_rating_add : Log → Racc → Option (Log × Racc)
  rt_data_q_rating_add db rtp = add_rating_on rtp.bacc.pcard db rtp

  unfoldable pub rt_rating_save : Log → Racc → Option (Log × Racc)
  rt_rating_save db rtp =
      if ltb_ℤ (pos 0) rtp.call.cdr_id then rt_data_q_rating_add db rtp else some (db, rtp)

  abbrev pub with_free_id : Option ℕ → Call → Call
  with_free_id none pre = pre
  with_free_id (some id) pre = record pre { free_id = id }

  unfoldable pub f_free_bal_id_query : Log → Call → Call
  f_free_bal_id_query db pre = with_free_id (books.free_id db pre.bal_id pre.free_billsec_id) pre

  unfoldable pub create_free_billsec_balance : Log → Call → Log × Call
  create_free_billsec_balance db pre =
      let added = add_free pre.bal_id pre.free_billsec_id pre.free_billsec ∷ db in
      (added, f_free_bal_id_query added pre)

  unfoldable pub update_free_billsec_balance : Log → Call → Log
  update_free_billsec_balance db pre =
      if ltb 0 pre.bal_id && ltb 0 pre.tariff_id
      then set_free pre.bal_id pre.free_billsec_id pre.free_billsec ∷ db
      else db

  -- The row of the free seconds is written: by its id, or a new one.
  unfoldable pub write_free : Log → Call → Log × Call
  write_free db pre =
      if ltb 0 pre.free_id
      then (update_free_billsec_balance db pre, pre)
      else create_free_billsec_balance db pre

  module _ (host : Host Log) where
    unfoldable pub rt_balance_exec : Log → Racc → Text → Text → Log × Racc
    rt_balance_exec db rtp start stop =
        let loaded =
          if ltb 0 rtp.bal.id then rtp else with_bal (host.bal db rtp.bacc start stop) rtp in
        (rt_data_q_bal_add db (add_price loaded) start stop, add_price loaded)

    -- No query fails on an SQL database.
    unfoldable pub free_billsec_exec : Log → Racc → Text → Text → Log × Racc
    free_billsec_exec db rtp start stop =
        let used = with_free_billsec (host.free_used db rtp start stop) rtp in
        let (written, pre) = write_free db (f_free_bal_id_query db used.call) in
        (written, with_free_sum (host.free_sum written (with_call used pre)) (with_call used pre))
