-- ===== src/Rating/Exec.antt =====
-- Offline rating of one record: rt_exec, rt_double_rating and rt_main of rating.c. A result of
-- `none` stands for the process that dies on a NULL pointer.
pub mod Same
pub mod Searched
pub mod Carded
pub mod Billed
pub mod Free
pub mod Double
pub mod Charged
use rate_engine.Base.{
  ◌>>=◌, ℕ, ◌&&◌, List, Option, none, some, ltb, ◌==◌, if◌then◌else◌, ℤ, pos, negsuc, ◌-ℤ◌, ltb_ℤ,
  leb_ℤ, ◌==ℤ◌, not, is_set,
}
use rate_engine.Rating.Data.{CalcFunction, Pcard, Racc}
use rate_engine.Rating.Mode.{sms}
use rate_engine.Rating.Calc.{calc_cprice_group, round_billsec}
use rate_engine.Rating.World.{Host, World}
use rate_engine.Rating.Search.{rt_chk_bplan_periods}
use rate_engine.Rating.Account.{rt_rate_searching, with_free_billsec}
use rate_engine.Rating.Ledger.{
  Log, Books, with_log, with_call, with_rating_id, cdr_update_cdr, rt_rating_save, rt_balance_exec,
  free_billsec_exec,
}

-- `bplan_ptr->rates_ptr->calc_funcs`.
abbrev pub tariff : Racc → Option (List CalcFunction)
tariff rtp = elim rtp.bplan.rates_ptr [ none ↦ none | some rates ↦ rates.calc_funcs ]

-- `calc_cprice_group(rtp)`.
abbrev pub price : Racc → Racc × ℤ
price rtp = let (pre, ret) = calc_cprice_group (tariff rtp) rtp.call in (with_call rtp pre, ret)

abbrev pub with_billsec : Racc → ℤ → Racc
with_billsec rtp n = with_call rtp (record (rtp.call) { billsec = n })

-- The seconds of a call, rounded where the account rounds and the rounding is not 0.
unfoldable pub round_call : Racc → Racc
round_call rtp =
    let rounded =
      if rtp.bacc.round_mode_id == 0
      then pos 0
      else round_billsec rtp.bacc.round_mode_id rtp.call.billusec in
    if rounded ==ℤ pos 0 then rtp else with_billsec rtp rounded

-- The world with its database.
abbrev pub stored : World Log → Log × Racc → World Log × Racc
stored w (db, rtp) = (record w { db = db }, rtp)

-- The result of a part of the rating: the database, the account with its call, the return value.
abbrev pub Part : Type 0
Part = Option (Log × Racc × ℤ)

abbrev pub unrated : Racc → Racc
unrated rtp = with_rating_id rtp (negsuc 0)

module _ (books : Books) (host : Host Log) where
  -- The label `no_free_billsec` of `rt_double_rating`.
  unfoldable pub no_free_billsec : Log → Racc → Part
  no_free_billsec db rtp =
      let (priced, ret) = price rtp in
      if ret ==ℤ negsuc 0
      then some (db, priced, negsuc 0)
      else do (db1, saved) ← rt_rating_save books db priced; some (db1, saved, pos 0)

  -- Between the two phases the balance and the free seconds of a dated card are brought up to date.
  unfoldable pub settle_free_on : Option Pcard → Log → Racc → Log × Racc
  settle_free_on none db rtp = (db, rtp)
  settle_free_on (some card) db rtp =
      let (db1, rtp1) = rt_balance_exec books host db rtp card.start card.end in
      if not (is_set card.start && is_set card.end)
      then (db, rtp)
      else if rtp1.call.free_billsec_limit ==ℤ pos 0
      then (db1, rtp1)
      else free_billsec_exec books host db1 rtp1 card.start card.end

  abbrev pub settle_free : Log → Racc → Log × Racc
  settle_free db rtp = settle_free_on rtp.bacc.pcard db rtp

  -- Phase 2 of a call whose first part was saved.
  unfoldable pub second_phase : ℤ → Log → Racc → Part
  second_phase no_free_sec db saved =
      let (db1, settled) = settle_free db (with_billsec saved no_free_sec) in
      no_free_billsec db1 settled

  unfoldable pub rt_double_rating : Log → Racc → Part
  rt_double_rating db rtp =
      let pre = rtp.call in
      let free_sec = pre.free_billsec_limit -ℤ pre.free_billsec_sum in
      let (first, ret) = price (with_billsec rtp free_sec) in
      if leb_ℤ free_sec (pos 0)
      then no_free_billsec db rtp
      else if ret ==ℤ pos 0
      then (rt_rating_save books db first >>= λ (db1, saved).
          second_phase (pre.billsec -ℤ free_sec) db1 saved)
      else if ret ==ℤ pos 1
      then no_free_billsec db (with_billsec first pre.billsec)
      else some (db, first, negsuc 0)

  -- Messages count the free ones of the period.
  unfoldable pub count_sms_on : Option Pcard → Log → Racc → Racc
  count_sms_on none db rtp = rtp
  count_sms_on (some card) db rtp =
      if (rtp.rtm == sms) && ltb 0 rtp.call.free_billsec_id
      then with_free_billsec (books.sms_count db rtp card.start card.end) rtp
      else rtp

  abbrev pub count_sms : Log → Racc → Racc
  count_sms db rtp = count_sms_on rtp.bacc.pcard db rtp

  -- The `switch(ret)` of `rt_exec`; a return value is 0, -1 or 1.
  unfoldable pub rate_call : Log → Racc → Option (Log × Racc)
  rate_call db rtp =
      let (priced, ret) = price (count_sms db (round_call rtp)) in
      if ret ==ℤ pos 0
      then rt_rating_save books db priced
      else if ret ==ℤ negsuc 0
      then some (db, unrated priced)
      else do
        (db1, done, ret2) ← rt_double_rating db priced
        some (db1, if ret2 ==ℤ negsuc 0 then unrated done else done)

  -- A rated call is added to the balance of its card's period.
  unfoldable pub settle_on : Option Pcard → Log → Racc → Log × Racc
  settle_on none db rtp = (db, rtp)
  settle_on (some card) db rtp =
      let (db1, rtp1) = rt_balance_exec books host db rtp card.start card.end in
      if not (rtp1.call.free_billsec_limit ==ℤ pos 0) && ltb rtp1.call.rating_mode_id sms
      then free_billsec_exec books host db1 rtp1 card.start card.end
      else (db1, rtp1)

  abbrev pub settle : Log → Racc → Log × Racc
  settle db rtp = settle_on rtp.bacc.pcard db rtp

  -- The end of `rt_exec`: the record is marked, and a new rating is settled.
  unfoldable pub close : ℕ → Log × Racc → Log × Racc
  close leg (db, rtp) =
      let pre = rtp.call in
      let mark = if pre.rating_id ==ℤ pos 0 then negsuc 0 else pre.rating_id in
      let marked = cdr_update_cdr db mark pre.cdr_id leg in
      if ltb_ℤ (pos 0) pre.rating_id then settle marked rtp else (marked, rtp)

  -- With the tariff that the search attached.
  unfoldable pub rate_on : Option (List CalcFunction) → Log → Racc → Option (Log × Racc)
  rate_on none db rtp = some (db, unrated rtp)
  rate_on (some tr) db rtp = rate_call db rtp

  unfoldable pub rt_exec : ℕ → World Log → Racc → Option (World Log × Racc)
  rt_exec leg w rtp =
      let planned = record rtp { bplan = rt_chk_bplan_periods rtp.bplan rtp.call.ts } in
      let (searched, found) = rt_rate_searching (with_log host) w planned in
      if rtp.rtm == 0 then some (stored w (close leg (w.db, unrated planned))) else do
        rated ← rate_on (tariff found) searched.db found
        some (stored searched (close leg rated))
