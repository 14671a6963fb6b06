-- ===== src/Rating/Account.antt =====
-- The account of a call: pcard_manager of pcard.c with its cache, rt_prerating_process and
-- rt_rate_searching of rating.c, and the choice of the account by rt_racc_* and rt_main.
use rate_engine.Base.{
  ℕ, ◌-◌, ◌%◌, Bool, true, false, ◌&&◌, ◌||◌, not, List, [], ◌∷◌, ◌++◌, Option, none, some, ltb,
  leb, ◌==◌, if◌then◌else◌, ℤ, pos, ◌==ℤ◌, is_set, length, get_elem?,
}
use rate_engine.Rating.Data.{Pcard, Bal, Call, Racc}
use rate_engine.Rating.Mode.{clg, acode, srcc, dstc, srctg, dsttg}
use rate_engine.Rating.Pcard.{pcard_manager, call_time, pcard_block}
use rate_engine.Rating.World.{Host, World}
use rate_engine.Rating.Search.{rt_data_q_rate, some_rows}
use rate_engine.Rating.Cache.Kinds.{rt_cache_pcard_get, rt_cache_pcard_put}

-- `check_date_valid` of misc/exten/time_funcs.c, on the numbers that `sscanf` read. For month 0 it
-- reads the word before the array.
abbrev pub days_in_month : ℕ → List ℕ
days_in_month y =
    let leap = (y % 400 == 0) || (not (y % 100 == 0) && (y % 4 == 0)) in
    31 ∷ (if leap then 29 else 28) ∷ 31 ∷ 30 ∷ 31 ∷ 30 ∷ 31 ∷ 31 ∷ 30 ∷ 31 ∷ 30 ∷ 31 ∷ []

unfoldable pub check_date_valid : ℕ → ℕ × ℕ × ℕ → Bool
check_date_valid stray (y, m, d) =
    let days : Option ℕ = if m == 0 then some stray else get_elem? (days_in_month y) (m - 1) in
    if ltb m 13 then elim days [ none ↦ false | some n ↦ leb d n ] else false

-- Is a day past the day of payment?
unfoldable pub is_overdue : ℕ → ℕ → ℕ → Bool
is_overdue day bday pp =
    if ltb 0 pp then (if ltb pp bday then ltb day bday && leb pp day else leb pp day) else false

-- A query that finds no row leaves the values as they are.
unfoldable pub with_bal : Option Bal → Racc → Racc
with_bal none rtp = rtp
with_bal (some row) rtp = record rtp { bal = row }

unfoldable pub with_free_billsec : Option ℤ → Racc → Racc
with_free_billsec none rtp = rtp
with_free_billsec (some n) rtp = record rtp { call = record (rtp.call) { free_billsec = n } }

unfoldable pub with_free_sum : Option ℤ → Racc → Racc
with_free_sum none rtp = rtp
with_free_sum (some n) rtp = record rtp { call = record (rtp.call) { free_billsec_sum = n } }

module _ {Db : Type 0} (host : Host Db) where
  -- The cards that pcard_manager walks: the cached ones, or the rows of the query.
  unfoldable pub account_cards : World Db → ℕ → World Db × Option (List Pcard)
  account_cards w bacc_id =
      let rows = some_rows (host.pcard_rows w.db bacc_id) in
      elim w.cache [
        | none ↦ (w, rows)
        | some c ↦
            let (hit, c1) = rt_cache_pcard_get host.now c bacc_id in
            elim hit [
              | some cards ↦ (record w { cache = some c1 }, some cards)
              | none ↦ elim rows [
                | none ↦ (record w { cache = some c1 }, none)
                | some cards ↦ (
                  record w {
                    cache =
                        some (
                          rt_cache_pcard_put host.now c1 bacc_id (some cards) (pos (length cards)));
                  },
                  some cards,
                )
              ]
            ]
      ]

  unfoldable pub manage_pcard : World Db → Racc → World Db × Racc
  manage_pcard w rtp =
      let (w1, cards) = account_cards w rtp.bacc.id in
      (w1, record rtp { bacc = pcard_manager host.localtime cards rtp.call rtp.bacc })

  -- The unpaid balances of an online call's account block its card.
  unfoldable pub is_unpaid : Db → Racc → Pcard → Bool
  is_unpaid db rtp card =
      let bal_num = host.bal_count db rtp.bacc in
      let bday = if rtp.bacc.billing_day == 0 then host.billing_day else rtp.bacc.billing_day in
      let day = (host.localtime (call_time rtp.call)).mday in
      not (card.id == 0)
      && (rtp.call.epoch == 0)
      && ltb 1 bal_num
      && (ltb host.bal_num bal_num || is_overdue day bday rtp.bacc.day_of_payment)

  -- The balance of the card's period, and the free seconds used in it.
  unfoldable pub load_balance : Db → Racc → Pcard → Racc
  load_balance db rtp card =
      let loaded = with_bal (host.bal db rtp.bacc card.start card.end) rtp in
      let used = with_free_billsec (host.free_used db loaded card.start card.end) loaded in
      if rtp.call.free_billsec_limit ==ℤ pos 0
      then loaded
      else with_free_sum (host.free_sum db used) used

  -- The last component is the return value: `true` for RE_ERROR.
  unfoldable pub rt_prerating_process : World Db → Racc → Pcard → World Db × Racc × Bool
  rt_prerating_process w rtp card =
      let blocked = record w { db = host.pcard_set w.db card.id pcard_block } in
      if is_unpaid w.db rtp card
      then (blocked, rtp, true)
      else if not (is_set card.start && is_set card.end)
      then (w, rtp, true)
      else if not (
          check_date_valid host.stray_days (host.scan_date card.start)
          && check_date_valid host.stray_days (host.scan_date card.end))
      then (blocked, rtp, true)
      else (w, load_balance w.db rtp card, false)

  -- An error of the prerating is logged, and the search goes on.
  unfoldable pub prerate : World Db → Racc → World Db × Racc
  prerate w found = elim found.bplan.rates_ptr [
    | none ↦ (w, found)
    | some rates ↦ elim found.bacc.pcard [
      | none ↦ (w, found)
      | some card ↦
          let (prerated, rated, failed) = rt_prerating_process w found card in (prerated, rated)
    ]
  ]

  unfoldable pub rt_rate_searching : World Db → Racc → World Db × Racc
  rt_rate_searching w rtp =
      let (searched, found) = rt_data_q_rate host w rtp in prerate searched found

  -- The account by the first mode that finds one; the call keeps the mode of the last attempt.
  unfoldable pub by_modes : Db → List ℕ → Call → Call × Option Racc
  by_modes db [] pre = (pre, none)
  by_modes db (mode ∷ modes) pre =
      let tried = record pre { rating_mode_id = mode } in
      let later = by_modes db modes tried in
      elim (host.racc db tried) [ none ↦ later | some rtp ↦ (tried, some rtp) ]

  abbrev pub rt_racc_voip_av_a : Db → Call → Call × Option Racc
  rt_racc_voip_av_a db pre = by_modes db (clg ∷ acode ∷ []) pre

  abbrev pub rt_racc_voip_t_a : Db → Call → Call × Option Racc
  rt_racc_voip_t_a db pre = by_modes db (acode ∷ srcc ∷ []) pre

  abbrev pub rt_racc_unkn_a : Db → Call → Call × Option Racc
  rt_racc_unkn_a db pre = by_modes db (clg ∷ acode ∷ srcc ∷ srctg ∷ []) pre

  -- Leg b: a context or a trunk group that is empty is not tried.
  unfoldable pub rt_racc_unkn_b : Db → Call → Call × Option Racc
  rt_racc_unkn_b db pre =
      by_modes db
        ((if is_set pre.dst_context then dstc ∷ [] else [])
          ++ (if is_set pre.dst_tgroup then dsttg ∷ [] else []))
        pre
