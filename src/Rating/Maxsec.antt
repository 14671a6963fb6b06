-- ===== src/Rating/Maxsec.antt =====
-- mod/Rating/rt_maxsec.c: may a call start, and for how many seconds?
pub mod Granted
pub mod Shared
pub mod Unpaid
use rate_engine.Base.{
  ℕ, suc, ◌≡◌, Bool, true, false, ◌&&◌, ◌||◌, List, Option, none, some, ltb, leb, ◌==◌,
  if◌then◌else◌, ℤ, pos, negsuc, pos_part, ◌-ℤ◌, ◌*ℤ◌, ltb_ℤ, leb_ℤ, ◌==ℤ◌,
}
use rate_engine.Rating.Data.{CalcFunction, Pcard, Call, Racc}
use rate_engine.Rating.Calc.{calc_maxsec}
use rate_engine.Rating.World.{Host, World}
use rate_engine.Rating.Search.{rt_chk_bplan_periods}
use rate_engine.Rating.Account.{rt_racc_voip_av_a, manage_pcard, rt_rate_searching}
use rate_engine.Rating.Cache.Kinds.{rt_cache_init}

-- The RT_MAXSEC codes of rt_maxsec.h.
abbrev pub no_bacc : ℤ
no_bacc = negsuc 0

abbrev pub no_bplan : ℤ
no_bplan = negsuc 1

abbrev pub no_pcard : ℤ
no_pcard = negsuc 2

abbrev pub no_climit : ℤ
no_climit = negsuc 3

abbrev pub crestict : ℤ
crestict = negsuc 5

abbrev pub no_tariff : ℤ
no_tariff = negsuc 6

abbrev pub no_credit : ℤ
no_credit = negsuc 7

-- `k > k_limit_min` for k = limit / amount, with a positive limit: an amount of 0 makes k infinite,
-- and a negative one makes it negative.
unfoldable pub is_above_min : ℕ → ℕ → ℤ → ℤ → Bool
is_above_min k_num k_den limit amount =
    (amount ==ℤ pos 0) || (ltb_ℤ (pos 0) amount && ltb_ℤ (amount *ℤ k_num) (limit *ℤ k_den))

-- One card, several calls: the limit is divided among them, or a second call is refused.
unfoldable pub split_limit : ℕ → ℕ → Pcard → ℕ → Call → Option Call
split_limit k_num k_den card sim pre =
    if leb_ℤ card.call_number (pos 1)
    then some pre
    else if is_above_min k_num k_den pre.limit card.amount
    then some (record pre { limit_parts = pos_part card.call_number })
    else if ltb 0 sim
    then none
    else some pre

-- The call, and the account when seconds are granted.
abbrev pub Answer : Type 0
Answer = Call × Option Racc

abbrev pub refuse : Call → ℤ → Answer
refuse pre code = (record pre { maxsec = code }, none)

-- The seconds for the limit, none refused.
unfoldable pub time_limit : ℕ → Racc → List CalcFunction → Call → Answer
time_limit most rtp tr pre =
    let timed = calc_maxsec most (some tr) pre in
    if leb_ℤ timed.maxsec (pos 0)
    then refuse timed no_credit
    else (timed, some (record rtp { call = timed }))

-- The tests on the credit and on the number of calls.
unfoldable pub grant : ℕ → ℕ → ℕ → ℕ → Racc → Pcard → List CalcFunction → Answer
grant most k_num k_den sim rtp card tr =
    let limit = card.amount -ℤ rtp.bal.amount in
    let pre = record (rtp.call) { limit = limit; limit_parts = 1 } in
    if leb_ℤ limit (pos 0)
    then refuse pre no_climit
    else if leb_ℤ card.call_number (pos 0)
    then refuse pre crestict
    else if leb_ℤ card.call_number (pos sim)
    then refuse pre crestict
    else elim (split_limit k_num k_den card sim pre) [
      | none ↦ refuse (record pre { limit = pos 0 }) crestict
      | some shared ↦
          if ltb_ℤ (pos 1) card.call_number && leb_ℤ shared.limit (pos 0)
          then refuse shared no_pcard
          else time_limit most rtp tr shared
    ]

module _ {Db : Type 0} (host : Host Db) where
  unfoldable pub rt_cache_ensure : World Db → World Db
  rt_cache_ensure w = elim w.cache [ none ↦ record w { cache = some rt_cache_init } | some c ↦ w ]

  -- With the tariff of the search.
  unfoldable pub grant_found : ℕ → Racc → Pcard → Answer
  grant_found sim rtp card = elim rtp.bplan.rates_ptr [
    | none ↦ refuse rtp.call no_tariff
    | some rates ↦ elim rates.calc_funcs [
      | none ↦ refuse rtp.call no_tariff
      | some tr ↦ grant host.call_maxsec_limit host.k_num host.k_den sim rtp card tr
    ]
  ]

  -- With the card of the account.
  unfoldable pub check_pcard : World Db → ℕ → Racc → World Db × Answer
  check_pcard w sim carded =
      let (searched, rated) = rt_rate_searching host w carded in
      elim carded.bacc.pcard [
        | none ↦ (w, refuse carded.call no_pcard)
        | some card ↦ (searched, grant_found sim rated card)
      ]

  -- With the account.
  unfoldable pub check_account : World Db → ℕ → Racc → World Db × Answer
  check_account w sim rtp =
      let bplan = rt_chk_bplan_periods rtp.bplan rtp.call.ts in
      let (managed, carded) = manage_pcard host w (record rtp { bplan = bplan }) in
      if rtp.bacc.id == 0
      then (w, refuse rtp.call no_bacc)
      else if rtp.bplan.id == 0
      then (w, refuse rtp.call no_bplan)
      else check_pcard managed sim carded

  -- With a database.
  unfoldable pub search_account : World Db → Call → ℕ → World Db × Answer
  search_account w pre sim =
      let w0 = rt_cache_ensure w in
      let (tried, found) = rt_racc_voip_av_a host w0.db pre in
      elim found [
        | none ↦ (w0, refuse tried no_bacc)
        | some rtp ↦ check_account w0 sim (record rtp { call = tried })
      ]

  -- Without one nothing is set. `pre` is not NULL.
  unfoldable pub rt_maxsec : World Db → Call → ℕ → World Db × Answer
  rt_maxsec w pre sim =
      let answered = search_account w pre sim in if host.has_dbp then answered else (w, (pre, none))
