-- ===== src/Rating/Maxsec/Shared.antt =====
-- The calls of one card share its credit.
use rate_engine.Base.{
  ℕ, ◌*◌, ◌≤◌, ◌<◌, ◌≡◌, refl, ◌∙◌, true, List, some, arith, ◌==◌, if◌then◌else◌, pos, ◌-ℤ◌, ◌≤ℤ◌,
}
use rate_engine.Rating.Data.{CalcFunction, Pcard, Call, Racc}
use rate_engine.Rating.Calc.{calc_maxsec}
use rate_engine.Rating.Calc.Tiers.{IsTariff, IsRising, tier_price}
use rate_engine.Rating.Calc.Limit.{calc_maxsec-affordable}
use rate_engine.Rating.Maxsec.{is_above_min, split_limit, time_limit, grant, no_credit, refuse}

-- The call that is timed.
abbrev pub shared_call : Racc → ℕ → ℕ → Call
shared_call rtp l k = record (rtp.call) { limit = pos l; limit_parts = k }

split_limit-shared :
    (k_num k_den sim k l : ℕ) (card : Pcard) (pre : Call)
    → card.call_number ≡ pos k
    → 1 < k
    → pre.limit ≡ pos l
    → is_above_min k_num k_den (pos l) card.amount ≡ true
    → split_limit k_num k_den card sim pre ≡ some (record pre { limit_parts = k })
unfolding split_limit
split_limit-shared k_num k_den sim k l card pre calls many limit above =
    ground (arith, calls, many, limit, above)

time_limit-lem :
    (most n : ℕ) (rtp : Racc) (tr : List CalcFunction) (pre : Call)
    → (calc_maxsec most (some tr) pre).maxsec ≡ pos n
    → time_limit most rtp tr pre ≡ (
        if n == 0 then refuse (calc_maxsec most (some tr) pre) no_credit else (
          calc_maxsec most (some tr) pre,
          some (record rtp { call = calc_maxsec most (some tr) pre }),
        ))
unfolding time_limit
time_limit-lem most n rtp tr pre e = ground (arith, e)

grant-split :
    (most k_num k_den sim k l : ℕ) (rtp : Racc) (card : Pcard) (tr : List CalcFunction)
    → card.call_number ≡ pos k
    → 1 < k
    → sim < k
    → card.amount -ℤ rtp.bal.amount ≡ pos l
    → 0 < l
    → is_above_min k_num k_den (pos l) card.amount ≡ true
    → grant most k_num k_den sim rtp card tr ≡ time_limit most rtp tr (shared_call rtp l k)
unfolding grant
grant-split most k_num k_den sim k l rtp card tr calls many room limit credit above =
    let pre = record (rtp.call) { limit = card.amount -ℤ rtp.bal.amount; limit_parts = 1 } in
    ground (arith, split_limit-shared k_num k_den sim k l card pre calls many limit above)

-- When the remaining credit `l` of a card for `k` calls, more than one and more than are up, is
-- above the minimal share, the tiers never get cheaper and no free seconds are left, a request is
-- answered with seconds that `k` calls can all use within the credit, or refused when there are
-- none.
pub grant-shared :
    (most k_num k_den sim k l : ℕ) (rtp : Racc) (card : Pcard) (tr : List CalcFunction)
    → IsTariff tr
    → IsRising tr
    → rtp.call.free_billsec_limit ≤ℤ rtp.call.free_billsec_sum
    → card.call_number ≡ pos k
    → 1 < k
    → sim < k
    → card.amount -ℤ rtp.bal.amount ≡ pos l
    → 0 < l
    → is_above_min k_num k_den (pos l) card.amount ≡ true
    → let timed = calc_maxsec most (some tr) (shared_call rtp l k) in
      (n : ℕ) × (timed.maxsec ≡ pos n)
      × (tier_price tr n * k ≤ l)
      × (grant most k_num k_den sim rtp card tr ≡ (
          if n == 0 then refuse timed no_credit else (timed, some (record rtp { call = timed }))))
grant-shared most k_num k_den sim k l rtp card tr w r used calls many room limit credit above =
    let (n, e, below, cost) =
      calc_maxsec-affordable most tr (shared_call rtp l k) l w r used (omega arith) refl in
    (
      n,
      e,
      cost,
      grant-split most k_num k_den sim k l rtp card tr calls many room limit credit above
          ∙ time_limit-lem most n rtp tr (shared_call rtp l k) e,
    )
