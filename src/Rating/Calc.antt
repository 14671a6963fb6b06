-- ===== src/Rating/Calc.antt =====
-- mod/Rating/calc_functions.c and round_billsec.c: prices and the seconds that a credit buys. C
-- integers are unbounded here. `ceil` and `floor` of a quotient of doubles are exact divisions; for
-- the seconds of a call this is what the C code computes below 2 ^ 24, where a `float` holds them.
pub mod Tiers
pub mod Price
pub mod Refund
pub mod Limit
pub mod Overgrant
pub mod Round
use rate_engine.Base.{
  ℕ, ◌+◌, ◌-◌, ◌*◌, ◌/◌, ◌≡◌, Bool, true, false, ◌&&◌, not, List, [], ◌∷◌, Option, none, some, ltb,
  leb, ◌==◌, if◌then◌else◌, ℤ, pos, negsuc, pos_part, ◌+ℤ◌, ◌-ℤ◌, ◌*ℤ◌, ltb_ℤ, leb_ℤ, ◌==ℤ◌, neg,
  ceil_div, floor_div,
}
use rate_engine.Rating.Data.{CalcFunction, Call}

-- The variables of the loop of `calc_cprice_2`.
pub record Pricing : Type 0 where
  pub cprice : ℤ
  pub billsec : ℤ
  pub checksec : ℤ

-- `units` blocks of a tier are charged.
unfoldable pub charge : CalcFunction → ℤ → Pricing → Pricing
charge t units s = record {
  cprice = s.cprice +ℤ units *ℤ t.fee;
  billsec = s.billsec +ℤ units *ℤ t.delta;
  checksec = s.checksec -ℤ units *ℤ t.delta;
}

-- `ceil(checksec / delta)`.
unfoldable pub units : CalcFunction → Pricing → ℤ
units t s = ceil_div s.checksec t.delta

-- A tier with `iterations` blocks takes no more than those.
unfoldable pub charge_tier : CalcFunction → Pricing → Pricing
charge_tier t s =
    charge t (if ltb_ℤ (pos t.iterations) (units t s) then pos t.iterations else units t s) s

-- The loop of `calc_cprice_2`, `while(tr[p].pos)`.
unfoldable pub cprice_loop : List CalcFunction → Pricing → Pricing
cprice_loop [] s = s
cprice_loop (t ∷ ts) s =
    let next = cprice_loop ts (charge_tier t s) in
    if t.step == 0
    then s
    else if t.iterations == 0
    then charge t (units t s) s
    else if units t s ==ℤ pos 1
    then charge_tier t s
    else next

abbrev pub unpriced : ℤ → Pricing
unpriced n = record { cprice = pos 0; billsec = pos 0; checksec = n }

-- The call with its price, and the return value.
unfoldable pub calc_cprice_2 : Option (List CalcFunction) → Call → Call × ℤ
calc_cprice_2 none pre = (pre, negsuc 0)
calc_cprice_2 (some tr) pre =
    let s = cprice_loop tr (unpriced pre.billsec) in
    (
      record pre { cprice = s.cprice; billsec = s.billsec },
      if leb_ℤ s.checksec (pos 0) then pos 0 else negsuc 0,
    )

unfoldable pub append_free_billsec : Call → Call × ℤ
append_free_billsec pre =
    let free_billsec = pre.free_billsec_limit -ℤ pre.free_billsec_sum in
    if pre.free_billsec_limit ==ℤ pos 0
    then (pre, pos 0)
    else if leb_ℤ free_billsec (pos 0)
    then (pre, pos 0)
    else if ltb_ℤ free_billsec pre.billsec
    then (pre, pos 1)
    else if pre.cprice ==ℤ pos 0
    then (pre, pos 0)
    else (record pre { cprice = neg pre.cprice }, pos 0)

unfoldable pub calc_cprice_group : Option (List CalcFunction) → Call → Call × ℤ
calc_cprice_group tr pre =
    let (priced, ret) = calc_cprice_2 tr pre in
    if ret ==ℤ negsuc 0 then (priced, negsuc 0) else append_free_billsec priced

-- The head of a tariff's array: an empty one holds the zeroed entry.
abbrev first_tier : List CalcFunction → CalcFunction
first_tier [] = record { step = 0; delta = 0; fee = 0; iterations = 0 }
first_tier (t ∷ tr) = t

-- A message: one fee, marked by its sign when it is free. The C code reads `tr` without a test
-- for NULL, so the tariff is an argument here.
unfoldable pub calc_cprice_sms : List CalcFunction → Call → Call × ℤ
calc_cprice_sms tr pre =
    let t = first_tier tr in
    if (t.step == 1) && (t.delta == 0) && (pre.billsec ==ℤ pos 0)
    then (
      record pre {
        cprice =
            if ltb_ℤ (pos 0) pre.free_billsec_limit && ltb_ℤ pre.free_billsec pre.free_billsec_limit
            then neg (pos t.fee)
            else pos t.fee;
      },
      pos 0,
    )
    else (pre, negsuc 0)

-- `calc_maxsec`: free seconds that are fewer than a block are dropped.
unfoldable pub keep_free : ℤ → CalcFunction → ℕ → ℕ
keep_free free t maxsec = if ltb_ℤ (pos 0) free && ltb maxsec t.delta then 0 else maxsec

-- The blocks that a limit of `limit / parts` pays for.
unfoldable pub limit_units : ℕ → CalcFunction → ℕ → ℕ
limit_units parts t limit = if t.fee == 0 then 1 else limit / (t.fee * parts)

-- Those of them that the tier has.
unfoldable pub tier_units : ℕ → CalcFunction → ℕ → ℕ
tier_units parts t limit =
    if ltb t.iterations (limit_units parts t limit) then t.iterations else limit_units parts t limit

-- The loop of `calc_maxsec`, at `free` free seconds. The limit is `limit / parts` units of money;
-- it and `maxsec` start at 0 or more and never fall below, as `tier_units` blocks cost at most the
-- limit.
unfoldable pub maxsec_loop : ℤ → ℕ → List CalcFunction → ℕ → ℕ → ℕ
maxsec_loop free parts [] maxsec limit = maxsec
maxsec_loop free parts (t ∷ ts) maxsec limit =
    let kept = keep_free free t maxsec in
    let blocks = tier_units parts t limit in
    let next =
      maxsec_loop free parts ts (kept + blocks * t.delta) (limit - blocks * (t.fee * parts)) in
    if t.step == 0
    then maxsec
    else if limit == 0
    then kept
    else if t.iterations == 0
    then kept + limit_units parts t limit * t.delta
    else next

abbrev pub at_most : ℕ → ℕ → ℕ
at_most most n = if leb most n then most else n

-- `call_maxsec_limit` is the first argument.
unfoldable pub calc_maxsec : ℕ → Option (List CalcFunction) → Call → Call
calc_maxsec most none pre = pre
calc_maxsec most (some tr) pre =
    let free = pre.free_billsec_limit -ℤ pre.free_billsec_sum in
    let found = maxsec_loop free pre.limit_parts tr (pos_part free) (pos_part pre.limit) in
    record pre {
      maxsec =
          pos (if leb most (pos_part free) && ltb_ℤ (pos 0) free then most else at_most most found);
    }

-- round_billsec.c: microseconds to seconds.
unfoldable pub round_billsec : ℕ → ℤ → ℤ
round_billsec mode billusec =
    if mode == 1
    then ceil_div billusec 1000000
    else if mode == 2
    then floor_div billusec 1000000
    else pos 0
