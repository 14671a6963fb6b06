-- ===== src/Rating/Calc/Refund.antt =====
-- A defect of `calc_cprice_2`: the loop goes on after a tier that took the rest of the call, unless
-- that was one block, and a next tier of shorter blocks counts negative blocks.
use rate_engine.Base.{
  ℕ, ◌-◌, ◌*◌, ◌/◌, ◌≤◌, ◌<◌, ◌≡◌, refl, [], ◌∷◌, arith, pos, ◌+ℤ◌, ◌-ℤ◌, neg, ceil_div-neg, neg-*,
  +ℤ-neg, some,
}
use rate_engine.Rating.Data.{CalcFunction, Call}
use rate_engine.Rating.Calc.{Pricing, unpriced, units, charge, cprice_loop, calc_cprice_2}
use rate_engine.Rating.Calc.Tiers.{blocks, tier_price, blocks_bounds}
use rate_engine.Rating.Calc.Price.{Charged, charge_tier-blocks, units-blocks}

-- The seconds that the blocks of the first tier give beyond the call.
abbrev pub excess : CalcFunction → ℕ → ℕ
excess t n = blocks n t.delta * t.delta - n

-- The state in which the second tier begins.
abbrev overdone : CalcFunction → ℕ → Pricing
overdone t n = record {
  cprice = pos (blocks n t.delta * t.fee);
  billsec = pos (blocks n t.delta * t.delta);
  checksec = neg (pos (excess t n));
}

Charged-overdone :
    (t : CalcFunction) (n : ℕ)
    → 0 < t.delta
    → Charged t (blocks n t.delta) (unpriced (pos n)) ≡ overdone t n
unfolding ◌+ℤ◌ ◌-ℤ◌
Charged-overdone t n d = ground (arith, blocks_bounds n t.delta d)

-- An endless tier takes back the blocks that the excess holds.
units-overdone :
    (t u : CalcFunction) (n : ℕ)
    → 0 < u.delta
    → units u (overdone t n) ≡ neg (pos (excess t n / u.delta))
unfolding units
units-overdone t u n d = ceil_div-neg (excess t n) u.delta d

charge-neg :
    (u : CalcFunction) (k : ℕ) (s : Pricing)
    → (charge u (neg (pos k)) s).cprice ≡ s.cprice -ℤ pos (k * u.fee)
unfolding charge
charge-neg u k s = rw (neg-* k u.fee) (+ℤ-neg s.cprice (k * u.fee))

refund :
    (t u : CalcFunction) (n : ℕ)
    → 0 < u.step
    → 0 < u.delta
    → u.iterations ≡ 0
    → (cprice_loop (u ∷ []) (overdone t n)).cprice
      ≡ pos (blocks n t.delta * t.fee) -ℤ pos (excess t n / u.delta * u.fee)
unfolding cprice_loop
refund t u n s d endless =
    ground (arith, units-overdone t u n d, charge-neg u (excess t n / u.delta) (overdone t n))

-- Two tiers, at a call of two or more blocks that the first one covers with an excess of at least
-- one block of the endless second one: the price is short by a fee of the second tier for each such
-- block.
pub calc_cprice_2-refunds :
    (t u : CalcFunction) (pre : Call) (n : ℕ)
    → 0 < t.step
    → 0 < u.step
    → 0 < t.delta
    → 0 < u.delta
    → u.iterations ≡ 0
    → 2 ≤ blocks n t.delta
    → blocks n t.delta ≤ t.iterations
    → pre.billsec ≡ pos n
    → ((calc_cprice_2 (some (t ∷ u ∷ [])) pre).0.cprice
        ≡ pos (tier_price (t ∷ u ∷ []) n) -ℤ pos (excess t n / u.delta * u.fee))
unfolding calc_cprice_2 cprice_loop tier_price
calc_cprice_2-refunds t u pre n s s' d d' endless two fits e = ground (
  arith,
  charge_tier-blocks t (unpriced (pos n)) n refl,
  units-blocks t (unpriced (pos n)) n refl,
  Charged-overdone t n d,
  refund t u n s' d' endless,
)
