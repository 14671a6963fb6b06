-- ===== src/Rating/Calc/Price.antt =====
-- Prices by `calc_cprice_2`.
use rate_engine.Base.{
  ℕ, some, ◌+◌, ◌-◌, ◌*◌, ◌≤◌, ◌<◌, ◌≡◌, ◌⊎◌, inl, inr, refl, List, [], ◌∷◌, arith, ltb, ◌==◌,
  if◌then◌else◌, All, ℤ, pos, neg_part, ◌+ℤ◌, ◌-ℤ◌, ◌*ℤ◌, ◌≤ℤ◌, ltb_ℤ, int_laws, ceil_div, +ℤ-pos,
  -ℤ-pos, +ℤ-zero, -ℤ-zero, pos-sub, ◌≢◌, ceil_div-spent, Bool-cases,
}
use rate_engine.Rating.Data.{CalcFunction, Call}
use rate_engine.Rating.Calc.{
  Pricing, unpriced, calc_cprice_2, charge, units, charge_tier, cprice_loop,
}
use rate_engine.Rating.Calc.Tiers.{
  blocks, tier_price, tier_seconds, IsTariff, IsGraded, blocks_bounds, tier_full, IsOpen,
  le-tier_seconds,
}

charge-zero : (t : CalcFunction) (s : Pricing) → charge t (pos 0) s ≡ s
unfolding charge ◌+ℤ◌ ◌-ℤ◌ ◌*ℤ◌
charge-zero t s = ground arith

-- What is left of a call that its last block has covered.
abbrev pub Spent : ℤ → ℕ → Type 0
Spent x d = (x ≤ℤ pos 0) × (neg_part x < d)

charge-conserves :
    (t : CalcFunction) (k : ℤ) (s : Pricing)
    → (charge t k s).billsec +ℤ (charge t k s).checksec ≡ s.billsec +ℤ s.checksec
unfolding charge
charge-conserves t k s = omega (int_laws)

charge_tier-conserves :
    (t : CalcFunction) (s : Pricing)
    → (charge_tier t s).billsec +ℤ (charge_tier t s).checksec ≡ s.billsec +ℤ s.checksec
unfolding charge_tier
charge_tier-conserves t s =
    charge-conserves t
      (if ltb_ℤ (pos t.iterations) (units t s) then pos t.iterations else units t s) s

units-Spent : (t : CalcFunction) (s : Pricing) → Spent s.checksec t.delta → units t s ≡ pos 0
unfolding units
units-Spent t s h = ceil_div-spent s.checksec t.delta h.0 h.1

charge_tier-Spent :
    (t : CalcFunction) (s : Pricing) → Spent s.checksec t.delta → charge_tier t s ≡ s
unfolding charge_tier
charge_tier-Spent t s h = ground (arith, units-Spent t s h, charge-zero t s)

-- Nothing more is charged when less than one block is left over.
cprice_loop-Spent :
    (ts : List CalcFunction) (s : Pricing)
    → All (λ t. Spent s.checksec t.delta) ts
    → cprice_loop ts s ≡ s
unfolding cprice_loop
cprice_loop-Spent [] s k = refl
cprice_loop-Spent (t ∷ ts) s k = ground (
  arith,
  units-Spent t s k.0,
  charge-zero t s,
  charge_tier-Spent t s k.0,
  cprice_loop-Spent ts s k.1,
)

-- The loop on `n` seconds, as a tariff means it.
abbrev priced : List CalcFunction → Pricing → ℕ → Pricing
priced ts s n = record {
  cprice = s.cprice +ℤ pos (tier_price ts n);
  billsec = s.billsec +ℤ pos (tier_seconds ts n);
  checksec = s.checksec -ℤ pos (tier_seconds ts n);
}

-- Charging a number of blocks.
charge-blocks :
    (t : CalcFunction) (k : ℕ) (s : Pricing)
    → charge t (pos k) s ≡ record {
      cprice = s.cprice +ℤ pos (k * t.fee);
      billsec = s.billsec +ℤ pos (k * t.delta);
      checksec = s.checksec -ℤ pos (k * t.delta);
    }
unfolding charge ◌*ℤ◌
charge-blocks t k s = ground arith

pub units-blocks :
    (t : CalcFunction) (s : Pricing) (n : ℕ)
    → s.checksec ≡ pos n
    → units t s ≡ pos (blocks n t.delta)
unfolding units ceil_div
units-blocks t s n e = rw e

abbrev pub Charged : CalcFunction → ℕ → Pricing → Pricing
Charged t k s = record {
  cprice = s.cprice +ℤ pos (k * t.fee);
  billsec = s.billsec +ℤ pos (k * t.delta);
  checksec = s.checksec -ℤ pos (k * t.delta);
}

pub charge_tier-blocks :
    (t : CalcFunction) (s : Pricing) (n : ℕ)
    → s.checksec ≡ pos n
    → charge_tier t s
      ≡ Charged t (if ltb t.iterations (blocks n t.delta) then t.iterations else blocks n t.delta) s
unfolding charge_tier
charge_tier-blocks t s n e = ground (
  arith,
  units-blocks t s n e,
  charge-blocks t t.iterations s,
  charge-blocks t (blocks n t.delta) s,
)

Spent-All :
    (d : ℕ) (x : ℤ) (ts : List CalcFunction)
    → Spent x d
    → All (λ u. d ≤ u.delta) ts
    → All (λ t. Spent x t.delta) ts
Spent-All d x [] h k = tt
Spent-All d x (t ∷ ts) h k = ((h.0, omega arith), Spent-All d x ts h k.1)

Spent-drained :
    (x : ℤ) (ts : List CalcFunction) → IsTariff ts → x ≡ pos 0 → All (λ t. Spent x t.delta) ts
Spent-drained x [] h e = tt
Spent-drained x (t ∷ ts) h e = (ground arith, Spent-drained x ts h.1 e)

priced-Charged :
    (t : CalcFunction) (ts : List CalcFunction) (s : Pricing) (k m : ℕ)
    → priced ts (Charged t k s) m ≡ record {
      cprice = s.cprice +ℤ pos (k * t.fee + tier_price ts m);
      billsec = s.billsec +ℤ pos (k * t.delta + tier_seconds ts m);
      checksec = s.checksec -ℤ pos (k * t.delta + tier_seconds ts m);
    }
priced-Charged t ts s k m = ground (
  arith,
  +ℤ-pos s.cprice (k * t.fee) (tier_price ts m),
  +ℤ-pos s.billsec (k * t.delta) (tier_seconds ts m),
  -ℤ-pos s.checksec (k * t.delta) (tier_seconds ts m),
)

-- A tier that takes the rest of the call leaves nothing for the next ones to charge.
last-Spent :
    (t : CalcFunction) (ts : List CalcFunction) (s : Pricing) (n : ℕ)
    → 0 < t.delta
    → IsTariff ts
    → ((t.iterations ≤ 1) ⊎ All (λ u. t.delta ≤ u.delta) ts)
    → blocks n t.delta ≤ t.iterations
    → blocks n t.delta ≢ 1
    → s.checksec ≡ pos n
    → All (λ u. Spent (Charged t (blocks n t.delta) s).checksec u.delta) ts
unfolding ◌-ℤ◌
last-Spent t ts s n d w (inl one) fits more e =
    Spent-drained (Charged t (blocks n t.delta) s).checksec ts w
      (ground (arith, none_begun, none_left))
  where
    none_begun : blocks n t.delta ≡ 0
    none_begun = omega arith

    none_left : n ≡ 0
    none_left = grind (arith, blocks_bounds n t.delta d)
last-Spent t ts s n d w (inr long) fits more e =
    Spent-All t.delta (Charged t (blocks n t.delta) s).checksec ts
      (ground (arith, blocks_bounds n t.delta d)) long

cprice_loop-priced :
    (ts : List CalcFunction) (s : Pricing) (n : ℕ)
    → IsTariff ts
    → IsGraded ts
    → s.checksec ≡ pos n
    → cprice_loop ts s ≡ priced ts s n
unfolding cprice_loop tier_price tier_seconds
cprice_loop-priced [] s n w g e =
    ground (arith, +ℤ-zero s.cprice, +ℤ-zero s.billsec, -ℤ-zero s.checksec)
cprice_loop-priced (t ∷ ts) s n w g e = elim (Bool-cases (t.iterations == 0)) [
  | inl endless ↦ ground (arith, units-blocks t s n e, charge-blocks t (blocks n t.delta) s)
  | inr closed ↦ elim (Bool-cases (ltb t.iterations (blocks n t.delta))) [
    | inl over ↦ ground (
      arith,
      charge_tier-blocks t s n e,
      units-blocks t s n e,
      tier_full n t.delta t.iterations w.0.1,
      pos-sub n (t.iterations * t.delta),
      cprice_loop-priced ts (Charged t t.iterations s) (n - t.iterations * t.delta) w.1 g.1,
      priced-Charged t ts s t.iterations (n - t.iterations * t.delta),
    )
    | inr fits ↦ ground (
      arith,
      charge_tier-blocks t s n e,
      units-blocks t s n e,
      last-Spent t ts s n w.0.1 w.1 g.0,
      cprice_loop-Spent ts (Charged t (blocks n t.delta) s),
    )
  ]
]

-- On a graded tariff with no end `calc_cprice_2` succeeds, with the price and the charged seconds
-- that the tariff means; these cover the call.
pub calc_cprice_2-tiers :
    (ts : List CalcFunction) (pre : Call) (n : ℕ)
    → IsTariff ts
    → IsGraded ts
    → IsOpen ts
    → pre.billsec ≡ pos n
    → (calc_cprice_2 (some ts) pre
        ≡ (record pre { cprice = pos (tier_price ts n); billsec = pos (tier_seconds ts n) }, pos 0))
      × (n ≤ tier_seconds ts n)
unfolding calc_cprice_2 ◌+ℤ◌ ◌-ℤ◌
calc_cprice_2-tiers ts pre n w g o e = (
  ground (arith, e, cprice_loop-priced ts (unpriced (pos n)) n w g refl, le-tier_seconds ts n w o),
  le-tier_seconds ts n w o,
)

-- On every tariff the charged seconds and the rest are together those of the call.
pub cprice_loop-conserves :
    (ts : List CalcFunction) (s : Pricing)
    → (cprice_loop ts s).billsec +ℤ (cprice_loop ts s).checksec ≡ s.billsec +ℤ s.checksec
unfolding cprice_loop
cprice_loop-conserves [] s = refl
cprice_loop-conserves (t ∷ ts) s = ground (
  arith,
  charge-conserves t (units t s) s,
  charge_tier-conserves t s,
  cprice_loop-conserves ts (charge_tier t s),
)
