-- ===== src/Rating/Calc/Overgrant.antt =====
-- Where `calc_maxsec` grants more than the limit pays: the rest of the limit that is too small for
-- a block of one tier buys blocks of a cheaper tier, which the call reaches only later. And where
-- it grants exactly what the limit pays.
use native.Mathlib.Nat.{zero-div, lt-div-mul-add}
use rate_engine.Base.{
  ℕ, suc, ◌+◌, ◌-◌, ◌*◌, ◌/◌, ◌≤◌, ◌<◌, ◌≡◌, refl, ap, List, [], ◌∷◌, some, arith, ℤ, pos, ◌≤ℤ◌,
  ◌-ℤ◌, int_laws, inl, inr, ◌⊎◌,
}
use rate_engine.Rating.Data.{CalcFunction, Call}
use rate_engine.Rating.Calc.{limit_units, tier_units, maxsec_loop, calc_maxsec, at_most}
use rate_engine.Rating.Calc.Tiers.{
  blocks, blocks_bounds, blocks-add, tier_price, IsTariff, times_mono,
}
use rate_engine.Rating.Calc.Limit.{maxsec_loop-cons, no_free_start, price_cases}

-- The price of `k` blocks and more exceeds a limit that pays for `k` only.
dearer :
    (t : CalcFunction) (ts : List CalcFunction) (parts k g l : ℕ)
    → IsTariff (t ∷ ts)
    → k < t.iterations
    → 0 < g
    → l < suc k * (t.fee * parts)
    → l < tier_price (t ∷ ts) (k * t.delta + g) * parts
dearer t ts parts k g l w h p short =
    let begun : 0 < blocks g t.delta = grind (arith, blocks_bounds g t.delta w.0.1) in
    elim (price_cases t ts k g w (omega arith) (omega arith)) [
      | inl (e, fits) ↦
          rw e
            (omega (arith, times_mono (suc k) (k + blocks g t.delta) (t.fee * parts) (omega arith)))
      | inr (e, over) ↦
          rw e (omega (arith, times_mono (suc k) t.iterations (t.fee * parts) (omega arith)))
    ]

abbrev pub first_blocks : ℕ → CalcFunction → ℕ → ℕ
first_blocks parts t l = l / (t.fee * parts)

abbrev pub second_blocks : ℕ → CalcFunction → CalcFunction → ℕ → ℕ
second_blocks parts t u l = (l - first_blocks parts t l * (t.fee * parts)) / (u.fee * parts)

units-first :
    (parts : ℕ) (t : CalcFunction) (l : ℕ)
    → 0 < t.fee
    → limit_units parts t l ≡ first_blocks parts t l
unfolding limit_units
units-first parts t l h = ground arith

tier_units-few :
    (parts : ℕ) (t : CalcFunction) (l : ℕ)
    → 0 < t.fee
    → first_blocks parts t l < t.iterations
    → tier_units parts t l ≡ first_blocks parts t l
unfolding tier_units
tier_units-few parts t l f h = ground (arith, units-first parts t l f)

two_tiers :
    (free : ℤ) (parts : ℕ) (t u : CalcFunction) (l : ℕ)
    → free ≤ℤ pos 0
    → IsTariff (t ∷ u ∷ [])
    → 0 < t.fee
    → 0 < u.fee
    → 0 < l
    → u.iterations ≡ 0
    → first_blocks parts t l < t.iterations
    → 0 < second_blocks parts t u l
    → maxsec_loop free parts (t ∷ u ∷ []) 0 l
      ≡ first_blocks parts t l * t.delta + second_blocks parts t u l * u.delta
two_tiers free parts t u l used_up w f g some_limit endless few more =
    let rest = l - first_blocks parts t l * (t.fee * parts) in
    ground (
      arith,
      maxsec_loop-cons free used_up parts t (u ∷ []) l w.0.0,
      maxsec_loop-cons free used_up parts u [] rest w.1.0.0,
      tier_units-few parts t l f few,
      units-first parts u rest g,
    )

-- Whenever the first of two tiers is not bought out, and the rest of the limit pays for blocks of
-- the endless second one, `calc_maxsec` grants the blocks of both, and these cost more than the
-- limit.
pub calc_maxsec-overgrants :
    (most : ℕ) (t u : CalcFunction) (pre : Call) (l : ℕ)
    → IsTariff (t ∷ u ∷ [])
    → 0 < t.fee
    → 0 < u.fee
    → u.iterations ≡ 0
    → pre.free_billsec_limit ≤ℤ pre.free_billsec_sum
    → 0 < pre.limit_parts
    → pre.limit ≡ pos l
    → 0 < l
    → first_blocks pre.limit_parts t l < t.iterations
    → 0 < second_blocks pre.limit_parts t u l
    → let n =
        first_blocks pre.limit_parts t l * t.delta
        + second_blocks pre.limit_parts t u l * u.delta in
      n ≤ most
      → ((calc_maxsec most (some (t ∷ u ∷ [])) pre).maxsec ≡ pos n)
        × (l < tier_price (t ∷ u ∷ []) n * pre.limit_parts)
unfolding calc_maxsec
calc_maxsec-overgrants most t u pre l w f g endless used_up p e some_limit few more fits =
    let free = pre.free_billsec_limit -ℤ pre.free_billsec_sum in
    let none_left : free ≤ℤ pos 0 = omega int_laws in
    let found = two_tiers free pre.limit_parts t u l none_left w f g some_limit endless few more in
    let price : 0 < t.fee * pre.limit_parts = grind arith in
    (
      rw (no_free_start most free pre.limit_parts (t ∷ u ∷ []) pre.limit l none_left e, found)
          (ground arith),
      dearer t (u ∷ []) pre.limit_parts (first_blocks pre.limit_parts t l)
          (second_blocks pre.limit_parts t u l * u.delta) l w few (grind arith)
          (omega (arith, lt-div-mul-add {a = l} price)),
    )

one_tier :
    (free : ℤ) (parts : ℕ) (t : CalcFunction) (l : ℕ)
    → free ≤ℤ pos 0
    → 0 < t.step
    → 0 < t.fee
    → t.iterations ≡ 0
    → maxsec_loop free parts (t ∷ []) 0 l ≡ first_blocks parts t l * t.delta
one_tier free parts t l used_up s f endless =
    let broke : 0 / (t.fee * parts) ≡ 0 = zero-div (t.fee * parts) in
    ground (arith, maxsec_loop-cons free used_up parts t [] l s, units-first parts t l f, broke)

one_more :
    (parts : ℕ) (t : CalcFunction) (l : ℕ)
    → 0 < t.delta
    → 0 < t.fee * parts
    → t.iterations ≡ 0
    → l < tier_price (t ∷ []) (first_blocks parts t l * t.delta + 1) * parts
unfolding tier_price
one_more parts t l d f endless =
    let k = first_blocks parts t l in
    let one : blocks 1 t.delta ≡ 1 = grind (arith, blocks_bounds 1 t.delta d) in
    let next : blocks (k * t.delta + 1) t.delta ≡ k + 1 = rw (blocks-add k 1 t.delta d, one) in
    let price : tier_price (t ∷ []) (k * t.delta + 1) ≡ (k + 1) * t.fee =
      rw endless (ap (λ n. n * t.fee) next) in
    rw price (omega (arith, lt-div-mul-add {a = l} f))

-- On a tariff of one endless tier the grant is exact: either it is cut at the configured most, or
-- one more second would cost more than the limit.
pub calc_maxsec-exact :
    (most : ℕ) (t : CalcFunction) (pre : Call) (l : ℕ)
    → IsTariff (t ∷ [])
    → 0 < t.fee
    → t.iterations ≡ 0
    → pre.free_billsec_limit ≤ℤ pre.free_billsec_sum
    → 0 < pre.limit_parts
    → pre.limit ≡ pos l
    → (n : ℕ) × ((calc_maxsec most (some (t ∷ [])) pre).maxsec ≡ pos n)
      × ((n ≡ most) ⊎ (l < tier_price (t ∷ []) (n + 1) * pre.limit_parts))
unfolding calc_maxsec
calc_maxsec-exact most t pre l w f endless used_up p e =
    let free = pre.free_billsec_limit -ℤ pre.free_billsec_sum in
    let none_left : free ≤ℤ pos 0 = omega int_laws in
    let k = first_blocks pre.limit_parts t l in
    let price : 0 < t.fee * pre.limit_parts = grind arith in
    (
      at_most most (k * t.delta),
      rw
          (
            no_free_start most free pre.limit_parts (t ∷ []) pre.limit l none_left e,
            one_tier free pre.limit_parts t l none_left w.0.0 f endless,
          )
          refl,
      ground (arith, one_more pre.limit_parts t l w.0.1 price endless),
    )
