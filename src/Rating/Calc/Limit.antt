-- ===== src/Rating/Calc/Limit.antt =====
-- What `calc_maxsec` grants, against what the granted seconds cost.
use native.Mathlib.Nat.{div-eq_of_lt, div-mul-le_self, lt-div-mul-add}
use rate_engine.Base.{
  ℕ, ◌+◌, ◌-◌, ◌*◌, ◌/◌, ◌≤◌, ◌<◌, ◌≡◌, refl, List, [], ◌∷◌, some, arith, ltb, leb, ◌==◌,
  if◌then◌else◌, All, ℤ, pos, pos_part, ◌≤ℤ◌, ltb_ℤ, ◌&&◌, ◌-ℤ◌, int_laws, Bool-cases, false, inl,
  inr, ◌⊎◌,
}
use rate_engine.Rating.Data.{CalcFunction, Call}
use rate_engine.Rating.Calc.{keep_free, limit_units, tier_units, maxsec_loop, calc_maxsec, at_most}
use rate_engine.Rating.Calc.Tiers.{
  blocks, tier_price, IsTariff, IsRising, blocks-zero, blocks-add, blocks-whole, tier_price-zero,
  tier_price_mono, times_mono,
}

keep_free-none : (free : ℤ) (t : CalcFunction) (m : ℕ) → free ≤ℤ pos 0 → keep_free free t m ≡ m
unfolding keep_free
keep_free-none free t m h = ground arith

limit_units-le :
    (parts : ℕ) (t : CalcFunction) (l : ℕ) → limit_units parts t l * (t.fee * parts) ≤ l
unfolding limit_units
limit_units-le parts t l = ground (arith, div-mul-le_self l (t.fee * parts))

tier_units-le :
    (parts : ℕ) (t : CalcFunction) (l : ℕ)
    → (tier_units parts t l ≤ t.iterations) × (tier_units parts t l ≤ limit_units parts t l)
unfolding tier_units
tier_units-le parts t l = ground arith

-- The price of `k` blocks of a tier and `g` seconds behind them, by how the tier ends.
pub price_cases :
    (t : CalcFunction) (ts : List CalcFunction) (k g : ℕ)
    → IsTariff (t ∷ ts)
    → k ≤ t.iterations
    → 0 < t.iterations
    → (tier_price (t ∷ ts) (k * t.delta + g) ≡ (k + blocks g t.delta) * t.fee)
        × (k + blocks g t.delta ≤ t.iterations)
      ⊎ (tier_price (t ∷ ts) (k * t.delta + g)
          ≡ t.iterations * t.fee + tier_price ts (k * t.delta + g - t.iterations * t.delta))
        × (t.iterations < k + blocks g t.delta)
unfolding tier_price
price_cases t ts k g w h p = ground (arith, blocks-add k g t.delta w.0.1)

-- The price stays within the limit when the tier is full, when nothing is bought behind it, and
-- when the tier is free.
price_within :
    (t : CalcFunction) (ts : List CalcFunction) (parts k g l : ℕ)
    → IsTariff (t ∷ ts)
    → k ≤ t.iterations
    → 0 < t.iterations
    → k * (t.fee * parts) ≤ l
    → tier_price ts g * parts ≤ l - k * (t.fee * parts)
    → ((k ≡ t.iterations) ⊎ (g ≡ 0) ⊎ (t.fee ≡ 0))
    → tier_price (t ∷ ts) (k * t.delta + g) * parts ≤ l
price_within t ts parts k g l w h p paid ih (inl full) = elim (price_cases t ts k g w h p) [
  | inl (e, fits) ↦
      let none_more : blocks g t.delta ≡ 0 = omega arith in rw (e, none_more) (omega arith)
  | inr (e, over) ↦
      let rest : k * t.delta + g - t.iterations * t.delta ≡ g = rw (← full) (omega arith) in
      rw (e, rest, ← full) (omega arith)
]
price_within t ts parts k g l w h p paid ih (inr (inl nothing)) =
    let none_more : blocks g t.delta ≡ 0 = rw nothing (blocks-zero t.delta w.0.1) in
    elim (price_cases t ts k g w h p) [
      | inl (e, fits) ↦ rw (e, none_more) (omega arith)
      | inr (e, over) ↦ absurd (omega arith)
    ]
price_within t ts parts k g l w h p paid ih (inr (inr costless)) =
    elim (price_cases t ts k g w h p) [
      | inl (e, fits) ↦ rw (e, costless) (omega arith)
      | inr (e, over) ↦
          let rest : k * t.delta + g - t.iterations * t.delta ≤ g =
            omega (arith, times_mono k t.iterations t.delta h) in
          let cheaper = tier_price_mono ts _ g w.1 rest in
          rw (e, costless) (omega (arith, times_mono _ _ parts cheaper))
    ]

starve :
    (parts r f : ℕ) (ts : List CalcFunction)
    → r < f * parts
    → All (λ u. f ≤ u.fee) ts
    → All (λ u. r < u.fee * parts) ts
starve parts r f [] h k = tt
starve parts r f (t ∷ ts) h k =
    (omega (arith, times_mono f t.fee parts k.0), starve parts r f ts h k.1)

-- Less than one fee is left of a limit.
pub rest_lt :
    (parts : ℕ) (t : CalcFunction) (l : ℕ)
    → 0 < t.fee * parts
    → l - limit_units parts t l * (t.fee * parts) < t.fee * parts
unfolding limit_units
rest_lt parts t l h = ground (arith, lt-div-mul-add {a = l} h)

module _ (free : ℤ) (used_up : free ≤ℤ pos 0) (parts : ℕ) where
  pub maxsec_loop-nil : (m l : ℕ) → maxsec_loop free parts [] m l ≡ m
  unfolding maxsec_loop
  maxsec_loop-nil m l = refl

  -- The bought blocks cost no more than the limit.
  paid : (t : CalcFunction) (l : ℕ) → tier_units parts t l * (t.fee * parts) ≤ l
  paid t l = omega (
    arith,
    limit_units-le parts t l,
    times_mono (tier_units parts t l) (limit_units parts t l) (t.fee * parts)
        (tier_units-le parts t l).1,
  )

  -- Without free seconds the loop only adds.
  maxsec_loop-add :
      (ts : List CalcFunction) (m l : ℕ)
      → maxsec_loop free parts ts m l ≡ m + maxsec_loop free parts ts 0 l
  unfolding maxsec_loop
  maxsec_loop-add [] m l = omega arith
  maxsec_loop-add (t ∷ ts) m l =
      let k = tier_units parts t l in
      ground (
        arith,
        keep_free-none free t m used_up,
        keep_free-none free t 0 used_up,
        maxsec_loop-add ts (m + k * t.delta) (l - k * (t.fee * parts)),
        maxsec_loop-add ts (0 + k * t.delta) (l - k * (t.fee * parts)),
      )

  -- A limit below every fee buys nothing.
  maxsec_loop-starved :
      (ts : List CalcFunction) (m l : ℕ)
      → All (λ t. l < t.fee * parts) ts
      → maxsec_loop free parts ts m l ≡ m
  unfolding maxsec_loop tier_units limit_units
  maxsec_loop-starved [] m l h = refl
  maxsec_loop-starved (t ∷ ts) m l h =
      let none_bought : l / (t.fee * parts) ≡ 0 = div-eq_of_lt h.0 in
      ground (arith, keep_free-none free t m used_up, none_bought, maxsec_loop-starved ts m l h.1)

  -- What the first tier and those behind it grant.
  pub maxsec_loop-cons :
      (t : CalcFunction) (ts : List CalcFunction) (l : ℕ)
      → 0 < t.step
      → let k = tier_units parts t l in
        maxsec_loop free parts (t ∷ ts) 0 l ≡ (
          if l == 0
          then 0
          else if t.iterations == 0
          then limit_units parts t l * t.delta
          else k * t.delta + maxsec_loop free parts ts 0 (l - k * (t.fee * parts)))
  unfolding maxsec_loop
  maxsec_loop-cons t ts l s =
      let k = tier_units parts t l in
      ground (
        arith,
        keep_free-none free t 0 used_up,
        maxsec_loop-add ts (0 + k * t.delta) (l - k * (t.fee * parts)),
      )

  abbrev Affordable : List CalcFunction → ℕ → Type 0
  Affordable ts l = tier_price ts (maxsec_loop free parts ts 0 l) * parts ≤ l

  -- Behind a tier that is not full and costs something nothing is bought.
  none_behind :
      (t : CalcFunction) (ts : List CalcFunction) (l : ℕ)
      → IsRising (t ∷ ts)
      → 0 < parts
      → let k = tier_units parts t l in
        (k ≡ t.iterations)
        ⊎ (maxsec_loop free parts ts 0 (l - k * (t.fee * parts)) ≡ 0)
        ⊎ (t.fee ≡ 0)
  unfolding tier_units
  none_behind t ts l r p = elim (Bool-cases (ltb t.iterations (limit_units parts t l))) [
    | inl more ↦ inl (ground arith)
    | inr few ↦ elim (Bool-cases (t.fee == 0)) [
      | inl costless ↦ inr (inr (ground arith))
      | inr costs ↦ inr (
          inl (
            let bought : tier_units parts t l ≡ limit_units parts t l = ground arith in
            let price : 0 < t.fee * parts = grind arith in
            rw bought (
              maxsec_loop-starved ts 0 (l - limit_units parts t l * (t.fee * parts))
                (starve parts _ t.fee ts (rest_lt parts t l price) r.0))))
    ]
  ]

  affordable_endless :
      (t : CalcFunction) (ts : List CalcFunction) (l : ℕ)
      → IsTariff (t ∷ ts)
      → t.iterations ≡ 0
      → tier_price (t ∷ ts) (limit_units parts t l * t.delta) * parts ≤ l
  unfolding tier_price
  affordable_endless t ts l w endless =
      ground (
        arith,
        blocks-whole (limit_units parts t l) t.delta w.0.1,
        limit_units-le parts t l,
        endless,
      )

  -- While no tier is cheaper than the one before, the granted seconds cost no more than the limit.
  affordable :
      (ts : List CalcFunction) (l : ℕ) → 0 < parts → IsTariff ts → IsRising ts → Affordable ts l
  affordable [] l p w r = rw (maxsec_loop-nil 0 l, tier_price-zero [] tt) (omega arith)
  affordable (t ∷ ts) l p w r = elim (Bool-cases (l == 0)) [
    | inl broke ↦
        rw (maxsec_loop-cons t ts l w.0.0, broke, tier_price-zero (t ∷ ts) w) (omega arith)
    | inr funds ↦ elim (Bool-cases (t.iterations == 0)) [
      | inl endless ↦
          rw (maxsec_loop-cons t ts l w.0.0, funds, endless)
            (affordable_endless t ts l w (ground arith))
      | inr ends ↦
          let k = tier_units parts t l in
          rw (maxsec_loop-cons t ts l w.0.0, funds, ends)
            (price_within t ts parts k _ l w (tier_units-le parts t l).0 (ground arith) (paid t l)
              (affordable ts (l - k * (t.fee * parts)) p w.1 r.1) (none_behind t ts l r p))
    ]
  ]

pub no_free_start :
    (most : ℕ) (free : ℤ) (parts : ℕ) (ts : List CalcFunction) (limit : ℤ) (l : ℕ)
    → free ≤ℤ pos 0
    → limit ≡ pos l
    → ◌≡◌ {A = ℤ}
        (pos (
          if leb most (pos_part free) && ltb_ℤ (pos 0) free
          then most
          else at_most most (maxsec_loop free parts ts (pos_part free) (pos_part limit))))
        (pos (at_most most (maxsec_loop free parts ts 0 l)))
no_free_start most free parts ts limit l h e =
    let none_left : pos_part free ≡ 0 = ground arith in
    let not_free : ltb_ℤ (pos 0) free ≡ false = ground arith in
    rw (e, none_left) (ground (arith, not_free))

-- Without free seconds and on a tariff whose tiers never get cheaper, `calc_maxsec` sets a number
-- of seconds that is within the configured most, and that costs no more than the limit of the call.
pub calc_maxsec-affordable :
    (most : ℕ) (ts : List CalcFunction) (pre : Call) (l : ℕ)
    → IsTariff ts
    → IsRising ts
    → pre.free_billsec_limit ≤ℤ pre.free_billsec_sum
    → 0 < pre.limit_parts
    → pre.limit ≡ pos l
    → (n : ℕ) × ((calc_maxsec most (some ts) pre).maxsec ≡ pos n)
      × (n ≤ most)
      × (tier_price ts n * pre.limit_parts ≤ l)
unfolding calc_maxsec
calc_maxsec-affordable most ts pre l w r used_up p e =
    let free = pre.free_billsec_limit -ℤ pre.free_billsec_sum in
    let none_left : free ≤ℤ pos 0 = omega int_laws in
    let found = maxsec_loop free pre.limit_parts ts 0 l in
    let within = affordable free none_left pre.limit_parts ts l p w r in
    let fewer : at_most most found ≤ found = ground arith in
    (
      at_most most found,
      no_free_start most free pre.limit_parts ts pre.limit l none_left e,
      ground arith,
      omega (
        arith,
        within,
        times_mono _ _ pre.limit_parts (tier_price_mono ts (at_most most found) found w fewer),
      ),
    )
