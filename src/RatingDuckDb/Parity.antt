-- ===== src/RatingDuckDb/Parity.antt =====
-- The query and `calc_cprice_2` price alike.
use mathlib.Core.Path.{subst}
use rate_engine.Base.{
  ℕ, zero, suc, ◌≤◌, ◌<◌, ◌≡◌, refl, sym, ◌∙◌, inl, inr, true, false, List, [], ◌∷◌, none, some,
  arith, ◌==◌, pos, ◌==ℤ◌, length, Bool-cases,
}
use rate_engine.Rating.Data.{CalcFunction, Call}
use rate_engine.Rating.Calc.{
  Pricing, units, charge, charge_tier, cprice_loop, calc_cprice_2, unpriced,
}
use rate_engine.Rating.Calc.Tiers.{IsTariff}
use rate_engine.RatingDuckDb.{
  WalkRow, find_pos, walk_units, walk_charge, walk_row, walk, walk_start, price_walk,
}

-- From `k` on, the tiers have the positions that follow, and there are no more.
abbrev pub Continues : List CalcFunction → ℕ → List CalcFunction → Type 0
Continues tiers k [] = find_pos (suc k) tiers ≡ none
Continues tiers k (t ∷ ts) =
    (t.step ≡ suc k) × (find_pos (suc k) tiers ≡ some t) × Continues tiers (suc k) ts

-- The tiers are numbered from 1 in their order.
abbrev pub IsNumbered : List CalcFunction → Type 0
IsNumbered tiers = Continues tiers 0 tiers

-- A row has the sums of the loop.
abbrev pub IsRow : Pricing → WalkRow → Type 0
IsRow s p = (p.rem ≡ s.checksec) × (p.price ≡ s.cprice) × (p.bsec ≡ s.billsec)

walk_row-endless :
    (t : CalcFunction) (s : Pricing) (p : WalkRow)
    → 0 < t.delta
    → t.iterations ≡ 0
    → IsRow s p
    → IsRow (charge t (units t s) s) (walk_row t p)
unfolding walk_row walk_units walk_charge charge units
walk_row-endless t s p d e (a, b, c) =
    (ground (arith, e, a), ground (arith, e, a, b), ground (arith, e, a, c))

walk_row-tier :
    (t : CalcFunction) (s : Pricing) (p : WalkRow)
    → 0 < t.delta
    → 0 < t.iterations
    → IsRow s p
    → IsRow (charge_tier t s) (walk_row t p)
unfolding walk_row walk_units walk_charge charge_tier charge units
walk_row-tier t s p d e (a, b, c) =
    (ground (arith, e, a), ground (arith, e, a, b), ground (arith, e, a, c))

walk-done :
    (n : ℕ) (tiers : List CalcFunction) (p : WalkRow) → p.is_done ≡ true → walk n tiers p ≡ p
unfolding walk
walk-done zero tiers p e = refl
walk-done (suc n) tiers p e = ground (arith, e)

IsRow-same : (s s' : Pricing) (p p' : WalkRow) → s ≡ s' → p ≡ p' → IsRow s' p' → IsRow s p
IsRow-same s s' p p' e f row = rw (e, f) row

-- The steps of the two loops on a tier.
module _ (t : CalcFunction) (ts : List CalcFunction) (s : Pricing) (step : 0 < t.step) where
  cprice_loop-endless : t.iterations ≡ 0 → cprice_loop (t ∷ ts) s ≡ charge t (units t s) s
  unfolding cprice_loop
  cprice_loop-endless e = ground (arith, step, e)

  cprice_loop-one :
      0 < t.iterations → (units t s ==ℤ pos 1) ≡ true → cprice_loop (t ∷ ts) s ≡ charge_tier t s
  unfolding cprice_loop
  cprice_loop-one e u = ground (arith, step, e, u)

  cprice_loop-more :
      0 < t.iterations
      → (units t s ==ℤ pos 1) ≡ false
      → cprice_loop (t ∷ ts) s ≡ cprice_loop ts (charge_tier t s)
  unfolding cprice_loop
  cprice_loop-more e u = ground (arith, step, e, u)

module _ (t : CalcFunction) (s : Pricing) (p : WalkRow) (d : 0 < t.delta) (row : IsRow s p) where
  same_units : walk_units t p.rem ≡ units t s
  unfolding walk_units units
  same_units = ground (arith, d, row.0)

  row-endless : t.iterations ≡ 0 → (walk_row t p).is_done ≡ true
  unfolding walk_row
  row-endless e = ground (arith, e)

  row-tier : 0 < t.iterations → (walk_row t p).is_done ≡ (units t s ==ℤ pos 1)
  unfolding walk_row
  row-tier e = ground (arith, d, e, same_units)

walk-step :
    (tiers : List CalcFunction) (n : ℕ) (t : CalcFunction) (p : WalkRow)
    → p.is_done ≡ false
    → find_pos (suc p.position) tiers ≡ some t
    → walk (suc n) tiers p ≡ walk n tiers (walk_row t p)
unfolding walk
walk-step tiers n t p e here = ground (arith, e, here)

walk_row-position : (t : CalcFunction) (p : WalkRow) → (walk_row t p).position ≡ t.step
unfolding walk_row
walk_row-position t p = refl

-- After a tier: the row that it made is the last one, or the loop goes on in both.
walk_row-IsRow :
    (tiers ts : List CalcFunction) (t : CalcFunction) (n : ℕ) (s : Pricing) (p : WalkRow)
    → (0 < t.step) × (0 < t.delta)
    → Continues tiers t.step ts
    → IsRow s p
    → ((s' : Pricing) (p' : WalkRow)
        → Continues tiers p'.position ts
        → p'.is_done ≡ false
        → IsRow s' p'
        → IsRow (cprice_loop ts s') (walk n tiers p'))
    → IsRow (cprice_loop (t ∷ ts) s) (walk n tiers (walk_row t p))
walk_row-IsRow tiers ts t n s p (st, d) more row later = elim (Bool-cases (t.iterations == 0)) [
  | inl e ↦
      IsRow-same _ _ _ _ (cprice_loop-endless t ts s st (ground (arith, e)))
        (walk-done n tiers (walk_row t p) (row-endless t s p d row (ground (arith, e))))
        (walk_row-endless t s p d (ground (arith, e)) row)
  | inr e ↦
      let it : 0 < t.iterations = ground (arith, e) in
      elim (Bool-cases (units t s ==ℤ pos 1)) [
        | inl u ↦
            IsRow-same _ _ _ _ (cprice_loop-one t ts s st it u)
              (walk-done n tiers (walk_row t p) (row-tier t s p d row it ∙ u))
              (walk_row-tier t s p d it row)
        | inr u ↦
            IsRow-same _ _ _ (walk n tiers (walk_row t p)) (cprice_loop-more t ts s st it u) refl (
              later (charge_tier t s) (walk_row t p)
                (subst (λ k. Continues tiers k ts) (sym (walk_row-position t p)) more)
                (row-tier t s p d row it ∙ u) (walk_row-tier t s p d it row))
      ]
]

walk-IsRow :
    (tiers ts : List CalcFunction) (n : ℕ) (s : Pricing) (p : WalkRow)
    → IsTariff ts
    → Continues tiers p.position ts
    → length ts ≤ n
    → p.is_done ≡ false
    → IsRow s p
    → IsRow (cprice_loop ts s) (walk n tiers p)
unfolding walk cprice_loop
walk-IsRow tiers [] zero s p w k h e row = row
walk-IsRow tiers [] (suc n) s p w k h e (a, b, c) =
    (ground (arith, k, e, a), ground (arith, k, e, b), ground (arith, k, e, c))
walk-IsRow tiers (t ∷ ts) zero s p w k h e row = absurd (omega (arith, h))
walk-IsRow tiers (t ∷ ts) (suc n) s p w (step, here, more) h e row =
    IsRow-same (cprice_loop (t ∷ ts) s) _ _ _ refl (walk-step tiers n t p e here) (
      walk_row-IsRow tiers ts t n s p w.0 (subst (λ k. Continues tiers k ts) (sym step) more) row
        (λ s' p' more' e' row'. walk-IsRow tiers ts n s' p' w.1 more' (omega (arith, h)) e' row'))

-- On a tariff whose tiers are numbered from 1, the query prices every portion, and with the price
-- and the charged seconds that `calc_cprice_2` gives a call of as many seconds.
pub price_walk-calc_cprice_2 :
    (t : CalcFunction) (ts : List CalcFunction) (pre : Call)
    → IsTariff (t ∷ ts)
    → IsNumbered (t ∷ ts)
    → let priced = (calc_cprice_2 (some (t ∷ ts)) pre).0 in
      (row : WalkRow) × (price_walk (t ∷ ts) pre.billsec ≡ some row)
      × (row.price ≡ priced.cprice)
      × (row.bsec ≡ priced.billsec)
unfolding price_walk calc_cprice_2
price_walk-calc_cprice_2 t ts pre w (step, here, more) =
    let tiers = t ∷ ts in
    let last = walk (length tiers) tiers (walk_row t (walk_start pre.billsec)) in
    let (rem, price, bsec) =
      walk_row-IsRow tiers ts t (length tiers) (unpriced pre.billsec) (walk_start pre.billsec) w.0
        (subst (λ k. Continues tiers k ts) (sym step) more) (refl, refl, refl)
        (λ s' p' more' e' row'.
          walk-IsRow tiers ts (length tiers) s' p' w.1 more' (omega arith) e' row') in
    (last, ground (arith, here), price, bsec)
