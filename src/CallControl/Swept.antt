-- ===== src/CallControl/Swept.antt =====
-- What a pass of the thread leaves.
use rate_engine.Base.{
  ℕ, ◌+◌, ◌%◌, ◌^◌, ◌≤◌, ◌<◌, ◌≡◌, inl, inr, refl, ap, List, [], ◌∷◌, none, some, false, arith,
  if◌then◌else◌, ltb, map, Bool-cases, Option-cases,
}
use rate_engine.CallControl.Table.{Cc, CcMaxsec, CcTerm, Slot, empty_slot, cc_server_call_clear}
use rate_engine.CallControl.Sweep.{
  Billing, call_maxsec_limit_wait, is_over, is_used, settle_slot, counted, sweep_loop, sweep,
}

-- What the pass may leave of a slot: nothing of a call that was terminated, or that was asked for
-- longer ago than the limit and 90 seconds, and everything of any other.
pub data IsSwept (limit now : ℕ) (s s' : Slot) : Type 0 where
  unused : s.cc ≡ none → s' ≡ s → IsSwept limit now s s'
  ended :
      (c : Cc) (tm : CcTerm)
      → s.cc ≡ some c
      → c.term ≡ some tm
      → s' ≡ empty_slot
      → IsSwept limit now s s'
  going :
      (c : Cc) (m : CcMaxsec)
      → s.cc ≡ some c
      → c.term ≡ none
      → c.max ≡ some m
      → now ≤ m.ts + limit + 90
      → s' ≡ s
      → IsSwept limit now s s'
  too_old :
      (c : Cc) (m : CcMaxsec)
      → s.cc ≡ some c
      → c.term ≡ none
      → c.max ≡ some m
      → m.ts + limit + 90 < now
      → s' ≡ empty_slot
      → IsSwept limit now s s'
  unasked :
      (c : Cc) → s.cc ≡ some c → c.term ≡ none → c.max ≡ none → s' ≡ s → IsSwept limit now s s'

-- Slot by slot.
unfoldable pub AreSwept : ℕ → ℕ → List Slot → List Slot → Type 0
AreSwept limit now [] ss' = ss' ≡ []
AreSwept limit now (s ∷ ss) [] = ⊥
AreSwept limit now (s ∷ ss) (s' ∷ ss') = IsSwept limit now s s' × AreSwept limit now ss ss'

module _ {W : Type 0} (billing : Billing W) where
  -- A slot after the pass.
  abbrev pub kept : ℕ → Slot → Slot
  kept now s = if is_over billing now s then empty_slot else s

  unfoldable pub used_slots : List Slot → ℕ
  used_slots [] = 0
  used_slots (s ∷ ss) = (if is_used billing s then 1 else 0) + used_slots ss

  IsSwept-kept : (now : ℕ) (s : Slot) → IsSwept (billing.call_maxsec_limit) now s (kept now s)
  unfolding is_over
  IsSwept-kept now s = elim (Option-cases s.cc) [
    | inl e ↦ unused e (ground (arith, e))
    | inr (c, e) ↦ elim (Option-cases c.term) [
      | inr (tm, t) ↦ ended c tm e t (ground (arith, e, t))
      | inl t ↦ elim (Option-cases c.max) [
        | inl m ↦ unasked c e t m (ground (arith, e, t, m))
        | inr (m, asked) ↦
            elim (Bool-cases
              (ltb (m.ts + (billing.call_maxsec_limit + call_maxsec_limit_wait)) now)) [
                | inl l ↦ too_old c m e t asked (ground (arith, l)) (ground (arith, e, t, asked, l))
                | inr l ↦ going c m e t asked (ground (arith, l)) (ground (arith, e, t, asked, l))
              ]
      ]
    ]
  ]

  AreSwept-kept :
      (now : ℕ) (tbl : List Slot)
      → AreSwept (billing.call_maxsec_limit) now tbl (map (kept now) tbl)
  unfolding AreSwept
  AreSwept-kept now [] = refl
  AreSwept-kept now (s ∷ ss) = (IsSwept-kept now s, AreSwept-kept now ss)

  pub sweep_loop-kept :
      (now : ℕ) (w : W) (sim : ℕ) (tbl : List Slot)
      → (sweep_loop billing now w sim tbl).0 ≡ map (kept now) tbl
  unfolding sweep_loop cc_server_call_clear
  sweep_loop-kept now w sim [] = refl
  sweep_loop-kept now w sim (s ∷ ss) =
      ap (λ rest. kept now s ∷ rest)
        (sweep_loop-kept now (settle_slot billing w s) (counted billing now sim s) ss)

  is_over-unused : (now : ℕ) (s : Slot) → s.cc ≡ none → is_over billing now s ≡ false
  unfolding is_over
  is_over-unused now s e = ground (arith, e)

  counted-kept :
      (now sim : ℕ) (s : Slot)
      → sim < 2 ^ 16
      → (counted billing now sim s
          ≡ (sim + (if is_used billing (kept now s) then 1 else 0)) % 2 ^ 16)
        × (counted billing now sim s < 2 ^ 16)
  unfolding counted
  counted-kept now sim s below = elim (Option-cases s.cc) [
    | inl e ↦
        let gone = is_over-unused now s e in
        (ground (arith, e, gone, below), ground (arith, e, gone, below))
    | inr (c, e) ↦ elim (Bool-cases (is_over billing now s)) [
      | inl o ↦ (ground (arith, e, o, below), ground (arith, e, o, below))
      | inr o ↦ (ground (arith, e, o, below), ground (arith, e, o, below))
    ]
  ]

  sweep_loop-counts :
      (now : ℕ) (w : W) (sim : ℕ) (tbl : List Slot)
      → sim < 2 ^ 16
      → (sweep_loop billing now w sim tbl).2 ≡ (sim + used_slots (map (kept now) tbl)) % 2 ^ 16
  unfolding sweep_loop used_slots
  sweep_loop-counts now w sim [] below = ground arith
  sweep_loop-counts now w sim (s ∷ ss) below =
      let (here, still) = counted-kept now sim s below in
      let rest =
        sweep_loop-counts now (settle_slot billing w s) (counted billing now sim s) ss still in
      omega (arith, here, rest)

  pub sweep-kept :
      (now : ℕ) (w : W) (tbl : List Slot) → (sweep billing now w tbl).0 ≡ map (kept now) tbl
  unfolding sweep
  sweep-kept now w tbl = sweep_loop-kept now w 0 tbl

  -- A pass empties the slots of the calls that were terminated or asked for longer ago than the
  -- limit and 90 seconds, leaves the others as they are, and counts the calls that are left, modulo
  -- 2 ^ 16.
  pub sweep-AreSwept :
      (now : ℕ) (w : W) (tbl : List Slot)
      → AreSwept (billing.call_maxsec_limit) now tbl (sweep billing now w tbl).0
        × ((sweep billing now w tbl).2 ≡ used_slots (sweep billing now w tbl).0 % 2 ^ 16)
  unfolding sweep
  sweep-AreSwept now w tbl =
      rw (sweep_loop-kept now w 0 tbl)
        (AreSwept-kept now tbl, omega (arith, sweep_loop-counts now w 0 tbl (ground arith)))
