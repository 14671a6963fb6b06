-- ===== src/Rating/Calc/Round.antt =====
-- round_billsec.c: the two modes of rounding microseconds to seconds.
use rate_engine.Base.{ℕ, ◌+◌, ◌-◌, ◌*◌, ◌/◌, ◌≤◌, ◌<◌, ◌≡◌, refl, arith, pos, ceil_div, floor_div}
use rate_engine.Rating.Calc.{round_billsec}

-- Mode 1 rounds a duration up and mode 2 rounds it down to whole seconds, each by less than a
-- second; every other mode gives 0.
pub round_billsec-bounds :
    (mode usec : ℕ)
    → ((up : ℕ) × (round_billsec 1 (pos usec) ≡ pos up)
        × (usec ≤ up * 1000000)
        × (up * 1000000 < usec + 1000000))
      × ((down : ℕ) × (round_billsec 2 (pos usec) ≡ pos down)
          × (down * 1000000 ≤ usec)
          × (usec < down * 1000000 + 1000000))
      × (round_billsec (mode + 3) (pos usec) ≡ pos 0)
unfolding round_billsec ceil_div floor_div
round_billsec-bounds mode usec = (
  ((usec + 1000000 - 1) / 1000000, refl, omega arith, omega arith),
  (usec / 1000000, refl, omega arith, omega arith),
  ground arith,
)
