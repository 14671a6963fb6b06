-- ===== src/Rating/Calc/Tiers.antt =====
-- What a tariff means: calls fill its tiers in order, and a begun block is charged whole. This is
-- the independent description that the loops of calc_functions.c are compared with.
use rate_engine.Base.{
  ℕ, suc, ◌+◌, ◌-◌, ◌*◌, ◌/◌, ◌≤◌, ◌<◌, ◌≡◌, ◌⊎◌, refl, List, [], ◌∷◌, arith, leb, ◌==◌,
  if◌then◌else◌, All,
}
use native.Mathlib.Nat.{div-eq_of_lt, le-div_iff_mul-le, div-mul-le_self, mul-add-div_right}
use rate_engine.Rating.Data.{CalcFunction}

-- The blocks of `d` seconds that `n` seconds begin.
abbrev pub blocks : ℕ → ℕ → ℕ
blocks n d = (n + d - 1) / d

unfoldable pub tier_price : List CalcFunction → ℕ → ℕ
tier_price [] n = 0
tier_price (t ∷ tr) n =
    let rest = tier_price tr (n - t.iterations * t.delta) in
    if t.iterations == 0
    then blocks n t.delta * t.fee
    else if leb (blocks n t.delta) t.iterations
    then blocks n t.delta * t.fee
    else t.iterations * t.fee + rest

unfoldable pub tier_seconds : List CalcFunction → ℕ → ℕ
tier_seconds [] n = 0
tier_seconds (t ∷ tr) n =
    let rest = tier_seconds tr (n - t.iterations * t.delta) in
    if t.iterations == 0
    then blocks n t.delta * t.delta
    else if leb (blocks n t.delta) t.iterations
    then blocks n t.delta * t.delta
    else t.iterations * t.delta + rest

-- Every tier is a real entry of the array, with a positive block.
abbrev pub IsTariff : List CalcFunction → Type 0
IsTariff = All λ t. (0 < t.step) × (0 < t.delta)

-- A tier of more than one block is not followed by shorter blocks.
abbrev pub IsGraded : List CalcFunction → Type 0
IsGraded [] = Unit
IsGraded (t ∷ tr) = ((t.iterations ≤ 1) ⊎ All (λ u. t.delta ≤ u.delta) tr) × IsGraded tr

-- No tier is cheaper than the one before.
abbrev pub IsRising : List CalcFunction → Type 0
IsRising [] = Unit
IsRising (t ∷ tr) = All (λ u. t.fee ≤ u.fee) tr × IsRising tr

-- The last tier has no end, so that every call is covered.
abbrev pub IsOpen : List CalcFunction → Type 0
IsOpen [] = ⊥
IsOpen (t ∷ []) = t.iterations ≡ 0
IsOpen (t ∷ u ∷ tr) = IsOpen (u ∷ tr)

-- `blocks n d` is the least number of blocks that holds `n` seconds.
pub blocks_bounds : (n d : ℕ) → 0 < d → (n ≤ blocks n d * d) × (blocks n d * d < n + d)
blocks_bounds n d h = (grind arith, grind arith)

-- A tier that the call outgrows is filled by its first seconds.
pub tier_full : (n d k : ℕ) → 0 < d → k < blocks n d → k * d < n
tier_full n d k h over =
    let below : suc k * d ≤ blocks n d * d = grind arith in
    omega (arith, below, (blocks_bounds n d h).1)

-- The charged seconds of a tariff with no end cover the call.
pub le-tier_seconds :
    (ts : List CalcFunction) (n : ℕ) → IsTariff ts → IsOpen ts → n ≤ tier_seconds ts n
unfolding tier_seconds
le-tier_seconds [] n w o = absurd o
le-tier_seconds (t ∷ []) n w o = ground (arith, blocks_bounds n t.delta w.0.1)
le-tier_seconds (t ∷ u ∷ ts) n w o =
    let rest = le-tier_seconds (u ∷ ts) (n - t.iterations * t.delta) w.1 o in
    ground (arith, blocks_bounds n t.delta w.0.1, rest)

pub blocks-zero : (d : ℕ) → 0 < d → blocks 0 d ≡ 0
blocks-zero d h = div-eq_of_lt (omega arith)

pub blocks_mono : (m n d : ℕ) → 0 < d → m ≤ n → blocks m d ≤ blocks n d
blocks_mono m n d p h = (le-div_iff_mul-le p).1 (omega (arith, div-mul-le_self (m + d - 1) d))

-- Whole blocks before `n` seconds are counted apart.
pub blocks-add : (k n d : ℕ) → 0 < d → blocks (k * d + n) d ≡ k + blocks n d
blocks-add k n d h =
    let e : k * d + n + d - 1 ≡ k * d + (n + d - 1) = omega arith in
    rw e (mul-add-div_right h k (n + d - 1))

pub blocks-whole : (k d : ℕ) → 0 < d → blocks (k * d) d ≡ k
blocks-whole k d h =
    let e : k * d + d - 1 ≡ k * d + (d - 1) = omega arith in
    let f : (d - 1) / d ≡ 0 = div-eq_of_lt (omega arith) in
    rw (e, mul-add-div_right h k (d - 1), f) (omega arith)

pub tier_price-zero : (ts : List CalcFunction) → IsTariff ts → tier_price ts 0 ≡ 0
unfolding tier_price
tier_price-zero [] w = refl
tier_price-zero (t ∷ ts) w = ground (arith, blocks-zero t.delta w.0.1)

pub times_mono : (a b c : ℕ) → a ≤ b → a * c ≤ b * c
times_mono a b c h = grind arith

-- A longer call costs no less.
pub tier_price_mono :
    (ts : List CalcFunction) (m n : ℕ) → IsTariff ts → m ≤ n → tier_price ts m ≤ tier_price ts n
unfolding tier_price
tier_price_mono [] m n w h = omega arith
tier_price_mono (t ∷ ts) m n w h = ground (
  arith,
  blocks_mono m n t.delta w.0.1 h,
  times_mono (blocks m t.delta) (blocks n t.delta) t.fee,
  times_mono (blocks m t.delta) t.iterations t.fee,
  tier_price_mono ts (m - t.iterations * t.delta) (n - t.iterations * t.delta) w.1,
)
