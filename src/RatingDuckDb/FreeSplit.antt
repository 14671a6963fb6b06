-- ===== src/RatingDuckDb/FreeSplit.antt =====
-- The split of the free seconds of rt_duckdb.c among the calls of one account, tariff and period,
-- in the order of their records.
use rate_engine.Base.{ℕ, ◌+◌, ◌-◌, ◌≡◌, refl, List, [], ◌∷◌, arith, leb, if◌then◌else◌}

abbrev least : ℕ → ℕ → ℕ
least a b = if leb a b then a else b

-- `GREATEST(0, LEAST(billsec, fb_limit - (used + sum of the calls before)))`, with `before` for
-- what is subtracted.
unfoldable pub free_sec : ℕ → ℕ → ℕ → ℕ
free_sec fb_limit before billsec =
    if leb before fb_limit then least billsec (fb_limit - before) else 0

-- The window over the calls.
unfoldable pub split : ℕ → ℕ → List ℕ → List ℕ
split fb_limit before [] = []
split fb_limit before (billsec ∷ calls) =
    free_sec fb_limit before billsec ∷ split fb_limit (before + billsec) calls

-- One call after the other takes what it can of the seconds that are left.
unfoldable pub drawdown : ℕ → List ℕ → List ℕ
drawdown left [] = []
drawdown left (billsec ∷ calls) = least billsec left ∷ drawdown (left - least billsec left) calls

unfoldable pub total : List ℕ → ℕ
total [] = 0
total (n ∷ ns) = n + total ns

split-drawdown :
    (fb_limit used left : ℕ) (calls : List ℕ)
    → left ≡ fb_limit - used
    → split fb_limit used calls ≡ drawdown left calls
unfolding split drawdown free_sec
split-drawdown fb_limit used left [] e = refl
split-drawdown fb_limit used left (billsec ∷ calls) e =
    let next : left - least billsec left ≡ fb_limit - (used + billsec) = ground (arith, e) in
    let now : free_sec fb_limit used billsec ≡ least billsec left = ground (arith, e) in
    rw (now, split-drawdown fb_limit (used + billsec) (left - least billsec left) calls next) refl

drawdown-total :
    (left : ℕ) (calls : List ℕ) → total (drawdown left calls) ≡ least (total calls) left
unfolding drawdown total
drawdown-total left [] = ground arith
drawdown-total left (billsec ∷ calls) =
    ground (arith, drawdown-total (left - least billsec left) calls)

-- The calls get their free seconds as if one after the other drew them from what the history has
-- left, and together they get all that is left or, when they are shorter, all their seconds.
pub split-total :
    (fb_limit used : ℕ) (calls : List ℕ)
    → (split fb_limit used calls ≡ drawdown (fb_limit - used) calls)
      × (total (split fb_limit used calls)
          ≡ (if leb (total calls) (fb_limit - used) then total calls else fb_limit - used))
split-total fb_limit used calls =
    let same = split-drawdown fb_limit used (fb_limit - used) calls refl in
    (same, rw same (drawdown-total (fb_limit - used) calls))
