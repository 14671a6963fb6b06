-- ===== src/Rating/Search/Longest.antt =====
-- Which rate a called number gets, when no tariff has a time condition.
use rate_engine.Base.{
  ℕ, ◌≤◌, ◌<◌, ◌≡◌, Bool, true, false, List, [], ◌∷◌, pos, ◌≤ℤ◌, Text, strcmp, length, All,
}
use rate_engine.Rating.Data.{Rate, Call}
use rate_engine.Rating.World.{Host, World}
use rate_engine.Rating.Search.{rate_matches, tariff_has_tc}

-- `order by pr.prefix desc`.
abbrev pub IsDescending : List Rate → Type 0
IsDescending [] = Unit
IsDescending (r ∷ rs) = All (λ r'. pos 0 ≤ℤ strcmp r.prefix r'.prefix) rs × IsDescending rs

-- A number that starts above `&`.
abbrev pub IsDialable : Text → Type 0
IsDialable [] = ⊥
IsDialable (c ∷ s) = b'&' < c

module _ {Db : Type 0} (host : Host Db) where
  -- No tariff has a time condition, by the cache or, where it has no answer, by the database.
  abbrev pub IsPlain : World Db → Type 0
  IsPlain w = (pre : Call) → (tariff_has_tc host w pre).0 ≡ false

  -- The rate chosen: its ids are the call's, and no rate that matches has a longer prefix.
  abbrev pub IsLongest : Call → World Db × Call × Bool → Rate → ℕ → Type 0
  IsLongest pre (w, found, chosen) r n =
      (chosen ≡ true)
      × (found.rate_id ≡ r.id)
      × (found.tariff_id ≡ r.tariff_id)
      × (rate_matches pre r ≡ true)
      × (n ≤ length r.prefix)
