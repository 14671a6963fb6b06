-- ===== src/RatingDuckDb.antt =====
-- mod/RatingDuckDB/rt_duckdb.c: the recursive query that prices a portion of a call, tier by tier.
-- The rows of a portion are made one from the other, and the last one is the result; a tier is the
-- row of `calc_function` with the next position.
pub mod Parity
pub mod FreeSplit
pub mod Tests
use rate_engine.Base.{
  ℕ, zero, suc, ◌+◌, Bool, true, false, ◌||◌, List, [], ◌∷◌, Option, none, some, ◌==◌,
  if◌then◌else◌, ℤ, pos, ◌+ℤ◌, ◌-ℤ◌, ◌*ℤ◌, leb_ℤ, ◌==ℤ◌, ceil_div, length,
}
use rate_engine.Rating.Data.{CalcFunction}

-- The columns of `price_walk`.
pub record WalkRow : Type 0 where
  pub position : ℕ
  pub rem : ℤ
  pub price : ℤ
  pub bsec : ℤ
  pub is_done : Bool

-- `JOIN calc_function cf ON ... cf.pos = ...`, with one tier for a position.
unfoldable pub find_pos : ℕ → List CalcFunction → Option CalcFunction
find_pos position [] = none
find_pos position (t ∷ ts) =
    let later = find_pos position ts in if t.step == position then some t else later

-- `u`: the blocks of the rest.
unfoldable pub walk_units : CalcFunction → ℤ → ℤ
walk_units t cs = if t.delta == 0 then pos 1 else ceil_div cs t.delta

-- `charge`.
unfoldable pub walk_charge : CalcFunction → ℤ → ℤ
walk_charge t u = if (t.iterations == 0) || leb_ℤ u (pos t.iterations) then u else pos t.iterations

-- The row of a tier, from the row before.
unfoldable pub walk_row : CalcFunction → WalkRow → WalkRow
walk_row t p =
    let u = walk_units t p.rem in
    let charge = walk_charge t u in
    record {
      position = t.step;
      rem = p.rem -ℤ charge *ℤ t.delta;
      price = p.price +ℤ charge *ℤ t.fee;
      bsec = p.bsec +ℤ charge *ℤ t.delta;
      is_done = (t.iterations == 0) || (t.delta == 0) || (u ==ℤ pos 1);
    }

-- The recursion, for at most as many rows as the fuel.
unfoldable pub walk : ℕ → List CalcFunction → WalkRow → WalkRow
walk zero tiers p = p
walk (suc n) tiers p =
    if p.is_done
    then p
    else elim (find_pos (suc p.position) tiers) [ none ↦ p | some t ↦ walk n tiers (walk_row t p) ]

-- Before the first row.
abbrev pub walk_start : ℤ → WalkRow
walk_start sec = record { position = 0; rem = sec; price = pos 0; bsec = pos 0; is_done = false }

-- `final`: the last row of a portion of `sec` seconds, when the tariff has a first tier.
unfoldable pub price_walk : List CalcFunction → ℤ → Option WalkRow
price_walk tiers sec = elim (find_pos 1 tiers) [
  | none ↦ none
  | some t ↦ some (walk (length tiers) tiers (walk_row t (walk_start sec)))
]
