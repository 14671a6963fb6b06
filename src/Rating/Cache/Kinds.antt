-- ===== src/Rating/Cache/Kinds.antt =====
-- rt_cache.h and rt_cache.c: the six caches and their counters. The clock is read once by each
-- operation. The lock makes every operation one step, and allocation succeeds.
use rate_engine.Base.{
  ℕ, zero, suc, ◌+◌, ◌%◌, ◌^◌, ◌≤◌, ◌≡◌, refl, ap, Bool, List, [], ◌∷◌, Option, none, some, arith,
  ◌==◌, if◌then◌else◌, ℤ, pos, negsuc, Text, text_eq, text_eq_iff, length,
}
use rate_engine.Rating.Data.{CalcFunction, Pcard, Rate}
use rate_engine.Rating.Cache.Table.{
  Keys, Chains, hash_int, hash_str, first_chars, rt_cache_fresh, table_get, table_put,
}
use rate_engine.Rating.Cache.Laws.{IsLawful, table_get-put}

-- `rt_cache_racc_data_t`.
pub record RaccData : Type 0 where
  pub bacc_id : ℕ
  pub bplan_id : ℕ
  pub bplan_start_period : ℕ
  pub bplan_end_period : ℕ
  pub billing_day : ℕ
  pub round_mode_id : ℕ
  pub day_of_payment : ℕ

pub record RtCache : Type 0 where
  pub rates : Chains ℕ (List Rate)
  pub tariffs : Chains ℕ (List CalcFunction)
  pub raccs : Chains Text RaccData
  pub pcards : Chains ℕ (List Pcard)
  pub tcs : Chains ℕ Bool
  pub fbs : Chains ℕ ℤ
  pub rates_hits : ℕ
  pub rates_misses : ℕ
  pub tariff_hits : ℕ
  pub tariff_misses : ℕ
  pub racc_hits : ℕ
  pub racc_misses : ℕ
  pub pcard_hits : ℕ
  pub pcard_misses : ℕ

abbrev pub int_keys : Keys ℕ
int_keys = record { hash = hash_int; same = λ a b. a == b; stored = λ k. k }

-- `key` has room for 127 bytes and the NUL.
abbrev pub text_keys : Keys Text
text_keys = record { hash = hash_str; same = text_eq; stored = first_chars 127 }

-- `rt_cache_rates_dup`, `rt_cache_calc_dup` and `rt_cache_pcard_dup`: the first `count` rows.
unfoldable pub first_rows {ℓ} : {A : Type ℓ} → ℕ → List A → List A
first_rows zero rows = []
first_rows (suc n) [] = []
first_rows (suc n) (row ∷ rows) = row ∷ first_rows n rows

unfoldable pub dup {ℓ} : {A : Type ℓ} → Option (List A) → ℤ → Option (List A)
dup none count = none
dup (some src) (pos zero) = none
dup (some src) (pos (suc n)) = some (first_rows (suc n) src)
dup (some src) (negsuc n) = none

-- `rt_cache_init`: zeroed.
abbrev pub rt_cache_init : RtCache
rt_cache_init = record {
  rates = λ h. [];
  tariffs = λ h. [];
  raccs = λ h. [];
  pcards = λ h. [];
  tcs = λ h. [];
  fbs = λ h. [];
  rates_hits = 0;
  rates_misses = 0;
  tariff_hits = 0;
  tariff_misses = 0;
  racc_hits = 0;
  racc_misses = 0;
  pcard_hits = 0;
  pcard_misses = 0;
}

-- The counters are 32 bits wide.
abbrev count_up : ℕ → ℕ
count_up n = (n + 1) % 2 ^ 32

abbrev is_hit {ℓ} : {A : Type ℓ} → Option A → Bool
is_hit none = Bool.false
is_hit (some a) = Bool.true

-- A put of rows that cannot be copied changes nothing.
abbrev put_rows {ℓ} : {A : Type ℓ} → ℕ → ℕ → Option (List A) → Chains ℕ (List A) → Chains ℕ (List A)
put_rows now k none t = t
put_rows now k (some rows) t = table_put int_keys now k rows t

unfoldable pub rt_cache_rates_get : ℕ → RtCache → ℕ → Option (List Rate) × RtCache
rt_cache_rates_get now cache bplan_id =
    let copy = table_get int_keys now bplan_id cache.rates in
    (
      copy,
      if is_hit copy
          then record cache { rates_hits = count_up cache.rates_hits }
          else record cache { rates_misses = count_up cache.rates_misses },
    )

unfoldable pub rt_cache_rates_put : ℕ → RtCache → ℕ → Option (List Rate) → ℤ → RtCache
rt_cache_rates_put now cache bplan_id rates count = record cache {
  rates = put_rows now bplan_id (dup rates count) cache.rates;
}

unfoldable pub rt_cache_tariff_get : ℕ → RtCache → ℕ → Option (List CalcFunction) × RtCache
rt_cache_tariff_get now cache tariff_id =
    let copy = table_get int_keys now tariff_id cache.tariffs in
    (
      copy,
      if is_hit copy
          then record cache { tariff_hits = count_up cache.tariff_hits }
          else record cache { tariff_misses = count_up cache.tariff_misses },
    )

unfoldable pub rt_cache_tariff_put : ℕ → RtCache → ℕ → Option (List CalcFunction) → ℤ → RtCache
rt_cache_tariff_put now cache tariff_id funcs count = record cache {
  tariffs = put_rows now tariff_id (dup funcs count) cache.tariffs;
}

unfoldable pub rt_cache_racc_get : ℕ → RtCache → Text → Option RaccData × RtCache
rt_cache_racc_get now cache key =
    let row = table_get text_keys now key cache.raccs in
    (
      row,
      if is_hit row
          then record cache { racc_hits = count_up cache.racc_hits }
          else record cache { racc_misses = count_up cache.racc_misses },
    )

unfoldable pub rt_cache_racc_put : ℕ → RtCache → Text → RaccData → RtCache
rt_cache_racc_put now cache key row = record cache {
  raccs = table_put text_keys now key row cache.raccs;
}

unfoldable pub rt_cache_pcard_get : ℕ → RtCache → ℕ → Option (List Pcard) × RtCache
rt_cache_pcard_get now cache bacc_id =
    let copy = table_get int_keys now bacc_id cache.pcards in
    (
      copy,
      if is_hit copy
          then record cache { pcard_hits = count_up cache.pcard_hits }
          else record cache { pcard_misses = count_up cache.pcard_misses },
    )

unfoldable pub rt_cache_pcard_put : ℕ → RtCache → ℕ → Option (List Pcard) → ℤ → RtCache
rt_cache_pcard_put now cache bacc_id cards count = record cache {
  pcards = put_rows now bacc_id (dup cards count) cache.pcards;
}

unfoldable pub rt_cache_tc_get : ℕ → RtCache → ℕ → Option Bool
rt_cache_tc_get now cache tariff_id = table_get int_keys now tariff_id cache.tcs

unfoldable pub rt_cache_tc_put : ℕ → RtCache → ℕ → Bool → RtCache
rt_cache_tc_put now cache tariff_id has_tc = record cache {
  tcs = table_put int_keys now tariff_id has_tc cache.tcs;
}

unfoldable pub rt_cache_fbs_get : ℕ → RtCache → ℕ → Option ℤ
rt_cache_fbs_get now cache tariff_id = table_get int_keys now tariff_id cache.fbs

unfoldable pub rt_cache_fbs_put : ℕ → RtCache → ℕ → ℤ → RtCache
rt_cache_fbs_put now cache tariff_id limit = record cache {
  fbs = table_put int_keys now tariff_id limit cache.fbs;
}

pub int_keys-IsLawful : IsLawful int_keys
int_keys-IsLawful = record { same_iff = λ a b. (λ h. ground (arith, h), λ h. ground (arith, h)) }

pub text_keys-IsLawful : IsLawful text_keys
text_keys-IsLawful = record { same_iff = text_eq_iff }

-- A key of at most 127 bytes is stored whole.
pub first_chars_lem : (n : ℕ) (s : Text) → length s ≤ n → first_chars n s ≡ s
unfolding first_chars
first_chars_lem zero [] h = refl
first_chars_lem zero (c ∷ s) h = ground (arith, h)
first_chars_lem (suc n) [] h = refl
first_chars_lem (suc n) (c ∷ s) h = ap (λ t. c ∷ t) (first_chars_lem n s (omega arith))

-- After an account is put under a key of at most 127 bytes, a get of any key answers it for that
-- key while it is at most 60 seconds old, and for every other key what it answered before.
pub rt_cache_racc_get-put :
    (now now' : ℕ) (cache : RtCache) (k j : Text) (row : RaccData)
    → length k ≤ 127
    → (rt_cache_racc_get now' (rt_cache_racc_put now cache k row) j).0 ≡ (
        if text_eq k j
        then (if rt_cache_fresh now' now then some row else none)
        else (rt_cache_racc_get now' cache j).0)
unfolding rt_cache_racc_get rt_cache_racc_put
rt_cache_racc_get-put now now' cache k j row h =
    table_get-put text_keys text_keys-IsLawful now now' k j row cache.raccs
      (first_chars_lem 127 k h)

-- Rates put with a positive row count are found while they are at most 60 seconds old, cut to that
-- count, and no get of another bill plan changes.
rt_cache_rates_get-put :
    (now now' : ℕ) (cache : RtCache) (k j : ℕ) (rates : List Rate) (n : ℕ)
    → (rt_cache_rates_get now' (rt_cache_rates_put now cache k (some rates) (pos (suc n))) j).0 ≡ (
        if k == j
        then (if rt_cache_fresh now' now then some (first_rows (suc n) rates) else none)
        else (rt_cache_rates_get now' cache j).0)
unfolding rt_cache_rates_get rt_cache_rates_put dup
rt_cache_rates_get-put now now' cache k j rates n =
    table_get-put int_keys int_keys-IsLawful now now' k j (first_rows (suc n) rates) cache.rates
      refl
