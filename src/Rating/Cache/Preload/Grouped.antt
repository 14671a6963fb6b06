-- ===== src/Rating/Cache/Preload/Grouped.antt =====
-- What the preloaded cards are found as: the groups of the loop against a filter of the rows.
use rate_engine.Base.{
  ℕ, suc, ◌≤◌, ◌<◌, ◌≡◌, refl, ap, List, [], ◌∷◌, ◌++◌, Option, none, some, arith, ◌==◌,
  if◌then◌else◌, length,
}
use rate_engine.Rating.Data.{Pcard}
use rate_engine.Rating.Cache.Table.{rt_cache_fresh}
use rate_engine.Rating.Cache.Laws.{table_get-put}
use rate_engine.Rating.Cache.Kinds.{
  RtCache, int_keys, int_keys-IsLawful, first_rows, dup, rt_cache_pcard_get, rt_cache_pcard_put,
}
use rate_engine.Rating.Cache.Preload.{
  PcardRow, flush, load_groups, load_rows, rt_cache_preload_pcards, bacc_ids,
}

-- The cards of an account among the rows.
unfoldable pub cards_of : ℕ → List PcardRow → List Pcard
cards_of b [] = []
cards_of b (row ∷ rows) =
    let later = cards_of b rows in if row.billing_account_id == b then row.card ∷ later else later

-- What a get at `now'` makes of cards put at `now`, where no cards mean no put.
unfoldable pub found : ℕ → ℕ → List Pcard → Option (List Pcard) → Option (List Pcard)
found now now' [] earlier = earlier
found now now' (c ∷ cs) earlier = if rt_cache_fresh now' now then some (c ∷ cs) else none

-- The rows come by growing account, none below `low`.
abbrev pub IsOrdered : ℕ → List PcardRow → Type 0
IsOrdered low [] = Unit
IsOrdered low (row ∷ rows) = (low ≤ row.billing_account_id) × IsOrdered row.billing_account_id rows

cards_of-none :
    (b low : ℕ) (rows : List PcardRow) → b < low → IsOrdered low rows → cards_of b rows ≡ []
unfolding cards_of
cards_of-none b low [] h o = refl
cards_of-none b low (row ∷ rows) h o =
    ground (arith, h, o.0, cards_of-none b row.billing_account_id rows (omega (arith, h, o.0)) o.1)

all_rows {ℓ} : {A : Type ℓ} (xs : List A) → first_rows (length xs) xs ≡ xs
unfolding first_rows
all_rows [] = refl
all_rows (x ∷ xs) = ap (λ t. x ∷ t) (all_rows xs)

append_nil {ℓ} : {A : Type ℓ} (xs : List A) → xs ++ [] ≡ xs
append_nil [] = refl
append_nil (x ∷ xs) = ap (λ t. x ∷ t) (append_nil xs)

append_one {ℓ} :
    {A : Type ℓ} (xs : List A) (x : A) (ys : List A) → (xs ++ x ∷ []) ++ ys ≡ xs ++ x ∷ ys
append_one [] x ys = refl
append_one (z ∷ zs) x ys = ap (λ t. z ∷ t) (append_one zs x ys)

IsOrdered-below :
    (low high : ℕ) (rows : List PcardRow) → low ≤ high → IsOrdered high rows → IsOrdered low rows
IsOrdered-below low high [] h o = o
IsOrdered-below low high (row ∷ rows) h o = (omega (arith, h, o.0), o.1)

get-flush :
    (now now' cur b : ℕ) (c : Pcard) (cs : List Pcard) (s : RtCache × ℕ)
    → (rt_cache_pcard_get now' (flush now cur (c ∷ cs) s).0 b).0
      ≡ (if cur == b then found now now' (c ∷ cs) none else (rt_cache_pcard_get now' s.0 b).0)
unfolding rt_cache_pcard_get rt_cache_pcard_put flush dup found
get-flush now now' cur b c cs s = ground (
  arith,
  table_get-put int_keys int_keys-IsLawful now now' cur b (first_rows (suc (length cs)) (c ∷ cs))
      s.0.pcards refl,
  all_rows (c ∷ cs),
)

load_groups_lem :
    (now now' cur b : ℕ) (c : Pcard) (cs : List Pcard) (rows : List PcardRow) (s : RtCache × ℕ)
    → IsOrdered cur rows
    → (rt_cache_pcard_get now' (load_groups now cur (c ∷ cs) rows s).0 b).0 ≡ (
        if cur == b
        then found now now' ((c ∷ cs) ++ cards_of b rows) none
        else found now now' (cards_of b rows) (rt_cache_pcard_get now' s.0 b).0)
unfolding load_groups cards_of found
load_groups_lem now now' cur b c cs [] s o =
    ground (arith, get-flush now now' cur b c cs s, append_nil cs)
load_groups_lem now now' cur b c cs (row ∷ rows) s o = ground (
  arith,
  o.0,
  append_nil cs,
  append_one cs row.card (cards_of b rows),
  load_groups_lem now now' cur b c (cs ++ row.card ∷ []) rows s
      (IsOrdered-below cur row.billing_account_id rows o.0 o.1),
  load_groups_lem now now' row.billing_account_id b row.card [] rows (flush now cur (c ∷ cs) s) o.1,
  get-flush now now' cur b c cs s,
  λ (lt : b < row.billing_account_id). cards_of-none b row.billing_account_id rows lt o.1,
)

-- The loop over all the rows, whatever their number.
load_rows_lem :
    (now now' b : ℕ) (rows : List PcardRow) (cache : RtCache)
    → IsOrdered 0 rows
    → (rt_cache_pcard_get now' (load_rows now rows cache).0 b).0
      ≡ found now now' (cards_of b rows) (rt_cache_pcard_get now' cache b).0
unfolding load_rows cards_of found
load_rows_lem now now' b [] cache o = refl
load_rows_lem now now' b (row ∷ rows) cache o =
    ground
      (arith, load_groups_lem now now' row.billing_account_id b row.card [] rows (cache, 0) o.1)

-- When the query answers its rows by growing account, and some account is in the cache, the preload
-- leaves for each account all of its cards among the rows, in their order, to be found for 60
-- seconds; an account without a row is answered as before.
pub rt_cache_preload_pcards-cards_of :
    (pcards_in : List ℕ → List PcardRow) (now now' b : ℕ) (cache : RtCache)
    → IsOrdered 0 (pcards_in (bacc_ids cache))
    → 0 < length (bacc_ids cache)
    → (rt_cache_pcard_get now' (rt_cache_preload_pcards pcards_in now cache).0 b).0
      ≡ found now now' (cards_of b (pcards_in (bacc_ids cache))) (rt_cache_pcard_get now' cache b).0
unfolding rt_cache_preload_pcards
rt_cache_preload_pcards-cards_of pcards_in now now' b cache o h =
    ground (arith, h, load_rows_lem now now' b (pcards_in (bacc_ids cache)) cache o)
