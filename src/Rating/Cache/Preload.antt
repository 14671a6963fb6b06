-- ===== src/Rating/Cache/Preload.antt =====
-- rt_cache_preload_pcards of rt_cache.c: the payment cards of all accounts of the cache, read by
-- one query before a batch. The clock does not move during the preload; memory never runs out.
pub mod Grouped
pub mod Tests
use rate_engine.Base.{
  ℕ, zero, suc, ◌+◌, Bool, not, ◌&&◌, List, [], ◌∷◌, ◌++◌, ltb, ◌==◌, if◌then◌else◌, pos, Text,
  some, length,
}
use rate_engine.Rating.Data.{Pcard}
use rate_engine.Rating.Cache.Table.{Entry, Chains, bucket_count}
use rate_engine.Rating.Cache.Kinds.{RaccData, RtCache, rt_cache_pcard_put}

-- A row of the query: the columns of a card, and its account.
pub record PcardRow : Type 0 where
  pub card : Pcard
  pub billing_account_id : ℕ

-- The size of `bacc_ids`.
abbrev pub max_baccs : ℕ
max_baccs = bucket_count + bucket_count + bucket_count + bucket_count

unfoldable pub has_id : ℕ → List ℕ → Bool
has_id id [] = Bool.false
has_id id (x ∷ xs) = let later = has_id id xs in if x == id then Bool.true else later

-- One entry of the account cache.
unfoldable pub add_id : ℕ → List ℕ → List ℕ
add_id id ids =
    if ltb 0 id && not (has_id id ids) && ltb (length ids) max_baccs then ids ++ id ∷ [] else ids

unfoldable pub chain_ids : List (Entry Text RaccData) → List ℕ → List ℕ
chain_ids [] ids = ids
chain_ids (e ∷ es) ids = chain_ids es (add_id e.value.bacc_id ids)

-- The accounts of `n` buckets, from bucket `h` on.
unfoldable pub bucket_ids : ℕ → ℕ → Chains Text RaccData → List ℕ → List ℕ
bucket_ids zero h raccs ids = ids
bucket_ids (suc n) h raccs ids = bucket_ids n (h + 1) raccs (chain_ids (raccs h) ids)

unfoldable pub bacc_ids : RtCache → List ℕ
bacc_ids cache = bucket_ids bucket_count 0 cache.raccs []

-- The cards of one account, put in the cache, and `loaded`.
unfoldable pub flush : ℕ → ℕ → List Pcard → RtCache × ℕ → RtCache × ℕ
flush now cur_bacc cards (cache, loaded) =
    (rt_cache_pcard_put now cache cur_bacc (some cards) (pos (length cards)), loaded + 1)

-- The loop over the rows, with `cur_bacc` and the cards from `start` on: another account flushes
-- them, and so does the end.
unfoldable pub load_groups : ℕ → ℕ → List Pcard → List PcardRow → RtCache × ℕ → RtCache × ℕ
load_groups now cur_bacc cards [] s = flush now cur_bacc cards s
load_groups now cur_bacc cards (row ∷ rows) s =
    let same = load_groups now cur_bacc (cards ++ row.card ∷ []) rows s in
    let other =
      load_groups now row.billing_account_id (row.card ∷ []) rows (flush now cur_bacc cards s) in
    if row.billing_account_id == cur_bacc then same else other

-- No row, no group.
unfoldable pub load_rows : ℕ → List PcardRow → RtCache → RtCache × ℕ
load_rows now [] cache = (cache, 0)
load_rows now (row ∷ rows) cache =
    load_groups now row.billing_account_id (row.card ∷ []) rows (cache, 0)

-- `pcards_in` is the query: the rows of the active cards of these accounts.
unfoldable pub rt_cache_preload_pcards : (List ℕ → List PcardRow) → ℕ → RtCache → RtCache × ℕ
rt_cache_preload_pcards pcards_in now cache =
    if length (bacc_ids cache) == 0
    then (cache, 0)
    else load_rows now (pcards_in (bacc_ids cache)) cache
