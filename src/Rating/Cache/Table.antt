-- ===== src/Rating/Cache/Table.antt =====
-- The chained table behind the six caches.
use rate_engine.Base.{
  ℕ, zero, suc, ◌+◌, ◌*◌, ◌%◌, ◌^◌, Bool, List, [], ◌∷◌, Option, none, some, leb, ◌==◌,
  if◌then◌else◌, Text,
}

-- RT_CACHE_BUCKETS and RT_CACHE_TTL.
abbrev pub bucket_count : ℕ
bucket_count = 256

abbrev pub ttl : ℕ
ttl = 60

-- How a kind of key is hashed, compared and stored.
pub record Keys {ℓ} (K : Type ℓ) : Type ℓ where
  pub hash : K → ℕ
  pub same : K → K → Bool
  pub stored : K → K

pub record Entry {ℓ κ} (K : Type ℓ) (V : Type κ) : Type (ℓ ⊔ κ) where
  pub key : K
  pub ts : ℕ
  pub value : V

-- The chains, by bucket.
abbrev pub Chains {ℓ κ} : Type ℓ → Type κ → Type (ℓ ⊔ κ)
Chains K V = ℕ → List (Entry K V)

-- `rt_cache_hash_int`.
unfoldable pub hash_int : ℕ → ℕ
hash_int key = key % bucket_count

-- `rt_cache_hash_str`: h * 33 + c on 32 bits.
unfoldable pub hash_from : ℕ → Text → ℕ
hash_from h [] = h
hash_from h (c ∷ s) = hash_from ((h * 32 + h + c) % 2 ^ 32) s

unfoldable pub hash_str : Text → ℕ
unfolding hash_from
hash_str key = hash_from 5381 key % bucket_count

-- `strncpy(e->key,key,127)` into a zeroed field.
unfoldable pub first_chars : ℕ → Text → Text
first_chars zero s = []
first_chars (suc n) [] = []
first_chars (suc n) (c ∷ s) = c ∷ first_chars n s

-- `rt_cache_fresh`.
unfoldable pub rt_cache_fresh : ℕ → ℕ → Bool
rt_cache_fresh now ts = leb now (ts + ttl)

module _ {ℓ κ} {K : Type ℓ} {V : Type κ} (keys : Keys K) where
  -- The first entry of the key decides, fresh or not.
  unfoldable pub chain_get : ℕ → K → List (Entry K V) → Option V
  unfolding rt_cache_fresh
  chain_get now k [] = none
  chain_get now k (e ∷ es) =
      let later = chain_get now k es in
      if keys.same e.key k then (if rt_cache_fresh now e.ts then some e.value else none) else later

  unfoldable pub chain_has : K → List (Entry K V) → Bool
  chain_has k [] = Bool.false
  chain_has k (e ∷ es) =
      let later = chain_has k es in if keys.same e.key k then Bool.true else later

  -- A value is replaced in place, with a new time.
  unfoldable pub chain_replace : ℕ → K → V → List (Entry K V) → List (Entry K V)
  chain_replace now k v [] = []
  chain_replace now k v (e ∷ es) =
      let later = e ∷ chain_replace now k v es in
      if keys.same e.key k then record e { ts = now; value = v } ∷ es else later

  -- A new key goes to the front.
  unfoldable pub chain_put : ℕ → K → V → List (Entry K V) → List (Entry K V)
  chain_put now k v es =
      if chain_has k es
      then chain_replace now k v es
      else record { key = keys.stored k; ts = now; value = v } ∷ es

  unfoldable pub table_get : ℕ → K → Chains K V → Option V
  table_get now k t = chain_get now k (t (keys.hash k))

  unfoldable pub table_put : ℕ → K → V → Chains K V → Chains K V
  table_put now k v t h = if h == keys.hash k then chain_put now k v (t (keys.hash k)) else t h
