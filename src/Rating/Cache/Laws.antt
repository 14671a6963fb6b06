-- ===== src/Rating/Cache/Laws.antt =====
-- The chained table against the list of the puts so far.
use rate_engine.Base.{
  ℕ, ◌≡◌, ◌↔◌, refl, true, List, [], ◌∷◌, Option, none, some, arith, if◌then◌else◌,
}
use rate_engine.Rating.Cache.Table.{
  Keys, Entry, Chains, rt_cache_fresh, chain_get, chain_has, chain_replace, chain_put, table_get,
  table_put,
}

-- Keys are compared by equality.
pub record IsLawful {ℓ} {K : Type ℓ} (keys : Keys K) : Type ℓ where
  pub same_iff : (a b : K) → (keys.same a b ≡ true) ↔ (a ≡ b)

-- The puts so far, the last one first: time, key and value.
abbrev pub History {ℓ κ} : Type ℓ → Type κ → Type (ℓ ⊔ κ)
History K V = List (ℕ × K × V)

-- The keys were stored whole.
abbrev pub StoredWhole {ℓ κ} : {K : Type ℓ} {V : Type κ} → Keys K → History K V → Type ℓ
StoredWhole keys [] = Unit
StoredWhole keys ((ts, k, v) ∷ puts) = (keys.stored k ≡ k) × StoredWhole keys puts

empty_get {ℓ κ} :
    {K : Type ℓ} {V : Type κ} (keys : Keys K) (now : ℕ) (j : K)
    → table_get {V = V} keys now j (λ h. []) ≡ none
unfolding table_get chain_get
empty_get keys now j = refl

module _ {ℓ κ} {K : Type ℓ} {V : Type κ} (keys : Keys K) (lawful : IsLawful keys) where
  -- What a get at `now` makes of a value put at `ts`.
  abbrev pub aged : ℕ → ℕ → V → Option V
  aged now ts v = if rt_cache_fresh now ts then some v else none

  chain_get-replace :
      (now now' : ℕ) (k j : K) (v : V) (es : List (Entry K V))
      → chain_has keys k es ≡ true
      → chain_get keys now' j (chain_replace keys now k v es)
        ≡ (if keys.same k j then aged now' now v else chain_get keys now' j es)
  unfolding chain_get chain_has chain_replace
  chain_get-replace now now' k j v [] h = cc
  chain_get-replace now now' k j v (e ∷ es) h = ground (
    arith,
    lawful.same_iff e.key k,
    lawful.same_iff e.key j,
    lawful.same_iff k j,
    chain_get-replace now now' k j v es,
  )

  chain_get-put :
      (now now' : ℕ) (k j : K) (v : V) (es : List (Entry K V))
      → keys.stored k ≡ k
      → chain_get keys now' j (chain_put keys now k v es)
        ≡ (if keys.same k j then aged now' now v else chain_get keys now' j es)
  unfolding chain_get chain_put
  chain_get-put now now' k j v es s = ground (arith, s, chain_get-replace now now' k j v es)

  -- A get finds the value put last under its key while that is at most 60 seconds old, whatever
  -- other keys share the bucket.
  pub table_get-put :
      (now now' : ℕ) (k j : K) (v : V) (t : Chains K V)
      → keys.stored k ≡ k
      → table_get keys now' j (table_put keys now k v t)
        ≡ (if keys.same k j then aged now' now v else table_get keys now' j t)
  unfolding table_get table_put
  table_get-put now now' k j v t s =
      ground (arith, lawful.same_iff k j, chain_get-put now now' k j v (t (keys.hash k)) s)

  unfoldable pub table_of : History K V → Chains K V
  table_of [] = λ h. []
  table_of ((ts, k, v) ∷ puts) = table_put keys ts k v (table_of puts)

  -- The last put of the key, if it is fresh.
  unfoldable pub last_put : ℕ → K → History K V → Option V
  last_put now j [] = none
  last_put now j ((ts, k, v) ∷ puts) =
      let earlier = last_put now j puts in if keys.same k j then aged now ts v else earlier

  -- After any puts of keys that were stored whole, a get answers with the last put of its key if
  -- that is at most 60 seconds old, and with nothing otherwise.
  pub table_get-last_put :
      (puts : History K V) (now : ℕ) (j : K)
      → StoredWhole keys puts
      → table_get keys now j (table_of puts) ≡ last_put now j puts
  unfolding table_of last_put
  table_get-last_put [] now j s = empty_get keys now j
  table_get-last_put ((ts, k, v) ∷ puts) now j s =
      ground
        (arith, table_get-put ts now k j v (table_of puts) s.0, table_get-last_put puts now j s.1)
