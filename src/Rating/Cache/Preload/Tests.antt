-- ===== src/Rating/Cache/Preload/Tests.antt =====
-- The theorem on the preloaded cards, at two accounts.
use rate_engine.Base.{◌≡◌, refl, List, [], ◌∷◌, some, arith, ℕ, text, pos}
use rate_engine.Rating.Data.{Pcard}
use rate_engine.Rating.Cache.Kinds.{
  RaccData, RtCache, rt_cache_init, rt_cache_racc_put, rt_cache_pcard_get,
}
use rate_engine.Rating.Cache.Table.{
  table_put, chain_put, chain_has, chain_replace, hash_str, hash_from, rt_cache_fresh, first_chars,
}
use rate_engine.Rating.Cache.Preload.{
  PcardRow, bacc_ids, bucket_ids, chain_ids, add_id, has_id, rt_cache_preload_pcards,
}
use rate_engine.Rating.Cache.Preload.Grouped.{cards_of, found, rt_cache_preload_pcards-cards_of}

abbrev account : ℕ → RaccData
account id = record {
  bacc_id = id;
  bplan_id = 5;
  bplan_start_period = 0;
  bplan_end_period = 0;
  billing_day = 1;
  round_mode_id = 1;
  day_of_payment = 0;
}

-- Account 7 has two numbers.
abbrev two_accounts : RtCache
two_accounts =
    rt_cache_racc_put 1000
      (rt_cache_racc_put 1000 (rt_cache_racc_put 1000 rt_cache_init (text "1:200") (account 3))
        (text "1:300") (account 7))
      (text "1:301") (account 7)

abbrev card : ℕ → Pcard
card id = record {
  id = id;
  amount = pos 50;
  start = text "2024-01-01";
  end = text "2024-01-31";
  status = 1;
  type = 1;
  call_number = pos 0;
}

abbrev pcards_in : List ℕ → List PcardRow
pcards_in ids =
    record { card = card 11; billing_account_id = 3 }
    ∷ record { card = card 13; billing_account_id = 7 }
    ∷ record { card = card 12; billing_account_id = 7 }
    ∷ []

ids_test : bacc_ids two_accounts ≡ 7 ∷ 3 ∷ []
unfolding bacc_ids bucket_ids chain_ids add_id has_id rt_cache_racc_put table_put chain_put
    chain_has chain_replace hash_str hash_from first_chars
ids_test = refl

rt_cache_preload_pcards-cards_of_example :
    (rt_cache_pcard_get 1010 (rt_cache_preload_pcards pcards_in 1000 two_accounts).0 7).0
    ≡ some (card 13 ∷ card 12 ∷ [])
unfolding cards_of found rt_cache_fresh rt_cache_pcard_get
rt_cache_preload_pcards-cards_of_example =
    rt_cache_preload_pcards-cards_of pcards_in 1000 1010 7 two_accounts
      (omega arith, (omega arith, (omega arith, tt))) (ground (arith, ids_test))
