-- ===== src/Rating/Racc/Servers.antt =====
-- One cache for the accounts of all CDR servers.
use rate_engine.Base.{
  sym, ◌>>=◌, ◌≤◌, ◌≡◌, refl, true, none, some, arith, ltb, Text, length, Gives, text_eq_refl,
}
use rate_engine.Database.Escape.{db_sql_escape}
use rate_engine.Rating.Data.{Call, Racc}
use rate_engine.Rating.World.{World}
use rate_engine.Rating.Cache.Table.{rt_cache_fresh}
use rate_engine.Rating.Cache.Kinds.{
  RtCache, rt_cache_racc_get, rt_cache_racc_put, rt_cache_racc_get-put,
}
use rate_engine.Rating.Racc.{
  RaccRows, Query, mode_query, new_racc, with_data, data_of, read_rows, racc_key, racc_rows,
  store_racc, cached_racc, rt_data_q_racc,
}

module _ {Db : Type 0} (answers : RaccRows Db) where
  -- A get at the time of the put.
  racc_get-put :
      (cache : RtCache) (key : Text) (rtp : Racc)
      → length key ≤ 127
      → (rt_cache_racc_get answers.now
          (rt_cache_racc_put answers.now cache key (data_of rtp))
          key).0
        ≡ some (data_of rtp)
  unfolding rt_cache_fresh
  racc_get-put cache key rtp h = ground (
    arith,
    rt_cache_racc_get-put answers.now answers.now cache key key (data_of rtp) h,
    text_eq_refl key,
  )

  cached_racc-miss :
      (w : World Db) (cache : RtCache) (key : Text) (fresh rtp : Racc)
      → (rt_cache_racc_get answers.now cache key).0 ≡ none
      → ltb 0 fresh.bacc.id ≡ true
      → cached_racc answers w cache key fresh rtp ≡ (
        record w {
          cache = some (
              rt_cache_racc_put answers.now
                (rt_cache_racc_get answers.now cache key).1
                key
                (data_of fresh));
        },
        fresh,
      )
  unfolding cached_racc store_racc
  cached_racc-miss w cache key fresh rtp miss found = rw (cached_racc, miss, store_racc, found) refl

  cached_racc-hit :
      (w : World Db) (cache : RtCache) (key : Text) (fresh rtp old : Racc)
      → length key ≤ 127
      → (cached_racc answers w
          (rt_cache_racc_put answers.now cache key (data_of old))
          key
          fresh
          rtp).1
        ≡ with_data (data_of old) rtp
  unfolding cached_racc
  cached_racc-hit w cache key fresh rtp old h = rw (cached_racc, racc_get-put cache key old h) refl

  -- After an account was found for a call and stored, every call with the same mode and the same
  -- value of its field is answered with that account and plan, while the time does not move: also
  -- on another database, of another CDR server, and between numbers of another nature.
  pub rt_data_q_racc-shared :
      (w : World Db) (cache : RtCache) (pre pre' : Call) (cond : Text) (query query' : Query)
      (safe : Text) (db : Db)
      → w.cache ≡ some cache
      → mode_query pre.rating_mode_id pre ≡ some (cond, query)
      → mode_query pre'.rating_mode_id pre' ≡ some (cond, query')
      → pre.rating_mode_id ≡ pre'.rating_mode_id
      → db_sql_escape cond 160 ≡ some safe
      → length (racc_key pre.rating_mode_id cond) ≤ 127
      → (rt_cache_racc_get answers.now cache (racc_key pre.rating_mode_id cond)).0 ≡ none
      → let fresh = read_rows (racc_rows answers w.db query safe pre) (new_racc pre) in
        ltb 0 fresh.bacc.id ≡ true
        → Gives
            (λ (w1, rtp).
              (rtp ≡ fresh)
              × Gives
                  (λ (w2, rtp'). rtp' ≡ with_data (data_of fresh) (new_racc pre'))
                  (rt_data_q_racc answers (record w1 { db = db }) pre'))
            (rt_data_q_racc answers w pre)
  unfolding rt_data_q_racc ◌>>=◌
  rt_data_q_racc-shared w cache pre pre' cond query query' safe db c m m' same e k miss found =
      let key = racc_key pre.rating_mode_id cond in
      let fresh = read_rows (racc_rows answers w.db query safe pre) (new_racc pre) in
      let first = cached_racc-miss w cache key fresh (new_racc pre) miss found in
      rw (m, e, c, first)
        (_, refl, (refl, rw (m', e, sym same) (_, refl, cached_racc-hit _ _ key _ _ fresh k)))
