-- ===== src/Rating/Racc/Preload/Tests.antt =====
-- The theorems on the preloaded accounts, at a batch of three numbers.
use rate_engine.Base.{
  print_d, emit, ℕ, ◌+◌, ◌*◌, ◌≤◌, ◌>>=◌, ◌≡◌, refl, [], ◌∷◌, some, arith, text, Text, Gives, List,
  length, text_eq, starts_with,
}
use rate_engine.Database.Escape.{db_sql_escape, escape_loop}
use rate_engine.Rating.Data.{Call}
use rate_engine.Rating.Cache.Kinds.{RtCache, rt_cache_init, rt_cache_racc_get}
use rate_engine.Rating.Cache.Table.{table_get, chain_get, hash_str, hash_from}
use rate_engine.Rating.Racc.{with_data, new_racc, rt_data_q_racc, racc_key}
use rate_engine.Rating.Racc.Preload.{
  NumberRow, contains, needle_of, add_needle, ask_missing, ask_number, ask_numbers,
  rt_cache_preload_raccs,
}
use rate_engine.Rating.Racc.Preload.Served.{last_row, rt_data_q_racc-preloaded}
use rate_engine.Rating.Racc.Preload.Fits.{ask_numbers-fit}
use rate_engine.Rating.Racc.Tests.{account_3, answers, other_call}

abbrev batch : List Text
batch = text "200" ∷ text "201" ∷ text "200" ∷ []

abbrev in_batch : Text
in_batch = text "'200','201'"

-- The second number has no account on the server.
abbrev numbers_in : Text → ℕ → List NumberRow
numbers_in in_clause server = record { calling_number = text "200"; account = account_3 } ∷ []

abbrev counted : RtCache
counted = record rt_cache_init { racc_misses = 3 }

clause_test : ask_numbers 1000 batch (rt_cache_init, [], 0) ≡ some (counted, in_batch, 2)
unfolding ask_numbers ask_number ask_missing needle_of add_needle contains starts_with db_sql_escape
    escape_loop ◌>>=◌ racc_key print_d emit rt_cache_racc_get table_get chain_get hash_str hash_from
clause_test = refl

abbrev preloaded_call : Call
preloaded_call = record other_call { rating_mode_id = 1 }

rt_data_q_racc-preloaded_example :
    Gives
      (λ (preloaded, loaded).
        (loaded ≡ 1)
        × Gives
            (λ (w1, rtp). rtp ≡ with_data account_3 (new_racc preloaded_call))
            (rt_data_q_racc answers (record { db = []; cache = some preloaded }) preloaded_call))
      (rt_cache_preload_raccs numbers_in 1000 batch 0 rt_cache_init)
unfolding last_row text_eq db_sql_escape escape_loop ◌>>=◌ racc_key print_d emit
rt_data_q_racc-preloaded_example =
    rt_data_q_racc-preloaded answers numbers_in batch 0 rt_cache_init counted in_batch 1 []
      preloaded_call (text "200") account_3 clause_test (ground arith, tt) refl refl refl

ask_numbers-fit_example :
    Gives
      (λ (cache, in_clause, c). (c ≤ 3) × (length in_clause + 1 ≤ 3 * 84))
      (ask_numbers 1000 batch (rt_cache_init, [], 0))
ask_numbers-fit_example =
    ask_numbers-fit 1000 batch rt_cache_init (omega arith, (omega arith, (omega arith, tt)))
      (omega arith)
