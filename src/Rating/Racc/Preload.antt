-- ===== src/Rating/Racc/Preload.antt =====
-- rt_cache_preload_raccs of rt_cache.c: the accounts of the calling numbers of a batch, read by one
-- query for the CDR server of its first record. The clock does not move during the preload; memory
-- never runs out.
pub mod Served
pub mod Fits
pub mod Tests
use rate_engine.Base.{
  ℕ, ◌+◌, Bool, ◌||◌, not, List, [], ◌∷◌, ◌++◌, Option, none, some, ltb, ◌==◌, if◌then◌else◌, Text,
  length, is_set, starts_with, ◌>>=◌,
}
use rate_engine.Database.Escape.{db_sql_escape, quote}
use rate_engine.Rating.Mode
use rate_engine.Rating.Cache.Kinds.{RaccData, RtCache, rt_cache_racc_get, rt_cache_racc_put}
use rate_engine.Rating.Racc.{racc_key}

-- A row of the query: the number, and the columns that are kept.
pub record NumberRow : Type 0 where
  pub calling_number : Text
  pub account : RaccData

-- CLG_LEN.
abbrev pub clg_len : ℕ
clg_len = 80

-- `strstr(s,needle) != NULL`.
unfoldable pub contains : Text → Text → Bool
contains [] needle = starts_with [] needle
contains (c ∷ s) needle = starts_with (c ∷ s) needle || contains s needle

-- The quoted number, in a buffer of CLG_LEN + 4 bytes; no result when the escaped text or the
-- needle does not fit, where the code goes on with memory that is not its own.
unfoldable pub needle_of : Text → Option Text
needle_of number = db_sql_escape number (clg_len + clg_len) >>= λ safe.
    let needle = quote ∷ safe ++ quote ∷ [] in
    if ltb (length needle) (clg_len + 4) then some needle else none

-- The cache, the IN clause and its count `c`.
abbrev pub Asked : Type 0
Asked = RtCache × Text × ℕ

unfoldable pub add_needle : Text → Asked → Asked
add_needle needle (cache, in_clause, c) =
    if contains in_clause needle
    then (cache, in_clause, c)
    else (cache, (if ltb 0 c then in_clause ++ b',' ∷ needle else in_clause ++ needle), c + 1)

-- A number that is cached already is not asked for; neither is one without text.
unfoldable pub ask_missing : Option RaccData → Text → Asked → Option Asked
ask_missing (some seen) number s = some s
ask_missing none number s = needle_of number >>= λ needle. some (add_needle needle s)

unfoldable pub ask_number : ℕ → Text → Asked → Option Asked
ask_number now number (cache, in_clause, c) =
    let (seen, counted) = rt_cache_racc_get now cache (racc_key Mode.clg number) in
    if is_set number
    then ask_missing seen number (counted, in_clause, c)
    else some (cache, in_clause, c)

unfoldable pub ask_numbers : ℕ → List Text → Asked → Option Asked
ask_numbers now [] s = some s
ask_numbers now (number ∷ numbers) s = do s1 ← ask_number now number s; ask_numbers now numbers s1

-- The loop over the rows, with `loaded`.
unfoldable pub load_numbers : ℕ → List NumberRow → RtCache × ℕ → RtCache × ℕ
load_numbers now [] s = s
load_numbers now (row ∷ rows) (cache, loaded) =
    load_numbers now rows
      (rt_cache_racc_put now cache (racc_key Mode.clg row.calling_number) row.account, loaded + 1)

-- `numbers_in` is the query, by the IN clause and the CDR server.
unfoldable pub rt_cache_preload_raccs :
    (Text → ℕ → List NumberRow) → ℕ → List Text → ℕ → RtCache → Option (RtCache × ℕ)
rt_cache_preload_raccs numbers_in now numbers cdr_server_id cache = do
  (counted, in_clause, c) ← ask_numbers now numbers (cache, [], 0)
  some (
      if c == 0
      then (counted, 0)
      else load_numbers now (numbers_in in_clause cdr_server_id) (counted, 0))
