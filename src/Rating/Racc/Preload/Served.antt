-- ===== src/Rating/Racc/Preload/Served.antt =====
-- The preloaded accounts, as the query of accounts finds them.
use rate_engine.Base.{
  ◌>>=◌, ℕ, suc, ◌+◌, ◌≤◌, ◌≡◌, refl, List, [], ◌∷◌, Option, none, some, arith, if◌then◌else◌, Text,
  length, text_eq, ◌==◌, false, Gives, All, print_d, emit, text, ◌∙◌, inl, inr, Bool-cases,
}
use rate_engine.Database.Escape.{db_sql_escape}
use rate_engine.Rating.Mode
use rate_engine.Rating.Data.{Call}
use rate_engine.Rating.World.{World}
use rate_engine.Rating.Cache.Table.{rt_cache_fresh}
use rate_engine.Rating.Cache.Kinds.{
  RaccData, RtCache, rt_cache_racc_get, rt_cache_racc_put, rt_cache_racc_get-put,
}
use rate_engine.Rating.Racc.{
  RaccRows, plan_query, mode_query, new_racc, with_data, racc_key, cached_racc, rt_data_q_racc,
}
use rate_engine.Rating.Racc.Preload.{NumberRow, ask_numbers, load_numbers, rt_cache_preload_raccs}

-- The last row of a number, or what was known earlier.
unfoldable pub last_row : Text → List NumberRow → Option RaccData → Option RaccData
last_row number [] earlier = earlier
last_row number (row ∷ rows) earlier =
    last_row number rows (if text_eq row.calling_number number then some row.account else earlier)

-- The key of the number fits the entry.
abbrev pub IsShort : NumberRow → Type 0
IsShort row = length (racc_key Mode.clg row.calling_number) ≤ 127

racc_key-eq : (a b : Text) → text_eq (racc_key Mode.clg a) (racc_key Mode.clg b) ≡ text_eq a b
unfolding racc_key print_d emit text_eq
racc_key-eq a b = refl

get-put :
    (now : ℕ) (cache : RtCache) (row : NumberRow) (number : Text)
    → IsShort row
    → (rt_cache_racc_get now
        (rt_cache_racc_put now cache (racc_key Mode.clg row.calling_number) row.account)
        (racc_key Mode.clg number)).0
      ≡ (if text_eq row.calling_number number
          then some row.account
          else (rt_cache_racc_get now cache (racc_key Mode.clg number)).0)
unfolding rt_cache_fresh
get-put now cache row number h = ground (
  arith,
  racc_key-eq row.calling_number number,
  rt_cache_racc_get-put now now cache (racc_key Mode.clg row.calling_number)
      (racc_key Mode.clg number) row.account h,
)

load_numbers_lem :
    (now : ℕ) (rows : List NumberRow) (cache : RtCache) (n : ℕ) (number : Text)
    → All IsShort rows
    → (rt_cache_racc_get now (load_numbers now rows (cache, n)).0 (racc_key Mode.clg number)).0
      ≡ last_row number rows (rt_cache_racc_get now cache (racc_key Mode.clg number)).0
unfolding load_numbers last_row
load_numbers_lem now [] cache n number h = refl
load_numbers_lem now (row ∷ rows) cache n number h =
    let put = rt_cache_racc_put now cache (racc_key Mode.clg row.calling_number) row.account in
    cc (load_numbers_lem now rows put (n + 1) number h.1, get-put now cache row number h.0)

load_numbers-count :
    (now : ℕ) (rows : List NumberRow) (cache : RtCache) (n : ℕ)
    → (load_numbers now rows (cache, n)).1 ≡ n + length rows
unfolding load_numbers
load_numbers-count now [] cache n = omega arith
load_numbers-count now (row ∷ rows) cache n =
    let put = rt_cache_racc_put now cache (racc_key Mode.clg row.calling_number) row.account in
    omega (arith, load_numbers-count now rows put (n + 1))

last_row_known :
    (number : Text) (rows : List NumberRow) (earlier : Option RaccData) (row : RaccData)
    → last_row number rows none ≡ some row
    → last_row number rows earlier ≡ some row
unfolding last_row
last_row_known number [] earlier row h = ground (arith, h)
last_row_known number (r ∷ rows) earlier row h =
    elim (Bool-cases (text_eq r.calling_number number)) [
      | inl e ↦ ground (arith, e, h)
      | inr e ↦ ground (arith, e, h, last_row_known number rows earlier row)
    ]

mode_query-clg :
    (pre : Call)
    → pre.rating_mode_id ≡ Mode.clg
    → mode_query pre.rating_mode_id pre ≡ some (pre.clg, plan_query (text "calling_number"))
unfolding mode_query
mode_query-clg pre m = rw m refl

module _ {Db : Type 0} (answers : RaccRows Db) where
  cached_racc-found :
      (w : World Db) (cache : RtCache) (pre : Call) (safe : Text) (row : RaccData)
      → w.cache ≡ some cache
      → pre.rating_mode_id ≡ Mode.clg
      → db_sql_escape pre.clg 160 ≡ some safe
      → (rt_cache_racc_get answers.now cache (racc_key Mode.clg pre.clg)).0 ≡ some row
      → Gives (λ (w1, rtp). rtp ≡ with_data row (new_racc pre)) (rt_data_q_racc answers w pre)
  unfolding rt_data_q_racc cached_racc ◌>>=◌
  cached_racc-found w cache pre safe row c m e hit =
      let known : (rt_cache_racc_get answers.now cache (racc_key pre.rating_mode_id pre.clg)).0
          ≡ some row =
        rw m hit in
      rw (mode_query-clg pre m, e, c, cached_racc, known) (_, refl, refl)

  -- When the numbers of a batch are asked for, at least one of them, and the query for the server
  -- of its first record has a row of the number of a call, then the call is answered with the last
  -- such row, on whatever CDR server it was made, and the preload counts the rows.
  pub rt_data_q_racc-preloaded :
      (numbers_in : Text → ℕ → List NumberRow) (numbers : List Text) (cdr_server_id : ℕ)
      (cache counted : RtCache) (in_clause : Text) (c : ℕ) (db : Db) (pre : Call) (safe : Text)
      (row : RaccData)
      → ask_numbers answers.now numbers (cache, [], 0) ≡ some (counted, in_clause, suc c)
      → All IsShort (numbers_in in_clause cdr_server_id)
      → last_row pre.clg (numbers_in in_clause cdr_server_id) none ≡ some row
      → pre.rating_mode_id ≡ Mode.clg
      → db_sql_escape pre.clg 160 ≡ some safe
      → Gives
          (λ (preloaded, loaded).
            (loaded ≡ length (numbers_in in_clause cdr_server_id))
            × Gives
                (λ (w1, rtp). rtp ≡ with_data row (new_racc pre))
                (rt_data_q_racc answers (record { db = db; cache = some preloaded }) pre))
          (rt_cache_preload_raccs numbers_in answers.now numbers cdr_server_id cache)
  unfolding rt_cache_preload_raccs ◌>>=◌
  rt_data_q_racc-preloaded numbers_in numbers cdr_server_id cache counted in_clause c db pre safe
        row a sh l m e =
      let rows = numbers_in in_clause cdr_server_id in
      let filled = load_numbers answers.now rows (counted, 0) in
      let known = (rt_cache_racc_get answers.now counted (racc_key Mode.clg pre.clg)).0 in
      let hit =
        load_numbers_lem answers.now rows counted 0 pre.clg sh
        ∙ last_row_known pre.clg rows known row l in
      let asked : (suc c == 0) ≡ false = ground arith in
      rw (a, asked)
        (
          filled,
          refl,
          (
            omega (arith, load_numbers-count answers.now rows counted 0),
            cached_racc-found (record { db = db; cache = some filled.0 }) filled.0 pre safe row refl
                m e hit,
          ),
        )
