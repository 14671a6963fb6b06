-- ===== src/Rating/Racc/Preload/Fits.antt =====
-- The room of the buffers that the numbers of a batch are quoted in.
use rate_engine.Base.{
  ◌>>=◌, >>=-Gives, ℕ, suc, ◌+◌, ◌*◌, ◌≤◌, ◌<◌, ◌≡◌, refl, List, [], ◌∷◌, ◌++◌, Option, none, some,
  arith, Text, length, length-append, Gives, All, is_set, Bool-cases, inl, inr, if◌then◌else◌, ltb,
  leb, ◌-◌, true, false,
}
use rate_engine.Database.Escape.{db_sql_escape, escape_loop, escape_char, is_doubled, quote}
use rate_engine.Rating.Mode
use rate_engine.Rating.Cache.Kinds.{RaccData, RtCache, rt_cache_racc_get}
use rate_engine.Rating.Racc.{racc_key}
use rate_engine.Rating.Racc.Preload.{
  add_needle, Asked, needle_of, ask_missing, ask_number, ask_numbers,
}

escape_char-length :
    (c : ℕ) (txt : Text) (n : ℕ) → length txt ≤ 2 * n → length (escape_char c txt) ≤ 2 * suc n
escape_char-length c txt n h = ground (arith, h)

-- A text of half the room is escaped, to at most twice its length.
escape_loop-fits :
    (src : Text) (dst_size j : ℕ)
    → j + 2 * length src < dst_size
    → Gives (λ dst. length dst ≤ 2 * length src) (escape_loop dst_size j src)
unfolding escape_loop ◌>>=◌
escape_loop-fits [] dst_size j h = ([], refl, omega arith)
escape_loop-fits (c ∷ src) dst_size j h =
    let k = if is_doubled c then j + 2 else j + 1 in
    let room : k + 2 * length src < dst_size = ground (arith, h) in
    let stays : leb (dst_size - 2) j ≡ false = ground (arith, h) in
    let (dst, e, short) = escape_loop-fits src dst_size k room in
    rw (stays, e) (escape_char c dst, refl, escape_char-length c dst (length src) short)

-- A quoted number of 40 characters fits, with its end.
needle_of-fits :
    (number : Text) → length number ≤ 40 → Gives (λ needle. length needle < 84) (needle_of number)
unfolding needle_of db_sql_escape ◌>>=◌
needle_of-fits number h =
    let (safe, e, short) = escape_loop-fits number 160 0 (omega (arith, h)) in
    let few : length (quote ∷ safe ++ quote ∷ []) < 84 =
      omega (arith, h, short, length-append safe (quote ∷ [])) in
    let fits : ltb (length (quote ∷ safe ++ quote ∷ [])) 84 ≡ true = ground (arith, few) in
    rw (e, fits) (_, refl, few)

-- At most `k` needles, within their room.
abbrev Fits : ℕ → Asked → Type 0
Fits k (cache, in_clause, c) = (c ≤ k) × (length in_clause ≤ 84 * c - 1)

add_needle-Fits :
    (k : ℕ) (needle : Text) (s : Asked)
    → length needle < 84
    → Fits k s
    → Fits (k + 1) (add_needle needle s)
unfolding add_needle
add_needle-Fits k needle (cache, in_clause, c) h f =
    ground
      (arith, h, f.0, f.1, length-append in_clause needle, length-append in_clause (b',' ∷ needle))

ask_missing-Fits :
    (k : ℕ) (number : Text) (seen : Option RaccData) (s : Asked)
    → length number ≤ 40
    → Fits k s
    → Gives (Fits (k + 1)) (ask_missing seen number s)
unfolding ask_missing
ask_missing-Fits k number (some d) s h f = (s, refl, (omega (arith, f.0), f.1))
ask_missing-Fits k number none s h f =
    >>=-Gives (needle_of number) (λ needle. some (add_needle needle s)) (needle_of-fits number h)
      (λ needle few. (add_needle needle s, refl, add_needle-Fits k needle s few f))

ask_number-Fits :
    (now k : ℕ) (number : Text) (s : Asked)
    → length number ≤ 40
    → Fits k s
    → Gives (Fits (k + 1)) (ask_number now number s)
unfolding ask_number
ask_number-Fits now k number (cache, in_clause, c) h f =
    let got = rt_cache_racc_get now cache (racc_key Mode.clg number) in
    elim (Bool-cases (is_set number)) [
      | inl e ↦ rw e (ask_missing-Fits k number got.0 (got.1, in_clause, c) h f)
      | inr e ↦ rw e ((cache, in_clause, c), refl, (omega (arith, f.0), f.1))
    ]

ask_numbers-Fits :
    (now k : ℕ) (numbers : List Text) (s : Asked)
    → All (λ number. length number ≤ 40) numbers
    → Fits k s
    → Gives (Fits (k + length numbers)) (ask_numbers now numbers s)
unfolding ask_numbers
ask_numbers-Fits now k [] s h f = (s, refl, (omega (arith, f.0), f.1))
ask_numbers-Fits now k (number ∷ numbers) s h f =
    >>=-Gives (ask_number now number s) (ask_numbers now numbers)
      (ask_number-Fits now k number s h.0 f)
      (λ s1 f1.
        let (s2, e, f2) = ask_numbers-Fits now (k + 1) numbers s1 h.1 f1 in
        (s2, e, (omega (arith, f2.0), f2.1)))

-- When no number of the batch has more than 40 characters, the preload ends with a result, with as
-- many needles as numbers at most, and its IN clause and the NUL fit the `count * (CLG_LEN + 4)`
-- bytes.
pub ask_numbers-fit :
    (now : ℕ) (numbers : List Text) (cache : RtCache)
    → All (λ number. length number ≤ 40) numbers
    → 0 < length numbers
    → Gives
        (λ (counted, in_clause, c).
          (c ≤ length numbers) × (length in_clause + 1 ≤ length numbers * 84))
        (ask_numbers now numbers (cache, [], 0))
ask_numbers-fit now numbers cache h some_number =
    let (s, e, f) = ask_numbers-Fits now 0 numbers (cache, [], 0) h (omega arith, omega arith) in
    (s, e, (omega (arith, f.0), omega (arith, f.0, f.1, some_number)))
