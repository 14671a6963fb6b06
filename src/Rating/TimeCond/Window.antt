-- ===== src/Rating/TimeCond/Window.antt =====
-- When a time condition applies.
use rate_engine.Base.{
  ℕ, zero, suc, ◌+◌, ◌*◌, ◌<◌, ◌≡◌, ◌≢◌, refl, Bool, true, false, ◌&&◌, ◌||◌, List, [], ◌∷◌, ◌++◌,
  none, some, arith, ltb, leb, if◌then◌else◌, ℤ, pos, ltb_ℤ, leb_ℤ, Text, text, strcmp, text_eq,
  is_set, All,
}
use rate_engine.Base.Clock.{
  Tm, colon_time, hour_minute, strcmp-hour_minute, strcmp-hour_minutes, strcmp-times,
}
use rate_engine.Rating.Data.{TimeCond, Call}
use rate_engine.Rating.TimeCond.{
  token, skip_dashes, strtok, range, get_week_days_dnum, hours_match, days_match, entry_match,
  find_entry, tm_time, tm_date, tc_ts_cmp,
}

-- A minute of the day lies from `start` up to `end`, which may be past midnight.
unfoldable pub in_window : ℕ → ℕ → ℕ → Bool
in_window start end minute =
    if ltb start end then leb start minute && ltb minute end else leb start minute || ltb minute end

module _ (h1 m1 h m s : ℕ) (a : h1 < 24) (b : m1 < 60) (c : h < 24) (d : m < 60) (e : s < 60) where
  -- A begin at or before the time.
  begun :
      ltb_ℤ (strcmp (hour_minute h1 m1) (colon_time h m s)) (pos 0)
      ≡ leb (60 * h1 + m1) (60 * h + m)
  begun =
      rw (strcmp-hour_minute h1 m1 h m s (omega arith) (omega arith) (omega arith) (omega arith))
        (ground arith)

  -- An end after the time.
  not_ended :
      leb_ℤ (pos 0) (strcmp (hour_minute h1 m1) (colon_time h m s))
      ≡ ltb (60 * h + m) (60 * h1 + m1)
  not_ended =
      rw (strcmp-hour_minute h1 m1 h m s (omega arith) (omega arith) (omega arith) (omega arith))
        (ground arith)

  last_second : leb_ℤ (pos 0) (strcmp (text "23:59:59") (colon_time h m s)) ≡ true
  last_second =
      rw
        (strcmp-times 23 59 59 h m s (omega arith) (omega arith) (omega arith) (omega arith)
          (omega arith) (omega arith))
        (ground arith)

  first_second : leb_ℤ (strcmp (text "00:00:00") (colon_time h m s)) (pos 0) ≡ true
  first_second =
      rw
        (strcmp-times 0 0 0 h m s (omega arith) (omega arith) (omega arith) (omega arith)
          (omega arith) (omega arith))
        (ground arith)

ends_later :
    (h1 m1 h2 m2 : ℕ)
    → h1 < 24
    → m1 < 60
    → h2 < 24
    → m2 < 60
    → ltb_ℤ (strcmp (hour_minute h1 m1) (hour_minute h2 m2)) (pos 0)
      ≡ ltb (60 * h1 + m1) (60 * h2 + m2)
ends_later h1 m1 h2 m2 a b c d =
    rw (strcmp-hour_minutes h1 m1 h2 m2 (omega arith) (omega arith) (omega arith) (omega arith))
      (ground arith)

-- The hours `h1:m1` to `h2:m2` hold for a time exactly when its minute lies in that window: the
-- begin belongs to it, the end does not, and seconds play no part.
pub hours_match-window :
    (h1 m1 h2 m2 h m s : ℕ)
    → h1 < 24
    → m1 < 60
    → h2 < 24
    → m2 < 60
    → h < 24
    → m < 60
    → s < 60
    → hours_match (some (hour_minute h1 m1), some (hour_minute h2 m2)) (colon_time h m s)
      ≡ in_window (60 * h1 + m1) (60 * h2 + m2) (60 * h + m)
unfolding hours_match in_window
hours_match-window h1 m1 h2 m2 h m s a b c d e f g = rw (
  ends_later h1 m1 h2 m2 a b c d,
  begun h1 m1 h m s a b e f g,
  not_ended h2 m2 h m s c d e f g,
  last_second h1 m1 h m s a b e f g,
  first_second h1 m1 h m s a b e f g,
)

abbrev Plain : Text → Type 0
Plain = All λ c. c ≢ b'-'

token-dash : (s r : Text) → Plain s → token (s ++ b'-' ∷ r) ≡ (s, r)
unfolding token
token-dash [] r p = refl
token-dash (c ∷ s) r p = ground (arith, p.0, token-dash s r p.1)

token-end : (s : Text) → Plain s → token s ≡ (s, [])
unfolding token
token-end [] p = refl
token-end (c ∷ s) p = ground (arith, p.0, token-end s p.1)

strtok-dash :
    (c : ℕ) (s r : Text) → Plain (c ∷ s) → strtok ((c ∷ s) ++ b'-' ∷ r) ≡ (some (c ∷ s), r)
unfolding strtok skip_dashes
strtok-dash c s r p = ground (arith, p.0, token-dash (c ∷ s) r p)

strtok-end : (c : ℕ) (s : Text) → Plain (c ∷ s) → strtok (c ∷ s) ≡ (some (c ∷ s), [])
unfolding strtok skip_dashes
strtok-end c s p = ground (arith, p.0, token-end (c ∷ s) p)

-- Two texts with no dash inside, joined by one, come back as the ends of the range.
range-joined :
    (c : ℕ) (s : Text) (d : ℕ) (t : Text)
    → Plain (c ∷ s)
    → Plain (d ∷ t)
    → range ((c ∷ s) ++ b'-' ∷ (d ∷ t)) ≡ (some (c ∷ s), some (d ∷ t))
unfolding range
range-joined c s d t p q = ground (arith, strtok-dash c s (d ∷ t) p, strtok-end d t q)

hour_minute-Plain : (h m : ℕ) → Plain (hour_minute h m)
hour_minute-Plain h m =
    (omega arith, (omega arith, (omega arith, (omega arith, (omega arith, tt)))))

-- The text `HH:MM-HH:MM` of an entry's hours.
abbrev pub hours_text : ℕ → ℕ → ℕ → ℕ → Text
hours_text h1 m1 h2 m2 = hour_minute h1 m1 ++ b'-' ∷ hour_minute h2 m2

range-hours :
    (h1 m1 h2 m2 : ℕ)
    → range (hours_text h1 m1 h2 m2) ≡ (some (hour_minute h1 m1), some (hour_minute h2 m2))
range-hours h1 m1 h2 m2 = range-joined _ _ _ _ (hour_minute-Plain h1 m1) (hour_minute-Plain h2 m2)

-- The days of the week, from 0 for Monday.
abbrev pub day_name : ℕ → Text
day_name zero = text "mon"
day_name (suc zero) = text "tue"
day_name (suc (suc zero)) = text "wed"
day_name (suc (suc (suc zero))) = text "thu"
day_name (suc (suc (suc (suc zero)))) = text "fri"
day_name (suc (suc (suc (suc (suc zero))))) = text "sat"
day_name (suc (suc (suc (suc (suc (suc i)))))) = text "sun"

day_name-dnum : (i : ℕ) → i < 7 → get_week_days_dnum (some (day_name i)) ≡ pos i
unfolding get_week_days_dnum text_eq
day_name-dnum zero h = refl
day_name-dnum (suc zero) h = refl
day_name-dnum (suc (suc zero)) h = refl
day_name-dnum (suc (suc (suc zero))) h = refl
day_name-dnum (suc (suc (suc (suc zero)))) h = refl
day_name-dnum (suc (suc (suc (suc (suc zero))))) h = refl
day_name-dnum (suc (suc (suc (suc (suc (suc zero)))))) h = refl
day_name-dnum (suc (suc (suc (suc (suc (suc (suc i))))))) h = absurd (omega arith)

day_name-Plain : (i : ℕ) → Plain (day_name i)
day_name-Plain zero = omega arith
day_name-Plain (suc zero) = omega arith
day_name-Plain (suc (suc zero)) = omega arith
day_name-Plain (suc (suc (suc zero))) = omega arith
day_name-Plain (suc (suc (suc (suc zero)))) = omega arith
day_name-Plain (suc (suc (suc (suc (suc zero))))) = omega arith
day_name-Plain (suc (suc (suc (suc (suc (suc i)))))) = omega arith

day_name-set : (i : ℕ) → is_set (day_name i) ≡ true
day_name-set zero = refl
day_name-set (suc zero) = refl
day_name-set (suc (suc zero)) = refl
day_name-set (suc (suc (suc zero))) = refl
day_name-set (suc (suc (suc (suc zero)))) = refl
day_name-set (suc (suc (suc (suc (suc zero))))) = refl
day_name-set (suc (suc (suc (suc (suc (suc i)))))) = refl

range-set :
    (x y : Text)
    → Plain x
    → Plain y
    → is_set x ≡ true
    → is_set y ≡ true
    → range (x ++ b'-' ∷ y) ≡ (some x, some y)
range-set [] y p q h k = cc
range-set (c ∷ s) [] p q h k = cc
range-set (c ∷ s) (d ∷ t) p q h k = range-joined c s d t p q

days_match-names :
    (stray : ℤ) (i j dow : ℕ)
    → i < 7
    → j < 7
    → days_match stray (some (day_name i), some (day_name j)) dow
      ≡ (leb (i + 1) dow && leb dow (j + 1))
unfolding days_match
days_match-names stray i j dow h k = rw (day_name-dnum i h, day_name-dnum j k) (ground arith)

-- An entry with no date, from one day of the week to another and with hours `HH:MM-HH:MM`, applies
-- exactly when the day, counted from Monday as 1, lies between the two and the minute in the
-- window.
pub entry_match-weekly :
    (stray : ℤ) (c : TimeCond) (dow : ℕ) (date : Text) (i j h1 m1 h2 m2 h m s : ℕ)
    → c.tc_date ≡ []
    → c.dweek ≡ day_name i ++ b'-' ∷ day_name j
    → c.hours ≡ hours_text h1 m1 h2 m2
    → i < 7
    → j < 7
    → h1 < 24
    → m1 < 60
    → h2 < 24
    → m2 < 60
    → h < 24
    → m < 60
    → s < 60
    → entry_match stray c dow (colon_time h m s) date ≡ (
        (leb (i + 1) dow && leb dow (j + 1))
        && in_window (60 * h1 + m1) (60 * h2 + m2) (60 * h + m))
unfolding entry_match
entry_match-weekly stray c dow date i j h1 m1 h2 m2 h m s td dw hr p q a b a' b' d e f =
    rw
      (
        td,
        dw,
        hr,
        range-set (day_name i) (day_name j) (day_name-Plain i) (day_name-Plain j) (day_name-set i)
            (day_name-set j),
        range-hours h1 m1 h2 m2,
        days_match-names stray i j dow p q,
        hours_match-window h1 m1 h2 m2 h m s a b a' b' d e f,
      )
      refl

-- An entry that names two days of the week and no date.
pub record IsWeekly (c : TimeCond) : Type 0 where
  pub from : ℕ
  pub to : ℕ
  pub from_day : from < 7
  pub to_day : to < 7
  pub days : c.dweek ≡ day_name from ++ b'-' ∷ day_name to
  pub no_date : c.tc_date ≡ []

entry_match-sunday :
    (stray : ℤ) (c : TimeCond) (time date : Text)
    → IsWeekly c
    → entry_match stray c 0 time date ≡ false
unfolding entry_match
entry_match-sunday stray c time date w =
    rw
      (
        w.no_date,
        w.days,
        range-set (day_name w.from) (day_name w.to) (day_name-Plain w.from) (day_name-Plain w.to)
            (day_name-set w.from) (day_name-set w.to),
        days_match-names stray w.from w.to 0 w.from_day w.to_day,
      )
      (ground arith)

find_entry-sunday :
    (stray : ℤ) (cs : List TimeCond) (time date : Text)
    → All IsWeekly cs
    → find_entry stray cs 0 time date ≡ none
unfolding find_entry
find_entry-sunday stray [] time date w = refl
find_entry-sunday stray (c ∷ cs) time date w =
    ground
      (arith, entry_match-sunday stray c time date w.0, find_entry-sunday stray cs time date w.1)

-- On a Sunday, which `localtime` numbers 0, a call meets no time condition of this form, not even
-- one that reaches to "sun", and stays unchanged.
pub tc_ts_cmp-sunday :
    (stray : ℤ) (localtime : ℕ → Tm) (pre : Call) (cs : List TimeCond)
    → pre.dow ≡ 0
    → pre.tc ≡ some cs
    → All IsWeekly cs
    → tc_ts_cmp stray localtime pre ≡ (pre, false)
unfolding tc_ts_cmp
tc_ts_cmp-sunday stray localtime pre cs sunday found w = ground (
  arith,
  sunday,
  found,
  find_entry-sunday stray cs (tm_time (localtime pre.epoch)) (tm_date (localtime pre.epoch)) w,
)
