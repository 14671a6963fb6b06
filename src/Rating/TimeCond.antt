-- ===== src/Rating/TimeCond.antt =====
-- mod/Rating/time_cond.c: does a call fall under a time condition of its tariff?
-- `localtime` is an argument, the broken-down time of an epoch in the server's zone.
pub mod Window
use rate_engine.Base.{
  ℕ, zero, suc, ◌+◌, ◌≡◌, Bool, true, false, ◌&&◌, ◌||◌, not, List, [], ◌∷◌, Option, none, some,
  ltb, leb, ◌==◌, if◌then◌else◌, ℤ, pos, negsuc, ltb_ℤ, leb_ℤ, Text, text, strcmp, text_eq, is_set,
}
use rate_engine.Base.Clock.{Tm, colon_time, dash_date}
use rate_engine.Rating.Data.{TimeCond, Call}

-- The names of `week_days`; an entry's `dnum` is one more than its index.
abbrev pub week_days : List Text
week_days =
    text "mon" ∷ text "tue" ∷ text "wed" ∷ text "thu" ∷ text "fri" ∷ text "sat" ∷ text "sun" ∷ []

unfoldable pub find_day : List Text → Text → ℕ → ℤ
find_day [] day i = negsuc 0
find_day (d ∷ ds) day i =
    let later = find_day ds day (i + 1) in if text_eq d day then pos i else later

unfoldable pub get_week_days_dnum : Option Text → ℤ
unfolding find_day
get_week_days_dnum none = negsuc 0
get_week_days_dnum (some day) = find_day week_days day 0

-- `week_days[i].dnum`. At index -1 the code reads memory in front of the array, `stray`.
unfoldable pub day_number : ℤ → ℤ → ℤ
day_number stray (pos i) = pos (i + 1)
day_number stray (negsuc i) = stray

-- `strtok(s,"-")`, and the text behind the token for the next call.
unfoldable pub skip_dashes : Text → Text
skip_dashes [] = []
skip_dashes (c ∷ s) = let rest = skip_dashes s in if c == b'-' then rest else c ∷ s

unfoldable pub token : Text → Text × Text
token [] = ([], [])
token (c ∷ s) = let rest = token s in if c == b'-' then ([], s) else (c ∷ rest.0, rest.1)

unfoldable pub strtok : Text → Option Text × Text
unfolding skip_dashes token
strtok s = let t = token (skip_dashes s) in if is_set t.0 then (some t.0, t.1) else (none, [])

-- The two ends of a range: `strtok(s,"-")` and `strtok(NULL,"-")`.
unfoldable pub range : Text → Option Text × Option Text
unfolding strtok
range s = let first = strtok s in (first.0, (strtok first.1).0)

-- Condition 3, the hours. Where one end is missing the entry applies.
unfoldable pub hours_match : Option Text × Option Text → Text → Bool
hours_match (some hour1, some hour2) time =
    let b = strcmp hour1 hour2 in
    let n = strcmp hour1 time in
    let n2 = strcmp hour2 time in
    let n2a = strcmp (text "23:59:59") time in
    let n2b = strcmp (text "00:00:00") time in
    if ltb_ℤ b (pos 0)
    then ltb_ℤ n (pos 0) && leb_ℤ (pos 0) n2
    else (leb_ℤ (pos 0) n2a && ltb_ℤ n (pos 0)) || (leb_ℤ n2b (pos 0) && leb_ℤ (pos 0) n2)
hours_match (some hour1, none) time = true
hours_match (none, hour2) time = true

-- Condition 2, the days of the week.
unfoldable pub days_match : ℤ → Option Text × Option Text → ℕ → Bool
unfolding get_week_days_dnum day_number
days_match stray (day1, day2) dow =
    leb_ℤ (day_number stray (get_week_days_dnum day1)) (pos dow)
    && leb_ℤ (pos dow) (day_number stray (get_week_days_dnum day2))

-- Condition 1, the date, comes first; with hours set it goes on to those.
unfoldable pub entry_match : ℤ → TimeCond → ℕ → Text → Text → Bool
entry_match stray c dow time date =
    if is_set c.tc_date && text_eq c.tc_date date
    then (if is_set c.hours then hours_match (range c.hours) time else true)
    else days_match stray (range c.dweek) dow && hours_match (range c.hours) time

-- `while(tc[p].id)`: the first entry that applies.
unfoldable pub find_entry : ℤ → List TimeCond → ℕ → Text → Text → Option TimeCond
find_entry stray [] dow time date = none
find_entry stray (c ∷ cs) dow time date =
    let later = find_entry stray cs dow time date in
    if c.id == 0 then none else if entry_match stray c dow time date then some c else later

-- `parse_tm`.
abbrev pub tm_time : Tm → Text
tm_time t = colon_time t.hour t.min t.sec

abbrev pub tm_date : Tm → Text
tm_date t = dash_date (t.year + 1900) (t.mon + 1) t.mday

unfoldable pub tc_ts_cmp : ℤ → (ℕ → Tm) → Call → Call × Bool
tc_ts_cmp stray localtime pre =
    let now = localtime pre.epoch in
    elim pre.tc [
      | none ↦ (pre, false)
      | some cs ↦ elim (find_entry stray cs pre.dow (tm_time now) (tm_date now)) [
        | none ↦ (pre, false)
        | some c ↦ (record pre { tc_id = c.id; tariff_id = c.tariff_id }, true)
      ]
    ]
