-- ===== src/Rating/Pcard/Period.antt =====
-- The billing period, and when a card is found.
use rate_engine.Base.{
  ℕ, ◌+◌, ◌-◌, ◌≤◌, ◌<◌, ◌≡◌, ◌≢◌, ◌⊎◌, true, List, [], ◌∷◌, Option, none, some, arith, leb, ◌==◌,
  if◌then◌else◌, pos, ◌≤ℤ◌, ◌<ℤ◌, Text, strcmp, Bool-cases, inl, inr,
}
use rate_engine.Base.Clock.{Tm, dash_date, date_key, strcmp-date_key}
use rate_engine.Rating.Data.{Pcard, Bacc, Call}
use rate_engine.Rating.Pcard.{
  credit_card, billing_period, credit_dates, is_current, find_card, debit_card, call_time,
  pcard_manager,
}

module _ (y m d y' m' d' : ℕ) (p : y < 10000) (q : m < 100) (r : d < 100) (p' : y' < 10000)
    (q' : m' < 100) (r' : d' < 100) where
  date_le :
      date_key y m d ≤ date_key y' m' d' → strcmp (dash_date y m d) (dash_date y' m' d') ≤ℤ pos 0
  date_le h = rw (strcmp-date_key y m d y' m' d' p q r p' q' r') (ground arith)

  date_lt :
      date_key y' m' d' < date_key y m d → pos 0 <ℤ strcmp (dash_date y m d) (dash_date y' m' d')
  date_lt h = rw (strcmp-date_key y m d y' m' d' p q r p' q' r') (ground arith)

-- The billing period of a date holds that date: it begins then or before, and ends later.
pub billing_period-holds :
    (year mon day bday : ℕ)
    → 1 ≤ year
    → year < 9999
    → 1 ≤ mon
    → mon ≤ 12
    → 1 ≤ day
    → day ≤ 31
    → 1 ≤ bday
    → bday ≤ 31
    → let (start, end) = billing_period year mon day bday in
      (strcmp start (dash_date year mon day) ≤ℤ pos 0)
      × (pos 0 <ℤ strcmp end (dash_date year mon day))
unfolding billing_period
billing_period-holds year mon day bday a b c d e f g h = elim (Bool-cases (leb bday day)) [
  | inl due ↦ elim (Bool-cases (leb (mon + 1) 12)) [
    | inl within ↦
        rw (due, within)
          (
            date_le year mon bday year mon day (omega arith) (omega arith) (omega arith)
                (omega arith) (omega arith) (omega arith) (ground arith),
            date_lt year (mon + 1) bday year mon day (omega arith) (omega arith) (omega arith)
                (omega arith) (omega arith) (omega arith) (ground arith),
          )
    | inr over ↦
        rw (due, over)
          (
            date_le year mon bday year mon day (omega arith) (omega arith) (omega arith)
                (omega arith) (omega arith) (omega arith) (ground arith),
            date_lt (year + 1) 1 bday year mon day (omega arith) (omega arith) (omega arith)
                (omega arith) (omega arith) (omega arith) (ground arith),
          )
  ]
  | inr early ↦ elim (Bool-cases (mon == 1)) [
    | inl january ↦
        rw (early, january)
          (
            date_le (year - 1) 12 bday year mon day (omega arith) (omega arith) (omega arith)
                (omega arith) (omega arith) (omega arith) (ground arith),
            date_lt year mon bday year mon day (omega arith) (omega arith) (omega arith)
                (omega arith) (omega arith) (omega arith) (ground arith),
          )
    | inr later ↦
        rw (early, later)
          (
            date_le year (mon - 1) bday year mon day (omega arith) (omega arith) (omega arith)
                (omega arith) (omega arith) (omega arith) (ground arith),
            date_lt year mon bday year mon day (omega arith) (omega arith) (omega arith)
                (omega arith) (omega arith) (omega arith) (ground arith),
          )
  ]
]

-- A card that is found is a real entry of a known type, and its dates contain the day.
find_card-current :
    (period : Text × Text) (current : Text) (cards : List Pcard) (c : Pcard)
    → find_card period current cards ≡ some c
    → (is_current current c ≡ true) × (c.id ≢ 0) × ((c.type ≡ credit_card) ⊎ (c.type ≡ debit_card))
unfolding find_card credit_dates
find_card-current period current [] c h = cc
find_card-current period current (card ∷ cards) c h =
    ground (arith, find_card-current period current cards c)

-- The calendar day of a broken-down time.
pub record IsDay (t : Tm) : Type 0 where
  pub year : t.year < 8099
  pub mon : t.mon < 12
  pub first : 1 ≤ t.mday
  pub last : t.mday ≤ 31

abbrev pub today : (ℕ → Tm) → Call → Text
today localtime pre =
    let t = localtime (call_time pre) in dash_date (t.year + 1900) (t.mon + 1) t.mday

-- The card that `pcard_manager` leaves in the account is current on the day of the call.
pcard_manager-current :
    (localtime : ℕ → Tm) (cards : Option (List Pcard)) (pre : Call) (bpt : Bacc) (c : Pcard)
    → (pcard_manager localtime cards pre bpt).pcard ≡ some c
    → (is_current (today localtime pre) c ≡ true)
      × (c.id ≢ 0)
      × ((c.type ≡ credit_card) ⊎ (c.type ≡ debit_card))
unfolding pcard_manager
pcard_manager-current localtime none pre bpt c h = cc
pcard_manager-current localtime (some cards) pre bpt c h = find_card-current _ _ cards c h

-- The numbers of a date as it is printed.
abbrev pub IsDate : ℕ → ℕ → ℕ → Type 0
IsDate y m d = (y < 10000) × (m < 100) × (d < 100)

is_current-days :
    (y m d y' m' d' ty tm td : ℕ) (c : Pcard)
    → IsDate y m d
    → IsDate y' m' d'
    → IsDate ty tm td
    → c.start ≡ dash_date y m d
    → c.end ≡ dash_date y' m' d'
    → is_current (dash_date ty tm td) c ≡ true
    → (date_key y m d ≤ date_key ty tm td) × (date_key ty tm td < date_key y' m' d')
unfolding is_current
is_current-days y m d y' m' d' ty tm td c (p, q, r) (p', q', r') (p2, q2, r2) s e h =
    let from = strcmp-date_key y m d ty tm td p q r p2 q2 r2 in
    let till = strcmp-date_key y' m' d' ty tm td p' q' r' p2 q2 r2 in
    (ground (arith, s, e, h, from), ground (arith, s, e, h, till))

-- The card that `pcard_manager` leaves in the account is a real one of a known type, and when its
-- dates are those of the calendar, it began on the day of the call or before, and ends after it.
pub pcard_manager-days :
    (localtime : ℕ → Tm) (cards : Option (List Pcard)) (pre : Call) (bpt : Bacc) (c : Pcard)
    (y m d y' m' d' : ℕ)
    → IsDay (localtime (call_time pre))
    → IsDate y m d
    → IsDate y' m' d'
    → (pcard_manager localtime cards pre bpt).pcard ≡ some c
    → c.start ≡ dash_date y m d
    → c.end ≡ dash_date y' m' d'
    → let t = localtime (call_time pre) in
      let day = date_key (t.year + 1900) (t.mon + 1) t.mday in
      (date_key y m d ≤ day)
      × (day < date_key y' m' d')
      × (c.id ≢ 0)
      × ((c.type ≡ credit_card) ⊎ (c.type ≡ debit_card))
pcard_manager-days localtime cards pre bpt c y m d y' m' d' day f g h s e =
    let t = localtime (call_time pre) in
    let (now, real, kind) = pcard_manager-current localtime cards pre bpt c h in
    let (a, b) =
      is_current-days y m d y' m' d' (t.year + 1900) (t.mon + 1) t.mday c f g
        (omega (arith, day.year), omega (arith, day.mon), omega (arith, day.last)) s e now in
    (a, b, real, kind)

credit-current :
    (start end current : Text) (card : Pcard)
    → strcmp start current ≤ℤ pos 0
    → pos 0 <ℤ strcmp end current
    → strcmp card.start current ≤ℤ pos 0
    → card.end ≡ []
    → is_current current (credit_dates (start, end) card) ≡ true
unfolding is_current credit_dates
credit-current start end current card a b c d = ground arith

-- A credit card with no end that began on the day of the call or before is found when it comes
-- first, with the billing period of that day for its dates.
pub pcard_manager-open_credit :
    (localtime : ℕ → Tm) (card : Pcard) (cards : List Pcard) (pre : Call) (bpt : Bacc)
    → IsDay (localtime (call_time pre))
    → bpt.billing_day ≤ 31
    → card.id ≢ 0
    → card.type ≡ credit_card
    → card.end ≡ []
    → strcmp card.start (today localtime pre) ≤ℤ pos 0
    → let t = localtime (call_time pre) in
      (pcard_manager localtime (some (card ∷ cards)) pre bpt).pcard
      ≡ some (
          credit_dates
            (billing_period
              (t.year + 1900)
              (t.mon + 1)
              t.mday
              (if bpt.billing_day == 0 then 1 else bpt.billing_day))
            card)
unfolding pcard_manager find_card
pcard_manager-open_credit localtime card cards pre bpt d b i ty e s =
    let t = localtime (call_time pre) in
    let holds =
      billing_period-holds (t.year + 1900) (t.mon + 1) t.mday
        (if bpt.billing_day == 0 then 1 else bpt.billing_day) (omega arith) (omega (arith, d.year))
        (omega arith) (omega (arith, d.mon)) d.first d.last (ground arith) (ground arith) in
    ground (arith, ty, credit-current _ _ (today localtime pre) card holds.0 holds.1 s e)
