-- ===== src/Rating/Pcard.antt =====
-- mod/Rating/pcard.c: the payment card that is active on the day of a call. The list of an
-- account's cards comes from the cache or the database; the card found is a copy.
pub mod Period
use rate_engine.Base.{
  ℕ, ◌+◌, ◌-◌, ◌≡◌, Bool, true, false, ◌&&◌, ◌||◌, not, List, [], ◌∷◌, Option, none, some, ltb, leb,
  ◌==◌, if◌then◌else◌, ℤ, pos, ltb_ℤ, leb_ℤ, Text, strcmp, is_set,
}
use rate_engine.Base.Clock.{Tm, dash_date}
use rate_engine.Rating.Data.{Pcard, Bacc, Call}

-- `pcard_type_t` and `pcard_status_t` of pcard.h.
abbrev pub debit_card : ℕ
debit_card = 1

abbrev pub credit_card : ℕ
credit_card = 2

abbrev pub pcard_active : ℕ
pcard_active = 1

abbrev pub pcard_block : ℕ
pcard_block = 2

-- The billing period around a date, from the billing day: its first day, and the one after its
-- last.
unfoldable pub billing_period : ℕ → ℕ → ℕ → ℕ → Text × Text
billing_period year mon day bday =
    let next_year = if leb (mon + 1) 12 then year else year + 1 in
    let next_mon = if leb (mon + 1) 12 then mon + 1 else 1 in
    if leb bday day
    then (dash_date year mon bday, dash_date next_year next_mon bday)
    else if mon == 1
    then (dash_date (year - 1) 12 bday, dash_date year mon bday)
    else (dash_date year (mon - 1) bday, dash_date year mon bday)

-- A credit card takes the period's ends where its own are missing or earlier.
unfoldable pub credit_dates : Text × Text → Pcard → Pcard
credit_dates (start_date, end_date) card = record card {
  start = if ltb_ℤ (strcmp card.start start_date) (pos 0) then start_date else card.start;
  end = if is_set card.end then card.end else end_date;
}

-- The period of a card contains the day.
unfoldable pub is_current : Text → Pcard → Bool
is_current current card =
    leb_ℤ (strcmp card.start current) (pos 0) && ltb_ℤ (pos 0) (strcmp card.end current)

-- `while(card[i].id)`: the first card that is active.
unfoldable pub find_card : Text × Text → Text → List Pcard → Option Pcard
find_card period current [] = none
find_card period current (card ∷ cards) =
    let later = find_card period current cards in
    let dated = credit_dates period card in
    if card.id == 0
    then none
    else if card.type == credit_card
    then (if is_current current dated then some dated else later)
    else if card.type == debit_card
    then (if not (is_set card.end) || not (is_set card.start)
        then later
        else if is_current current card
        then some card
        else later)
    else later

-- The date of the call: its epoch, or its start for an online call.
abbrev pub call_time : Call → ℕ
call_time pre = if pre.epoch == 0 then pre.ts else pre.epoch

unfoldable pub pcard_manager : (ℕ → Tm) → Option (List Pcard) → Call → Bacc → Bacc
pcard_manager localtime none pre bpt = record bpt { pcard = none }
pcard_manager localtime (some cards) pre bpt =
    let tm = localtime (call_time pre) in
    let year = tm.year + 1900 in
    let mon = tm.mon + 1 in
    let bday = if bpt.billing_day == 0 then 1 else bpt.billing_day in
    record bpt {
      pcard = find_card (billing_period year mon tm.mday bday) (dash_date year mon tm.mday) cards;
    }
