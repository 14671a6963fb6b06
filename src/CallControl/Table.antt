-- ===== src/CallControl/Table.antt =====
-- The table of cc_server.c, with the structures of cc.h. The lock makes every function one step. A
-- slot owns the request and the account that were stored in it; clearing the slot frees them.
use rate_engine.Base.{
  ℕ, suc, ◌+◌, Bool, true, false, List, [], ◌∷◌, Option, none, some, ◌==◌, if◌then◌else◌, ℤ, Text,
  text_eq, replicate,
}
use rate_engine.Rating.Data.{Racc}

-- `cc_maxsec_t`.
pub record CcMaxsec : Type 0 where
  pub clg : Text
  pub cld : Text
  pub call_uid : Text
  pub ts : ℕ
  pub maxsec : ℤ

-- `cc_term_status_t`.
pub data CcTermStatus : Type 0 where
  unkn_status : CcTermStatus
  normal_clear : CcTermStatus
  busy : CcTermStatus
  cancel : CcTermStatus
  error : CcTermStatus

-- `cc_term_t`.
pub record CcTerm : Type 0 where
  pub status : CcTermStatus
  pub call_uid : Text
  pub billsec : ℕ
  pub duration : ℕ
  pub tbl_idx : ℤ

-- `cc_events_t`.
pub data CcEvent : Type 0 where
  unkn_event : CcEvent
  status_event : CcEvent
  maxsec_event : CcEvent
  balance_event : CcEvent
  rate_event : CcEvent
  cprice_event : CcEvent
  term_event : CcEvent

-- `cc_balance_t`, `cc_rate_t` and `cc_cprice_t`.
pub record CcBalance : Type 0 where
  pub clg : Text
  pub amount : ℤ

pub record CcRate : Type 0 where
  pub clg : Text
  pub cld : Text
  pub rate_price : ℤ

pub record CcCprice : Type 0 where
  pub clg : Text
  pub cld : Text
  pub billsec : ℕ
  pub cprice : ℤ

-- `cc_t`.
pub record Cc : Type 0 where
  pub cdr_server_id : ℕ
  pub t : CcEvent
  pub max : Option CcMaxsec
  pub bal : Option CcBalance
  pub rate : Option CcRate
  pub cprice : Option CcCprice
  pub term : Option CcTerm
  pub is_active : Bool

-- `cc_server_tbl_t`.
pub record Slot : Type 0 where
  pub cc : Option Cc
  pub rtp : Option Racc

abbrev pub empty_slot : Slot
empty_slot = record { cc = none; rtp = none }

unfoldable pub cc_server_tbl_init : ℕ → Option (List Slot)
cc_server_tbl_init sim = if sim == 0 then none else some (replicate sim empty_slot)

abbrev pub is_free : Slot → Bool
is_free s = elim s.cc [ none ↦ (elim s.rtp [ none ↦ true | some r ↦ false ]) | some c ↦ false ]

-- The call goes into the first free slot; `false` is RE_ERROR.
unfoldable pub cc_server_call_init : Cc → Racc → List Slot → List Slot × Bool
cc_server_call_init c r [] = ([], false)
cc_server_call_init c r (s ∷ ss) =
    let (rest, ok) = cc_server_call_init c r ss in
    if is_free s then (record { cc = some c; rtp = some r } ∷ ss, true) else (s ∷ rest, ok)

-- The request of a slot that asked for seconds.
abbrev pub request : Slot → Option CcMaxsec
request s = elim s.cc [ none ↦ none | some c ↦ c.max ]

abbrev pub has_uid : Text → Slot → Bool
has_uid uid s = elim (request s) [ none ↦ false | some m ↦ text_eq m.call_uid uid ]

abbrev pub has_clg : Text → Slot → Bool
has_clg racc s = elim (request s) [ none ↦ false | some m ↦ text_eq m.clg racc ]

-- `tbl[i].cc_ptr->term = term`.
unfoldable pub set_term : CcTerm → Slot → Slot
set_term tm s = elim s.cc [
  | none ↦ s
  | some c ↦ record s { cc = some (record c { term = some tm }) }
]

-- The first call of the id takes the termination; its index is the result, or none for RE_ERROR_N.
unfoldable pub cc_server_call_search_call_uid : CcTerm → List Slot → List Slot × Option ℕ
cc_server_call_search_call_uid tm [] = ([], none)
cc_server_call_search_call_uid tm (s ∷ ss) =
    let (rest, found) = cc_server_call_search_call_uid tm ss in
    if has_uid tm.call_uid s
    then (set_term tm s ∷ ss, some 0)
    else (s ∷ rest, elim found [ none ↦ none | some i ↦ some (suc i) ])

-- The number of calls of a calling number.
unfoldable pub cc_server_call_search_racc : Text → List Slot → ℕ
cc_server_call_search_racc racc [] = 0
cc_server_call_search_racc racc (s ∷ ss) =
    (if has_clg racc s then 1 else 0) + cc_server_call_search_racc racc ss

-- `cc_server_call_clear`: the request and the account are freed.
unfoldable pub cc_server_call_clear : Slot → Slot
cc_server_call_clear s = empty_slot
