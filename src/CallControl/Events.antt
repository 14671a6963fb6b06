-- ===== src/CallControl/Events.antt =====
-- cc.c: the events of a call, and how a request for seconds reaches mod/Rating through rt_api.
pub mod Within
pub mod Weekly
pub mod Race
pub mod Ended
use rate_engine.Base.{
  ℕ, zero, suc, ◌≡◌, Bool, true, false, List, [], ◌∷◌, Option, none, some, if◌then◌else◌, ℤ, pos,
  negsuc, Text, is_set,
}
use rate_engine.Rating.Data.{Call, Racc, zero_call}
use rate_engine.Rating.World.{Host, World}
use rate_engine.Rating.Maxsec.{Answer, rt_maxsec}
use rate_engine.Rating.Maxsec.Granted.{IsAnswer, rt_maxsec-connected, rt_maxsec-unconnected}
use rate_engine.CallControl.Table.{
  Cc, CcMaxsec, CcTerm, CcEvent, Slot, set_term, cc_server_call_init,
  cc_server_call_search_call_uid, cc_server_call_search_racc,
}

-- `rt_api.maxsec` with the database of the worker, which may be NULL, and what its answers promise.
pub record MaxsecApi (W : Type 0) : Type 0 where
  pub most : ℕ
  pub has_dbp : Bool
  pub maxsec : W → Call → ℕ → W × Answer
  pub answers :
      (w : W) (pre : Call) (sim : ℕ) → has_dbp ≡ true → IsAnswer most sim (maxsec w pre sim).1
  pub unanswered :
      (w : W) (pre : Call) (sim : ℕ) → has_dbp ≡ false → maxsec w pre sim ≡ (w, (pre, none))

-- rt_bind_api.c binds it to `rt_maxsec`.
abbrev pub rt_api : {Db : Type 0} → Host Db → MaxsecApi (World Db)
rt_api host = record {
  most = host.call_maxsec_limit;
  has_dbp = host.has_dbp;
  maxsec = rt_maxsec host;
  answers = rt_maxsec-connected host;
  unanswered = rt_maxsec-unconnected host;
}

abbrev pub cc_maxsec_no_pre : ℤ
cc_maxsec_no_pre = negsuc 8

abbrev pub cc_maxsec_no_cctbl : ℤ
cc_maxsec_no_cctbl = negsuc 9

unfoldable pub cc_maxsec_pre : Cc → CcMaxsec → Call
cc_maxsec_pre c m = record zero_call {
  cdr_server_id = c.cdr_server_id;
  clg = m.clg;
  cld = m.cld;
  call_uid = m.call_uid;
  ts = m.ts;
}

-- The request with its answer.
abbrev pub answered : Cc → CcMaxsec → ℤ → Cc
answered c m n = record c { max = some (record m { maxsec = n }) }

-- A call that may start is stored, when the table has room.
unfoldable pub store_call : List Slot → Cc → CcMaxsec → Answer → List Slot × Cc
store_call tbl c m (pre, none) = (tbl, answered c m pre.maxsec)
store_call tbl c m (pre, some rtp) =
    let (stored, ok) = cc_server_call_init (answered c m pre.maxsec) rtp tbl in
    (stored, if ok then answered c m pre.maxsec else answered c m cc_maxsec_no_cctbl)

-- One slot changes.
unfoldable pub at_slot : ℕ → (Slot → Slot) → List Slot → List Slot
at_slot i f [] = []
at_slot zero f (s ∷ ss) = f s ∷ ss
at_slot (suc i) f (s ∷ ss) = s ∷ at_slot i f ss

abbrev pub tbl_index : Option ℕ → ℤ
tbl_index none = negsuc 0
tbl_index (some i) = pos i

-- The termination is shared with the slot, so that its index shows there too.
unfoldable pub cc_term_f : List Slot → Cc → List Slot × Cc
cc_term_f tbl c = elim c.term [
  | none ↦ (tbl, c)
  | some tm ↦
      let (searched, found) = cc_server_call_search_call_uid tm tbl in
      let indexed = record tm { tbl_idx = tbl_index found } in
      (
        elim found [ none ↦ searched | some i ↦ at_slot i (set_term indexed) searched ],
        record c { term = some indexed },
      )
]

-- `cc_balance_f`, `cc_rate_f` and `cc_cprice_f` only end the request.
abbrev pub deactivate : Cc → Cc
deactivate c = record c { is_active = false }

-- The table and the request after an event.
abbrev pub Reply : Type 0
Reply = List Slot × Cc

module _ {W : Type 0} (api : MaxsecApi W) where
  -- A request without its structure is written through a NULL pointer: no result.
  unfoldable pub cc_maxsec_f : W → List Slot → Cc → Option (W × Reply)
  cc_maxsec_f w tbl c = elim c.max [
    | none ↦ none
    | some m ↦
        let (asked, answer) =
          api.maxsec w (cc_maxsec_pre c m) (cc_server_call_search_racc m.clg tbl) in
        some (
          if is_set m.clg
          then (asked, store_call tbl c m answer)
          else (w, (tbl, answered c m cc_maxsec_no_pre)))
  ]

  unfoldable pub cc_event_manager : W → List Slot → Cc → Option (W × Reply)
  cc_event_manager w tbl c = elim c.t [
    | CcEvent.maxsec_event ↦ cc_maxsec_f w tbl c
    | CcEvent.balance_event ↦ some (w, (tbl, deactivate c))
    | CcEvent.rate_event ↦ some (w, (tbl, deactivate c))
    | CcEvent.cprice_event ↦ some (w, (tbl, deactivate c))
    | CcEvent.term_event ↦ some (w, cc_term_f tbl c)
    | CcEvent.unkn_event ↦ some (w, (tbl, c))
    | CcEvent.status_event ↦ some (w, (tbl, c))
  ]
