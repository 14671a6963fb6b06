-- ===== src/CallControl/Events/Ended.antt =====
-- From the start of a call to its end: stored, terminated by an event, cleared by the server
-- thread.
use rate_engine.Base.{
  ℕ, zero, suc, ◌≡◌, ◌∙◌, ap, true, false, List, [], ◌∷◌, none, some, arith, get_elem?, map, All,
  pos,
}
use rate_engine.Rating.Data.{Racc}
use rate_engine.CallControl.Table.{
  Cc, CcMaxsec, CcTerm, Slot, empty_slot, has_uid, set_term, cc_server_call_init,
  cc_server_call_search_call_uid,
}
use rate_engine.CallControl.Occupied.{cc_server_call_search_call_uid-cc_server_call_init}
use rate_engine.CallControl.Events.{at_slot, cc_term_f}
use rate_engine.CallControl.Sweep.{Billing, is_over, sweep}
use rate_engine.CallControl.Swept.{kept, sweep-kept}

get-at_slot :
    (i : ℕ) (f : Slot → Slot) (ss : List Slot) (s : Slot)
    → get_elem? ss i ≡ some s
    → get_elem? (at_slot i f ss) i ≡ some (f s)
unfolding at_slot
get-at_slot i f [] s h = absurd (ground (arith, h))
get-at_slot zero f (x ∷ ss) s h = ap (λ o. elim o [ none ↦ none | some y ↦ some (f y) ]) h
get-at_slot (suc i) f (x ∷ ss) s h = get-at_slot i f ss s h

get-map :
    (f : Slot → Slot) (ss : List Slot) (i : ℕ) (s : Slot)
    → get_elem? ss i ≡ some s
    → get_elem? (map f ss) i ≡ some (f s)
get-map f [] i s h = absurd (ground (arith, h))
get-map f (x ∷ ss) zero s h = ap (λ o. elim o [ none ↦ none | some y ↦ some (f y) ]) h
get-map f (x ∷ ss) (suc i) s h = get-map f ss i s h

-- The slot of a call after the event, with the termination and its index.
abbrev pub ended_slot : Cc → Racc → CcTerm → ℕ → Slot
ended_slot c r tm i = record {
  cc = some (record c { term = some (record tm { tbl_idx = pos i }) });
  rtp = some r;
}

cc_term_f-found :
    (c c' : Cc) (m : CcMaxsec) (r : Racc) (tm : CcTerm) (tbl : List Slot)
    → c.max ≡ some m
    → c'.term ≡ some tm
    → tm.call_uid ≡ m.call_uid
    → All (λ s. has_uid tm.call_uid s ≡ false) tbl
    → (cc_server_call_init c r tbl).1 ≡ true
    → (i : ℕ) × (get_elem? (cc_term_f (cc_server_call_init c r tbl).0 c').0 i
        ≡ some (ended_slot c r tm i))
unfolding cc_term_f set_term
cc_term_f-found c c' m r tm tbl e t u other ok =
    let (i, found, there) =
      cc_server_call_search_call_uid-cc_server_call_init c m r tm tbl e u other ok in
    let searched = (cc_server_call_search_call_uid tm (cc_server_call_init c r tbl).0).0 in
    let indexed = record tm { tbl_idx = pos i } in
    let stands =
      get-at_slot i (set_term indexed) searched
        (record { cc = some (record c { term = some tm }); rtp = some r }) there in
    (i, ground (arith, t, found, stands))

-- After a call was stored and a termination with its id arrived, when no other call has the id, the
-- slot of the call holds it with the termination, and the next pass of the server thread at any
-- time empties the slot.
pub sweep-cc_term_f :
    {W : Type 0} (billing : Billing W) (now : ℕ) (w : W) (c c' : Cc) (m : CcMaxsec) (r : Racc)
    (tm : CcTerm) (tbl : List Slot)
    → c.max ≡ some m
    → c'.term ≡ some tm
    → tm.call_uid ≡ m.call_uid
    → All (λ s. has_uid tm.call_uid s ≡ false) tbl
    → (cc_server_call_init c r tbl).1 ≡ true
    → let ended = (cc_term_f (cc_server_call_init c r tbl).0 c').0 in
      (i : ℕ) × (get_elem? ended i ≡ some (ended_slot c r tm i))
      × (get_elem? (sweep billing now w ended).0 i ≡ some empty_slot)
unfolding is_over
sweep-cc_term_f billing now w c c' m r tm tbl e t u other ok =
    let (i, there) = cc_term_f-found c c' m r tm tbl e t u other ok in
    let ended = (cc_term_f (cc_server_call_init c r tbl).0 c').0 in
    (
      i,
      there,
      ap (λ ss. get_elem? ss i) (sweep-kept billing now w ended)
          ∙ get-map (kept billing now) ended i (ended_slot c r tm i) there,
    )
