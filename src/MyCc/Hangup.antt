-- ===== src/MyCc/Hangup.antt =====
-- The end of a call from its line to the line of the reply.
use rate_engine.Base.{
  ◌>>=◌, ℕ, suc, ◌<◌, ◌^◌, ◌≡◌, refl, ap, Bool, true, false, ◌||◌, List, [], ◌∷◌, none, some, arith,
  ℤ, pos, Text, text, Gives, if◌then◌else◌, Bool-cases, inl, inr,
}
use rate_engine.CallControl.Table.{
  Cc, CcTerm, CcTermStatus, CcEvent, Slot, has_uid, cc_server_call_search_call_uid,
}
use rate_engine.CallControl.Events.{MaxsecApi, cc_term_f, cc_event_manager}
use rate_engine.MyCc.{cc_alloc}
use rate_engine.MyCc.Serve.{my_cc_ack, my_cc_comp_ack, serve, my_cc_proto_bind}
use rate_engine.MyCc.Requests.{
  FitsUid, FitsWord, hangup, request_text, cc_of, my_of, my_cc_parser-request_text,
}

-- Some call in the table has the id.
unfoldable pub has_call : Text → List Slot → Bool
has_call uid [] = false
has_call uid (s ∷ ss) = has_uid uid s || has_call uid ss

-- The search finds a call of the id exactly when there is one, and changes nothing when there is
-- none.
search-has_call :
    (tm : CcTerm) (tbl : List Slot)
    → has_call tm.call_uid tbl ≡ true
    → (i : ℕ) × ((cc_server_call_search_call_uid tm tbl).1 ≡ some i)
unfolding cc_server_call_search_call_uid has_call
search-has_call tm [] h = cc
search-has_call tm (s ∷ ss) h = elim (Bool-cases (has_uid tm.call_uid s)) [
  | inl e ↦ (0, ground (arith, e))
  | inr e ↦
      let (i, f) = search-has_call tm ss (ground (arith, e, h)) in (suc i, ground (arith, e, f))
]

search-no_call :
    (tm : CcTerm) (tbl : List Slot)
    → has_call tm.call_uid tbl ≡ false
    → cc_server_call_search_call_uid tm tbl ≡ (tbl, none)
unfolding cc_server_call_search_call_uid has_call
search-no_call tm [] h = refl
search-no_call tm (s ∷ ss) h = ground (arith, h, search-no_call tm ss)

module _ (print_f : ℤ → Text) {W : Type 0} (api : MaxsecApi W) where
  abbrev ended : ℕ → CcTerm → Cc
  ended server tm = record cc_alloc {
    t = CcEvent.term_event;
    cdr_server_id = server;
    term = some tm;
  }

  -- The answer to the end of a call.
  term_answer :
      (tbl : List Slot) (server : ℕ) (tm : CcTerm)
      → (my_cc_comp_ack print_f (cc_term_f tbl (ended server tm)).1).0
        ≡ (if has_call tm.call_uid tbl then text "ok" else text "nok")
  unfolding my_cc_comp_ack cc_term_f
  term_answer tbl server tm = elim (Bool-cases (has_call tm.call_uid tbl)) [
    | inl here ↦ let (i, f) = search-has_call tm tbl here in rw (here, f) (ground arith)
    | inr gone ↦ rw (gone, search-no_call tm tbl gone) refl
  ]

  term_unknown :
      (tbl : List Slot) (server : ℕ) (tm : CcTerm)
      → has_call tm.call_uid tbl ≡ false
      → (cc_term_f tbl (ended server tm)).0 ≡ tbl
  unfolding cc_term_f
  term_unknown tbl server tm gone =
      rw (cc_term_f, search-no_call tm tbl gone) (ap (λ p. p.0) (search-no_call tm tbl gone))

  -- The line of a normal end of a call is answered with a line of the same server and transaction:
  -- with `ok` when a call in the table has the id, and else with `nok` and an unchanged table.
  pub my_cc_proto_bind-hangup :
      (now : ℕ) (w : W) (tbl : List Slot) (server transaction ts billsec duration : ℕ) (uid : Text)
      → server < 2 ^ 16
      → FitsWord transaction
      → FitsUid uid
      → FitsWord billsec
      → FitsWord duration
      → let r = hangup uid billsec duration in
        Gives
          (λ (w1, tbl1, ack).
            (w1 ≡ w)
            × (has_call uid tbl ≡ false → tbl1 ≡ tbl)
            × (ack
                ≡ my_cc_ack
                    (my_of now server transaction ts r)
                    (if has_call uid tbl then text "ok" else text "nok")))
          (my_cc_proto_bind print_f api now w tbl (request_text server transaction ts r))
  unfolding my_cc_proto_bind serve cc_event_manager ◌>>=◌ my_of cc_of
  my_cc_proto_bind-hangup now w tbl server transaction ts billsec duration uid s t a b d =
      let r = hangup uid billsec duration in
      let tm : CcTerm = record {
        status = CcTermStatus.normal_clear;
        call_uid = uid;
        billsec = billsec;
        duration = duration;
        tbl_idx = pos 0;
      } in
      let read = my_cc_parser-request_text now server transaction ts r s t (a, b, d) in
      rw read (
        _,
        refl,
        (
          refl,
          term_unknown tbl server tm,
          ap (my_cc_ack (my_of now server transaction ts r)) (term_answer tbl server tm),
        ),
      )
