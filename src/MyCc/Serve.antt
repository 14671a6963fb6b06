-- ===== src/MyCc/Serve.antt =====
-- mod/my_cc/my_cc.c: the answer to a request, and my_cc_proto_bind.
use rate_engine.Base.{
  ◌>>=◌, ℕ, suc, List, ◌∷◌, ◌++◌, Option, none, some, if◌then◌else◌, ℤ, pos, negsuc, ltb_ℤ, Text,
  text, print_d, print_unsigned,
}
use rate_engine.CallControl.Table.{Cc, CcEvent, Slot}
use rate_engine.CallControl.Events.{MaxsecApi, deactivate, cc_event_manager}
use rate_engine.MyCc.{MyCc, Parsed, my_request, null, overrun, my_cc_parser}

-- `%d` of an `int`, and of an `unsigned int`.
unfoldable pub print_int : ℤ → Text
print_int (pos n) = print_d n
print_int (negsuc n) = b'-' ∷ print_d (suc n)

unfoldable pub my_cc_ack : MyCc → Text → Text
my_cc_ack my answer =
    print_d my.cdr_server_id ++ b',' ∷ print_unsigned my.transaction_id ++ b',' ∷ answer

-- `print_f` is `%f`.
module _ (print_f : ℤ → Text) where
  -- The answer, and the request, which may be no longer active.
  unfoldable pub my_cc_comp_ack : Cc → Text × Cc
  my_cc_comp_ack c = elim c.t [
    | CcEvent.maxsec_event ↦ elim c.max [
      | none ↦ (text "error", deactivate c)
      | some m ↦ (print_int m.maxsec, if ltb_ℤ m.maxsec (pos 0) then deactivate c else c)
    ]
    | CcEvent.balance_event ↦
        (elim c.bal [ none ↦ text "error" | some b ↦ print_f b.amount ], deactivate c)
    | CcEvent.rate_event ↦
        (elim c.rate [ none ↦ text "error" | some r ↦ print_f r.rate_price ], deactivate c)
    | CcEvent.term_event ↦ elim c.term [
      | none ↦ (text "error", deactivate c)
      | some tm ↦ if ltb_ℤ tm.tbl_idx (pos 0) then (text "nok", deactivate c) else (text "ok", c)
    ]
    | CcEvent.cprice_event ↦ (text "ok", deactivate c)
    | CcEvent.status_event ↦ (text "ok", deactivate c)
    | CcEvent.unkn_event ↦ (text "empty", deactivate c)
  ]

  module _ {W : Type 0} (api : MaxsecApi W) where
    -- A request on its way through call control.
    unfoldable pub serve : W → List Slot → Parsed → Option (W × List Slot × Text)
    serve w tbl (my_request my) = do
      (w1, reply) ← cc_event_manager api w tbl my.cc
      some (w1, reply.0, my_cc_ack my (my_cc_comp_ack reply.1).0)
    serve w tbl null = some (w, tbl, text "error")
    serve w tbl overrun = none

    -- The buffer after the call. No result stands for memory that is overwritten.
    unfoldable pub my_cc_proto_bind : ℕ → W → List Slot → Text → Option (W × List Slot × Text)
    my_cc_proto_bind now w tbl buf = serve w tbl (my_cc_parser now buf)
