-- ===== src/CallControl/Sweep.antt =====
-- The thread of cc_server.c that ends calls: it bills those that were terminated normally, through
-- the CDR mediator and rt_api, and clears them and those that are too old.
use rate_engine.Base.{
  ℕ, ◌+◌, ◌-◌, ◌%◌, ◌^◌, Bool, true, false, List, [], ◌∷◌, none, some, ltb, if◌then◌else◌, ℤ, pos,
  ltb_ℤ, Text,
}
use rate_engine.Rating.Mode.{clg}
use rate_engine.CdrMediator.RecType.{voip_a}
use rate_engine.CdrMediator.Cdr.{Cdr, zero_cdr}
use rate_engine.Rating.Data.{Call, Racc}
use rate_engine.CallControl.Table.{Cc, CcMaxsec, CcTerm, CcTermStatus, Slot, cc_server_call_clear}

-- `cc_cdrm_api`, `rt_api.exec` for leg a, `convert_epoch_to_ts` and `call_maxsec_limit`.
pub record Billing (W : Type 0) : Type 0 where
  pub add_cdr : W → Cdr → W × Bool
  pub get_cdr_id : W → Cdr → ℤ
  pub exec : W → Racc → W
  pub epoch_to_ts : ℕ → Text
  pub call_maxsec_limit : ℕ

-- CALL_MAXSEC_LIMIT_WAIT.
abbrev pub call_maxsec_limit_wait : ℕ
call_maxsec_limit_wait = 90

abbrev is_normal_clear : CcTerm → Bool
is_normal_clear tm = elim tm.status [ CcTermStatus.normal_clear ↦ true | _ ↦ false ]

abbrev with_call : Racc → Call → Racc
with_call rtp pre = record rtp { call = pre }

module _ {W : Type 0} (billing : Billing W) where
  unfoldable pub cdr_of : Cc → CcMaxsec → Racc → CcTerm → Cdr
  cdr_of c m rtp tm = record zero_cdr {
    cdr_server_id = rtp.call.cdr_server_id;
    cdr_rec_type_id = voip_a;
    call_uid = tm.call_uid;
    start_ts = rtp.call.timestamp;
    start_epoch = rtp.call.ts;
    calling_number = m.clg;
    called_number = m.cld;
    billsec = tm.billsec;
    duration = tm.duration;
  }

  -- The id of the new record, 0 when it was not added.
  unfoldable pub cc_server_add_cdr : W → Cc → CcMaxsec → Racc → CcTerm → W × Racc
  cc_server_add_cdr w c m rtp tm =
      let cdr = cdr_of c m rtp tm in
      let (added, ok) = billing.add_cdr w cdr in
      (
        added,
        with_call rtp
            (record (rtp.call) { cdr_id = if ok then billing.get_cdr_id added cdr else pos 0 }),
      )

  unfoldable pub cc_call_rating : W → Racc → CcTerm → W
  cc_call_rating w rtp tm =
      billing.exec w
        (with_call rtp (record (rtp.call) { rating_mode_id = clg; billsec = pos tm.billsec }))

  -- A call that was terminated normally. A stored call has its request, since `cc_maxsec_f` stores
  -- no other.
  unfoldable pub settle : W → Cc → CcMaxsec → Racc → CcTerm → W
  settle w c m rtp tm =
      let stamped =
        with_call rtp (record (rtp.call) { timestamp = billing.epoch_to_ts rtp.call.ts }) in
      let (added, recorded) =
        if ltb 0 tm.billsec then cc_server_add_cdr w c m stamped tm else (w, stamped) in
      if ltb_ℤ (pos 0) recorded.call.cdr_id then cc_call_rating added recorded tm else added

  unfoldable pub settle_slot : W → Slot → W
  settle_slot w s = elim s.cc [
    | none ↦ w
    | some c ↦ elim c.term [
      | none ↦ w
      | some tm ↦ elim c.max [
        | none ↦ w
        | some m ↦ elim s.rtp [
          | none ↦ w
          | some rtp ↦ if is_normal_clear tm then settle w c m rtp tm else w
        ]
      ]
    ]
  ]

  -- Was the call terminated, or asked for longer ago than any call may last?
  unfoldable pub is_over : ℕ → Slot → Bool
  is_over now s = elim s.cc [
    | none ↦ false
    | some c ↦ elim c.term [
      | some tm ↦ true
      | none ↦ elim c.max [
        | none ↦ false
        | some m ↦ ltb (m.ts + (billing.call_maxsec_limit + call_maxsec_limit_wait)) now
      ]
    ]
  ]

  abbrev pub is_used : Slot → Bool
  is_used s = elim s.cc [ none ↦ false | some c ↦ true ]

  -- `cc_server_sim` after a slot: an unsigned short, taken down by one for a call that is cleared
  -- and then up by one.
  unfoldable pub counted : ℕ → ℕ → Slot → ℕ
  counted now sim s =
      let less = if is_over now s then (sim + (2 ^ 16 - 1)) % 2 ^ 16 else sim in
      if is_used s then (less + 1) % 2 ^ 16 else less

  unfoldable pub sweep_loop : ℕ → W → ℕ → List Slot → List Slot × W × ℕ
  sweep_loop now w sim [] = ([], w, sim)
  sweep_loop now w sim (s ∷ ss) =
      let (rest, settled, total) = sweep_loop now (settle_slot w s) (counted now sim s) ss in
      ((if is_over now s then cc_server_call_clear s else s) ∷ rest, settled, total)

  -- One pass over the table: the table, the world and `cc_server_sim`.
  unfoldable pub sweep : ℕ → W → List Slot → List Slot × W × ℕ
  sweep now w tbl = sweep_loop now w 0 tbl
