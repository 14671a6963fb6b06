-- ===== src/JsonrpcCc.antt =====
-- mod/jsonrpc_cc/jsonrpc_cc.c: call control over JSON-RPC, from a request that json_rpc.c has read
-- to the reply that it writes; the errors are those of misc/exten/json_rpc.c. Allocation succeeds.
-- Freed memory is not modelled. What reads the value of a missing parameter has no result.
pub mod Peers
pub mod Tests
use rate_engine.Base.{
  ◌>>=◌, ℕ, ◌-◌, Bool, true, false, ◌&&◌, List, [], ◌∷◌, Option, none, some, if◌then◌else◌, ℤ, pos,
  negsuc, ltb_ℤ, leb_ℤ, ◌==ℤ◌, Text, text, text_eq, take, unsigned,
}
use rate_engine.CallControl.Table.{
  Cc, CcMaxsec, CcBalance, CcRate, CcCprice, CcTerm, CcTermStatus, CcEvent, Slot,
}
use rate_engine.CallControl.Events.{MaxsecApi, deactivate, cc_event_manager}
use rate_engine.MyCc.{cc_alloc, cc_clg_len, cc_call_uid}

-- `json_ext_obj_t` of a parameter of the method: its type, its name and its value, which is an
-- uninitialised pointer where the request has none. A `json_int` is an `int`.
pub data JsonExtObj : Type 0 where
  json_str : Text → Option Text → JsonExtObj
  json_ushrt : Text → Option ℕ → JsonExtObj
  json_int : Text → Option ℤ → JsonExtObj

-- `json_rpc_proto_get`: its return value, and what it read.
pub record Rpc : Type 0 where
  pub ret : ℤ
  pub is_request : Bool
  pub id : ℕ
  pub method : Option Text
  pub params : Option (List JsonExtObj)

-- The replies, with the id of the request.
pub data RpcReply : Type 0 where
  maxsec_result : ℤ → ℕ → RpcReply
  amount_result : ℤ → ℕ → RpcReply
  status_result : Text → ℕ → RpcReply
  error_result : ℤ → Text → ℕ → RpcReply

-- The errors of the module, and those of json_rpc.h that it sends.
abbrev pub jsonrpc_cc_err_max_nul : ℤ
jsonrpc_cc_err_max_nul = negsuc 50

abbrev pub jsonrpc_cc_err_event_unkn : ℤ
jsonrpc_cc_err_event_unkn = negsuc 58

abbrev pub jsonrpc_valid_invalid : ℤ
jsonrpc_valid_invalid = negsuc 11

abbrev pub jsonrpc_params_invalid : ℤ
jsonrpc_params_invalid = negsuc 20

-- An error of json_rpc.h with its code and its message.
unfoldable pub jsonrpc_errors : List (ℤ × ℤ × Text)
jsonrpc_errors =
    (negsuc 1, negsuc 32699, text "Parse error")
    ∷ (negsuc 0, negsuc 32699, text "Parse error")
    ∷ (negsuc 19, negsuc 32599, text "Invalid Request")
    ∷ (negsuc 12, negsuc 32599, text "Invalid Request")
    ∷ (negsuc 9, negsuc 32599, text "Invalid Request")
    ∷ (negsuc 10, negsuc 32600, text "Method not found")
    ∷ (negsuc 11, negsuc 32601, text "Invalid params")
    ∷ (negsuc 20, negsuc 32601, text "Invalid params")
    ∷ (negsuc 2, negsuc 32602, text "Internal error")
    ∷ (negsuc 3, negsuc 31999, text "Server error")
    ∷ (negsuc 5, negsuc 32000, text "Transaction object is NULL")
    ∷ (negsuc 6, negsuc 32001, text "No exist transaction")
    ∷ (negsuc 4, negsuc 32098, text "")
    ∷ []

-- `json_rpc_get_error`: an error that is not listed is the first one.
unfoldable pub find_error : ℤ → List (ℤ × ℤ × Text) → ℤ × Text
find_error error [] = (negsuc 32699, text "Parse error")
find_error error ((e, code, msg) ∷ errors) =
    let later = find_error error errors in if error ==ℤ e then (code, msg) else later

unfoldable pub json_rpc_proto_err_init : ℤ → ℕ → RpcReply
json_rpc_proto_err_init error id =
    let (code, msg) = find_error error jsonrpc_errors in error_result code msg id

-- `json_ext_find_obj` of a type and a name, and the value: no result stands for the pointer that
-- was not initialised.
unfoldable pub find_str : List JsonExtObj → Text → Option (Option Text)
find_str [] name = some none
find_str (json_str n v ∷ obj) name =
    let later = find_str obj name in if text_eq n name then (v >>= λ s. some (some s)) else later
find_str (json_ushrt n v ∷ obj) name = find_str obj name
find_str (json_int n v ∷ obj) name = find_str obj name

-- A number that the method does not have is 0.
unfoldable pub find_ushrt : List JsonExtObj → Text → Option ℕ
find_ushrt [] name = some 0
find_ushrt (json_str n v ∷ obj) name = find_ushrt obj name
find_ushrt (json_ushrt n v ∷ obj) name =
    let later = find_ushrt obj name in if text_eq n name then v else later
find_ushrt (json_int n v ∷ obj) name = find_ushrt obj name

unfoldable pub find_int : List JsonExtObj → Text → Option ℤ
find_int [] name = some (pos 0)
find_int (json_str n v ∷ obj) name = find_int obj name
find_int (json_ushrt n v ∷ obj) name = find_int obj name
find_int (json_int n v ∷ obj) name =
    let later = find_int obj name in if text_eq n name then v else later

-- Without parameters a text is NULL and a number is 0.
unfoldable pub jcc_pstr : Option (List JsonExtObj) → Text → Option (Option Text)
jcc_pstr none name = some none
jcc_pstr (some p) name = find_str p name

unfoldable pub jcc_pushrt : Option (List JsonExtObj) → Text → Option ℕ
jcc_pushrt none name = some 0
jcc_pushrt (some p) name = find_ushrt p name

unfoldable pub jcc_pint : Option (List JsonExtObj) → Text → Option ℤ
jcc_pint none name = some (pos 0)
jcc_pint (some p) name = find_int p name

-- `strncpy` of a parameter into a zeroed array, if it is there.
abbrev pub copied : ℕ → Option Text → Text
copied size none = []
copied size (some s) = take (size - 1) s

-- A status that is missing or unknown is `unkn_status`.
unfoldable pub status_of : Option Text → CcTermStatus
status_of none = CcTermStatus.unkn_status
status_of (some s) =
    if text_eq s (text "nc")
    then CcTermStatus.normal_clear
    else if text_eq s (text "c")
    then CcTermStatus.cancel
    else if text_eq s (text "b")
    then CcTermStatus.busy
    else if text_eq s (text "e")
    then CcTermStatus.error
    else CcTermStatus.unkn_status

-- The request of a method, or NULL for a method that is unknown; `now` is `time(NULL)`.
module _ (params : Option (List JsonExtObj)) (c : Cc) where
  abbrev text_param : ℕ → Text → Option Text
  text_param size name = jcc_pstr params name >>= λ s. some (copied size s)

  abbrev int_param : Text → Option ℕ
  int_param name = jcc_pint params name >>= λ n. some (unsigned 32 n)

  unfoldable pub build_maxsec : ℕ → Option Cc
  build_maxsec now = do
    clg ← text_param cc_clg_len (text "clg")
    cld ← text_param cc_clg_len (text "cld")
    call_uid ← text_param cc_call_uid (text "call-uid")
    some (record c {
      t = CcEvent.maxsec_event;
      max = some (record { clg = clg; cld = cld; call_uid = call_uid; ts = now; maxsec = pos 0 });
    })

  unfoldable pub build_balance : Option Cc
  build_balance = do
    clg ← text_param cc_clg_len (text "clg")
    some (record c { t = CcEvent.balance_event; bal = some (record { clg = clg; amount = pos 0 }) })

  unfoldable pub build_rate : Option Cc
  build_rate = do
    clg ← text_param cc_clg_len (text "clg")
    cld ← text_param cc_clg_len (text "cld")
    some (record c {
      t = CcEvent.rate_event;
      rate = some (record { clg = clg; cld = cld; rate_price = pos 0 });
    })

  unfoldable pub build_cprice : Option Cc
  build_cprice = do
    clg ← text_param cc_clg_len (text "clg")
    cld ← text_param cc_clg_len (text "cld")
    billsec ← int_param (text "billsec")
    some (record c {
      t = CcEvent.cprice_event;
      cprice = some (record { clg = clg; cld = cld; billsec = billsec; cprice = pos 0 });
    })

  unfoldable pub build_term : Option Cc
  build_term = do
    status ← jcc_pstr params (text "status")
    call_uid ← text_param cc_call_uid (text "call-uid")
    billsec ← int_param (text "billsec")
    duration ← int_param (text "duration")
    some (record c {
      t = CcEvent.term_event;
      term = some (record {
        status = status_of status;
        call_uid = call_uid;
        billsec = billsec;
        duration = duration;
        tbl_idx = pos 0;
      });
    })

  unfoldable pub build_method : ℕ → Text → Option (Option Cc)
  build_method now method =
      let built = λ (o : Option Cc). o >>= λ c1. some (some c1) in
      if text_eq method (text "maxsec")
      then built (build_maxsec now)
      else if text_eq method (text "balance")
      then built build_balance
      else if text_eq method (text "rate")
      then built build_rate
      else if text_eq method (text "cprice")
      then built build_cprice
      else if text_eq method (text "term")
      then built build_term
      else if text_eq method (text "state")
      then some (some (record c { t = CcEvent.status_event }))
      else some none

unfoldable pub jsonrpc_cc_build_cc : ℕ → Option Text → Option (List JsonExtObj) → Option (Option Cc)
jsonrpc_cc_build_cc now none params = some none
jsonrpc_cc_build_cc now (some method) params = do
  server ← jcc_pushrt params (text "cdr_server_id")
  build_method params (record cc_alloc { cdr_server_id = server }) now method

-- The reply, and the request, which may be no longer active.
unfoldable pub jsonrpc_cc_comp_resp : Cc → ℕ → RpcReply × Cc
jsonrpc_cc_comp_resp c id = elim c.t [
  | CcEvent.maxsec_event ↦ elim c.max [
    | none ↦ (maxsec_result jsonrpc_cc_err_max_nul id, deactivate c)
    | some m ↦ (maxsec_result m.maxsec id, if leb_ℤ m.maxsec (pos 0) then deactivate c else c)
  ]
  | CcEvent.balance_event ↦
      (amount_result (elim c.bal [ none ↦ pos 0 | some b ↦ b.amount ]) id, deactivate c)
  | CcEvent.rate_event ↦
      (amount_result (elim c.rate [ none ↦ pos 0 | some r ↦ r.rate_price ]) id, deactivate c)
  | CcEvent.cprice_event ↦
      (amount_result (elim c.cprice [ none ↦ pos 0 | some p ↦ p.cprice ]) id, deactivate c)
  | CcEvent.term_event ↦ elim c.term [
    | none ↦ (status_result (text "nok") id, deactivate c)
    | some tm ↦
        if ltb_ℤ tm.tbl_idx (pos 0)
        then (status_result (text "nok") id, deactivate c)
        else (status_result (text "ok") id, c)
  ]
  | CcEvent.status_event ↦ (status_result (text "idle") id, deactivate c)
  | CcEvent.unkn_event ↦ (json_rpc_proto_err_init jsonrpc_cc_err_event_unkn id, deactivate c)
]

module _ {W : Type 0} (api : MaxsecApi W) where
  unfoldable pub serve_cc : W → List Slot → ℕ → Option Cc → Option (W × List Slot × RpcReply)
  serve_cc w tbl id none = some (w, tbl, json_rpc_proto_err_init jsonrpc_params_invalid id)
  serve_cc w tbl id (some c) = do
    (w1, reply) ← cc_event_manager api w tbl c
    some (w1, reply.0, (jsonrpc_cc_comp_resp reply.1 id).0)

  unfoldable pub jsonrpc_cc_proto_bind : ℕ → W → List Slot → Rpc → Option (W × List Slot × RpcReply)
  jsonrpc_cc_proto_bind now w tbl rpc =
      let served =
        jsonrpc_cc_build_cc now rpc.method rpc.params >>= λ built. serve_cc w tbl rpc.id built in
      let error = if ltb_ℤ rpc.ret (pos 0) then rpc.ret else jsonrpc_valid_invalid in
      if (rpc.ret ==ℤ pos 0) && rpc.is_request
      then served
      else some (w, tbl, json_rpc_proto_err_init error rpc.id)
