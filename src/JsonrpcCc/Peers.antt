-- ===== src/JsonrpcCc/Peers.antt =====
-- The two protocols of call control: jsonrpc_cc.c against my_cc.c.
use rate_engine.Base.{
  ◌>>=◌, ℕ, ◌<◌, ◌^◌, ◌≡◌, refl, true, List, [], ◌∷◌, Option, none, some, arith, ℤ, pos, Text, text,
  text_eq, take-all, unsigned, Option-cases, inl, inr,
}
use rate_engine.CallControl.Table.{CcTermStatus, Slot}
use rate_engine.CallControl.Events.{MaxsecApi, cc_event_manager}
use rate_engine.MyCc.{MyCc, my_request}
use rate_engine.MyCc.Serve.{serve, my_cc_proto_bind}
use rate_engine.MyCc.Requests.{
  Request, status, maxsec, balance, rate, cprice, hangup, failed, FitsRequest, FitsWord, IsFailure,
  status_code, cc_of, my_of, request_text, my_cc_parser-request_text,
}
use rate_engine.JsonrpcCc.{
  JsonExtObj, json_str, json_ushrt, json_int, Rpc, find_str, find_ushrt, find_int, jcc_pstr,
  jcc_pushrt, jcc_pint, status_of, build_maxsec, build_balance, build_rate, build_cprice,
  build_term, build_method, jsonrpc_cc_build_cc, serve_cc, jsonrpc_cc_proto_bind,
}

-- The method and the parameters of a request, in the order of the prototypes of the module; a call
-- that failed has no seconds.
unfoldable pub method_of : Request → Text
method_of status = text "state"
method_of (maxsec clg cld call_uid) = text "maxsec"
method_of (balance clg) = text "balance"
method_of (rate clg cld) = text "rate"
method_of (cprice clg cld billsec) = text "cprice"
method_of (hangup call_uid billsec duration) = text "term"
method_of (failed s call_uid) = text "term"

abbrev server_param : ℕ → JsonExtObj
server_param server = json_ushrt (text "cdr_server_id") (some server)

unfoldable pub params_of : ℕ → Request → List JsonExtObj
params_of server status = server_param server ∷ []
params_of server (maxsec clg cld call_uid) =
    server_param server
    ∷ json_str (text "call-uid") (some call_uid)
    ∷ json_str (text "clg") (some clg)
    ∷ json_str (text "cld") (some cld)
    ∷ []
params_of server (balance clg) = server_param server ∷ json_str (text "clg") (some clg) ∷ []
params_of server (rate clg cld) =
    server_param server ∷ json_str (text "clg") (some clg) ∷ json_str (text "cld") (some cld) ∷ []
params_of server (cprice clg cld billsec) =
    server_param server
    ∷ json_str (text "clg") (some clg)
    ∷ json_str (text "cld") (some cld)
    ∷ json_int (text "billsec") (some (pos billsec))
    ∷ []
params_of server (hangup call_uid billsec duration) =
    server_param server
    ∷ json_str (text "call-uid") (some call_uid)
    ∷ json_str (text "status") (some (text "nc"))
    ∷ json_int (text "billsec") (some (pos billsec))
    ∷ json_int (text "duration") (some (pos duration))
    ∷ []
params_of server (failed s call_uid) =
    server_param server
    ∷ json_str (text "call-uid") (some call_uid)
    ∷ json_str (text "status") (some (status_code s))
    ∷ json_int (text "billsec") (some (pos 0))
    ∷ json_int (text "duration") (some (pos 0))
    ∷ []

-- The seconds are those of an `int`.
unfoldable pub FitsInt : Request → Type 0
FitsInt status = Unit
FitsInt (maxsec clg cld call_uid) = Unit
FitsInt (balance clg) = Unit
FitsInt (rate clg cld) = Unit
FitsInt (cprice clg cld billsec) = billsec < 2 ^ 31
FitsInt (hangup call_uid billsec duration) = (billsec < 2 ^ 31) × (duration < 2 ^ 31)
FitsInt (failed s call_uid) = Unit

unfoldable pub rpc_of : ℕ → ℕ → Request → Rpc
rpc_of server id r = record {
  ret = pos 0;
  is_request = true;
  id = id;
  method = some (method_of r);
  params = some (params_of server r);
}

status_of-code : (s : CcTermStatus) → IsFailure s → status_of (some (status_code s)) ≡ s
unfolding status_of status_code text_eq
status_of-code CcTermStatus.unkn_status h = refl
status_of-code CcTermStatus.normal_clear h = elim h [ ]
status_of-code CcTermStatus.busy h = refl
status_of-code CcTermStatus.cancel h = refl
status_of-code CcTermStatus.error h = refl

word : (n : ℕ) → FitsWord n → unsigned 32 (pos n) ≡ n
unfolding unsigned
word n h = omega (arith, h)

-- The request that is passed on is that of the other protocol.
build_cc-params_of :
    (now server : ℕ) (r : Request)
    → FitsRequest r
    → jsonrpc_cc_build_cc now (some (method_of r)) (some (params_of server r))
      ≡ some (some (cc_of now server r))
unfolding jsonrpc_cc_build_cc build_method method_of params_of jcc_pstr jcc_pushrt jcc_pint find_str
    find_ushrt find_int text_eq status_code status_of cc_of ◌>>=◌ build_maxsec build_balance
    build_rate build_cprice build_term
build_cc-params_of now server status h = refl
build_cc-params_of now server (maxsec clg cld uid) (a, b, c) =
    rw (take-all clg 31 a.1, take-all cld 31 b.1, take-all uid 127 c.1) refl
build_cc-params_of now server (balance clg) h = rw (take-all clg 31 h.1) refl
build_cc-params_of now server (rate clg cld) (a, b) =
    rw (take-all clg 31 a.1, take-all cld 31 b.1) refl
build_cc-params_of now server (cprice clg cld billsec) (a, b, c) =
    rw (take-all clg 31 a.1, take-all cld 31 b.1, word billsec c) refl
build_cc-params_of now server (hangup uid billsec duration) (a, b, c) =
    rw (take-all uid 127 a.1, word billsec b, word duration c) refl
build_cc-params_of now server (failed s uid) (f, a) =
    rw (status_of-code s f, take-all uid 127 a.1, word 0 (omega arith)) refl

-- The world and the table after a request, or no result.
unfoldable pub kept : {W A : Type 0} → Option (W × List Slot × A) → Option (W × List Slot)
kept none = none
kept (some (w, tbl, reply)) = some (w, tbl)

module _ {W : Type 0} (api : MaxsecApi W) (print_f : ℤ → Text) where
  serve-kept :
      (w : W) (tbl : List Slot) (id : ℕ) (my : MyCc)
      → kept (serve_cc api w tbl id (some my.cc)) ≡ kept (serve print_f api w tbl (my_request my))
  unfolding serve_cc serve ◌>>=◌ kept
  serve-kept w tbl id my = elim (Option-cases (cc_event_manager api w tbl my.cc)) [
    | inl e ↦ rw e refl
    | inr (r, e) ↦ rw e refl
  ]

  -- The two protocols are peers: a request over JSON-RPC that has all the parameters of its method,
  -- and the line of the same request, made at the same time and from the same state, leave call
  -- control in the same state, or both without a result, when the arguments fit the fields and are
  -- what the line can carry, and the seconds are those of an `int`.
  pub jsonrpc_cc_proto_bind-peer :
      (now : ℕ) (w : W) (tbl : List Slot) (server id ts : ℕ) (r : Request)
      → server < 2 ^ 16
      → FitsWord id
      → FitsRequest r
      → FitsInt r
      → kept (jsonrpc_cc_proto_bind api now w tbl (rpc_of server id r))
        ≡ kept (my_cc_proto_bind print_f api now w tbl (request_text server id ts r))
  unfolding jsonrpc_cc_proto_bind my_cc_proto_bind rpc_of my_of ◌>>=◌
  jsonrpc_cc_proto_bind-peer now w tbl server id ts r s t h int =
      rw (build_cc-params_of now server r h, my_cc_parser-request_text now server id ts r s t h)
        (serve-kept w tbl id (my_of now server id ts r))
