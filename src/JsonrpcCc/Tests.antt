-- ===== src/JsonrpcCc/Tests.antt =====
-- Requests over JSON-RPC, at a small table.
use rate_engine.Base.{
  ◌≡◌, refl, false, ◌++◌, none, some, arith, ℤ, pos, negsuc, Text, text, print_d, is_sep,
}
use rate_engine.CallControl.Events.{rt_api}
use rate_engine.MyCc.Serve.{my_cc_proto_bind}
use rate_engine.MyCc.Requests.{maxsec, request_text}
use rate_engine.JsonrpcCc.{
  Rpc, error_result, jsonrpc_cc_proto_bind, json_rpc_proto_err_init, find_error, jsonrpc_errors,
}
use rate_engine.JsonrpcCc.Peers.{rpc_of, kept, FitsInt, jsonrpc_cc_proto_bind-peer}
use rate_engine.Online.{host, world, table}

abbrev print_f : ℤ → Text
print_f (pos n) = print_d n ++ text ".000000"
print_f (negsuc n) = text "-1.000000"

-- A text that is no JSON.
abbrev unread : Rpc
unread = record { ret = negsuc 0; is_request = false; id = 0; method = none; params = none }

unread_test :
    jsonrpc_cc_proto_bind (rt_api (host 0)) 901 world table unread
    ≡ some (world, table, error_result (negsuc 32699) (text "Parse error") 0)
unfolding jsonrpc_cc_proto_bind json_rpc_proto_err_init find_error jsonrpc_errors
unread_test = refl

jsonrpc_cc_proto_bind-peer_example :
    kept (
      jsonrpc_cc_proto_bind
        (rt_api (host 0))
        901
        world
        table
        (rpc_of 1 7 (maxsec (text "200") (text "359") (text "u1"))))
    ≡ kept (
        my_cc_proto_bind print_f
          (rt_api (host 0))
          901
          world
          table
          (request_text 1 7 900 (maxsec (text "200") (text "359") (text "u1"))))
unfolding is_sep FitsInt
jsonrpc_cc_proto_bind-peer_example =
    jsonrpc_cc_proto_bind-peer (rt_api (host 0)) print_f 901 world table 1 7 900
      (maxsec (text "200") (text "359") (text "u1")) (omega arith) (omega arith)
      (
        ((refl, (refl, (refl, (refl, tt)))), omega arith),
        ((refl, (refl, (refl, (refl, tt)))), omega arith),
        ((refl, (refl, (refl, tt))), omega arith),
      )
      tt
