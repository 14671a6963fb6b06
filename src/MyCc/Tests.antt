-- ===== src/MyCc/Tests.antt =====
-- The theorems on the protocol, at small lines.
use rate_engine.Base.{
  ◌≡◌, refl, false, ◌++◌, arith, ℤ, pos, negsuc, Text, text, Gives, strtok_all, split_from,
  push_token, is_sep, print_d, emit, join, text_eq,
}
use rate_engine.CallControl.Events.{rt_api}
use rate_engine.MyCc.{my_request, my_cc_parser}
use rate_engine.MyCc.Serve.{my_cc_ack, my_cc_proto_bind}
use rate_engine.MyCc.Requests.{
  maxsec, hangup, request_text, my_of, my_cc_parser-request_text, command_of, args_of,
}
use rate_engine.MyCc.Answers.{IsReply, my_cc_proto_bind-answers}
use rate_engine.MyCc.Hangup.{has_call, my_cc_proto_bind-hangup}
use rate_engine.Online.{host, world, table, ended_table}

-- `%f` of an amount in whole units.
abbrev print_f : ℤ → Text
print_f (pos n) = print_d n ++ text ".000000"
print_f (negsuc n) = text "-1.000000"

line_test :
    request_text 1 7 900 (maxsec (text "200") (text "359") (text "u1"))
    ≡ text "1,7,maxsec,900,200,359,u1"
unfolding request_text join command_of args_of print_d emit
line_test = refl

my_cc_parser-request_text_example :
    my_cc_parser 901 (request_text 1 7 900 (maxsec (text "200") (text "359") (text "u1")))
    ≡ my_request (my_of 901 1 7 900 (maxsec (text "200") (text "359") (text "u1")))
unfolding is_sep
my_cc_parser-request_text_example =
    my_cc_parser-request_text 901 1 7 900 (maxsec (text "200") (text "359") (text "u1"))
      (omega arith) (omega arith)
      (
        ((refl, (refl, (refl, (refl, tt)))), omega arith),
        ((refl, (refl, (refl, (refl, tt)))), omega arith),
        ((refl, (refl, (refl, tt))), omega arith),
      )

my_cc_proto_bind-answers_example :
    Gives
      (IsReply (rt_api (host 0)) print_f world table (my_cc_parser 901 (text "1,7,rate,900,200")))
      (my_cc_proto_bind print_f (rt_api (host 0)) 901 world table (text "1,7,rate,900,200"))
unfolding strtok_all split_from push_token is_sep text_eq
my_cc_proto_bind-answers_example =
    my_cc_proto_bind-answers (rt_api (host 0)) print_f 901 world table (text "1,7,rate,900,200")
      (omega arith, omega arith)

my_cc_proto_bind-hangup_example :
    Gives
      (λ (w1, tbl1, ack).
        (w1 ≡ world)
        × (has_call (text "u1") ended_table ≡ false → tbl1 ≡ ended_table)
        × (ack ≡ my_cc_ack (my_of 901 1 7 900 (hangup (text "u1") 61 70)) (text "ok")))
      (my_cc_proto_bind print_f
        (rt_api (host 0))
        901
        world
        ended_table
        (request_text 1 7 900 (hangup (text "u1") 61 70)))
unfolding is_sep has_call text_eq
my_cc_proto_bind-hangup_example =
    my_cc_proto_bind-hangup print_f (rt_api (host 0)) 901 world ended_table 1 7 900 61 70
      (text "u1") (omega arith) (omega arith) ((refl, (refl, (refl, tt))), omega arith)
      (omega arith) (omega arith)
