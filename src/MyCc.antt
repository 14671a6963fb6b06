-- ===== src/MyCc.antt =====
-- mod/my_cc/my_cc.c: the text protocol of call control, from the bytes of a request to the bytes of
-- its reply. Allocation succeeds. Freed memory is not modelled.
pub mod Serve
pub mod Requests
pub mod Served
pub mod Answers
pub mod Hangup
pub mod Tests
use rate_engine.Base.{
  ◌>>=◌, ℕ, suc, ◌-◌, ◌^◌, Bool, true, false, List, [], ◌∷◌, ◌++◌, Option, none, some, ltb,
  if◌then◌else◌, ℤ, pos, negsuc, ltb_ℤ, Text, text, text_eq, length, strtok_all, atoi, unsigned,
  print_d,
}
use rate_engine.CallControl.Table.{
  Cc, CcMaxsec, CcBalance, CcRate, CcCprice, CcTerm, CcTermStatus, CcEvent, Slot,
}
use rate_engine.CallControl.Events.{MaxsecApi, deactivate, cc_event_manager}

-- MY_CC_SEPARATOR and the sizes of the fields of my_cc.h and cc.h.
abbrev pub separator : Text
separator = b',' ∷ []

abbrev pub my_cc_comm_len : ℕ
my_cc_comm_len = 16

abbrev pub cc_clg_len : ℕ
cc_clg_len = 32

abbrev pub cc_call_uid : ℕ
cc_call_uid = 128

-- `my_cc_t`; `cc_ptr` is never NULL.
pub record MyCc : Type 0 where
  pub cdr_server_id : ℕ
  pub transaction_id : ℕ
  pub command : Text
  pub timestamp : ℤ
  pub cc : Cc

-- The parser gives a request, or NULL, or copies a field past the end of its array.
pub data Parsed : Type 0 where
  my_request : MyCc → Parsed
  null : Parsed
  overrun : Parsed

-- `cc_alloc`.
abbrev pub cc_alloc : Cc
cc_alloc = record {
  cdr_server_id = 0;
  t = CcEvent.unkn_event;
  max = none;
  bal = none;
  rate = none;
  cprice = none;
  term = none;
  is_active = true;
}

-- `strcpy` into an array of `size` bytes, and what follows it.
unfoldable pub strcpy_then : ℕ → Text → Parsed → Parsed
strcpy_then size txt k = if ltb (length txt) size then k else overrun

-- The request as a request for the event `t`.
abbrev pub with_event : CcEvent → MyCc → Cc
with_event t my = record (my.cc) { t = t; cdr_server_id = my.cdr_server_id }

-- The fields of each command, and NULL when one is missing.
unfoldable pub parse_maxsec : ℕ → MyCc → List Text → Parsed
parse_maxsec now my [] = null
parse_maxsec now my (clg ∷ []) = strcpy_then cc_clg_len clg null
parse_maxsec now my (clg ∷ cld ∷ []) = strcpy_then cc_clg_len clg (strcpy_then cc_clg_len cld null)
parse_maxsec now my (clg ∷ cld ∷ call_uid ∷ rest) = strcpy_then cc_clg_len clg (
    strcpy_then cc_clg_len cld (
      strcpy_then cc_call_uid call_uid (
        my_request (record my {
          cc = record (with_event CcEvent.maxsec_event my) {
            max =
                some
                  (record { clg = clg; cld = cld; call_uid = call_uid; ts = now; maxsec = pos 0 });
          };
        }))))

unfoldable pub parse_rate : MyCc → List Text → Parsed
parse_rate my [] = null
parse_rate my (clg ∷ []) = strcpy_then cc_clg_len clg null
parse_rate my (clg ∷ cld ∷ rest) = strcpy_then cc_clg_len clg (
    strcpy_then cc_clg_len cld (
      my_request (record my {
        cc = record (with_event CcEvent.rate_event my) {
          rate = some (record { clg = clg; cld = cld; rate_price = pos 0 });
        };
      })))

unfoldable pub parse_balance : MyCc → List Text → Parsed
parse_balance my [] = null
parse_balance my (clg ∷ rest) = strcpy_then cc_clg_len clg (
    my_request (record my {
      cc = record (with_event CcEvent.balance_event my) {
        bal = some (record { clg = clg; amount = pos 0 });
      };
    }))

unfoldable pub parse_cprice : MyCc → List Text → Parsed
parse_cprice my [] = null
parse_cprice my (clg ∷ []) = strcpy_then cc_clg_len clg null
parse_cprice my (clg ∷ cld ∷ []) = strcpy_then cc_clg_len clg (strcpy_then cc_clg_len cld null)
parse_cprice my (clg ∷ cld ∷ billsec ∷ rest) = strcpy_then cc_clg_len clg (
    strcpy_then cc_clg_len cld (
      my_request (record my {
        cc = record (with_event CcEvent.cprice_event my) {
          cprice = some (record {
            clg = clg;
            cld = cld;
            billsec = unsigned 32 (atoi billsec);
            cprice = pos 0;
          });
        };
      })))

-- MY_CC_TERM_NC and the others.
unfoldable pub term_status : Text → CcTermStatus
term_status buf =
    if text_eq buf (text "nc")
    then CcTermStatus.normal_clear
    else if text_eq buf (text "c")
    then CcTermStatus.cancel
    else if text_eq buf (text "b")
    then CcTermStatus.busy
    else if text_eq buf (text "e")
    then CcTermStatus.error
    else CcTermStatus.unkn_status

abbrev pub terminated : MyCc → CcTerm → Parsed
terminated my tm =
    my_request (record my { cc = record (with_event CcEvent.term_event my) { term = some tm } })

-- A normal end has the seconds, too.
unfoldable pub parse_seconds : MyCc → CcTerm → List Text → Parsed
parse_seconds my tm (billsec ∷ duration ∷ rest) =
    terminated my
      (record tm { billsec = unsigned 32 (atoi billsec); duration = unsigned 32 (atoi duration) })
parse_seconds my tm (billsec ∷ []) = null
parse_seconds my tm [] = null

unfoldable pub parse_end : MyCc → CcTerm → List Text → Parsed
parse_end my tm rest = elim tm.status [
  | CcTermStatus.normal_clear ↦ parse_seconds my tm rest
  | CcTermStatus.unkn_status ↦ terminated my tm
  | CcTermStatus.busy ↦ terminated my tm
  | CcTermStatus.cancel ↦ terminated my tm
  | CcTermStatus.error ↦ terminated my tm
]

unfoldable pub parse_term : MyCc → List Text → Parsed
parse_term my [] = null
parse_term my (status ∷ []) = null
parse_term my (status ∷ call_uid ∷ rest) = strcpy_then cc_call_uid call_uid (
    parse_end my
      (record {
        status = term_status status;
        call_uid = call_uid;
        billsec = 0;
        duration = 0;
        tbl_idx = pos 0;
      })
      rest)

-- Any other command is freed.
unfoldable pub parse_command : ℕ → MyCc → List Text → Parsed
parse_command now my args =
    if text_eq my.command (text "status")
    then my_request (record my { cc = with_event CcEvent.status_event my })
    else if text_eq my.command (text "maxsec")
    then parse_maxsec now my args
    else if text_eq my.command (text "rate")
    then parse_rate my args
    else if text_eq my.command (text "balance")
    then parse_balance my args
    else if text_eq my.command (text "cprice")
    then parse_cprice my args
    else if text_eq my.command (text "term")
    then parse_term my args
    else null

unfoldable pub parse_timestamp : ℕ → MyCc → List Text → Parsed
parse_timestamp now my [] = null
parse_timestamp now my (timestamp ∷ args) =
    parse_command now (record my { timestamp = atoi timestamp }) args

unfoldable pub parse_head : ℕ → List Text → Parsed
parse_head now [] = null
parse_head now (server ∷ []) = null
parse_head now (server ∷ transaction ∷ []) = null
parse_head now (server ∷ transaction ∷ command ∷ rest) = strcpy_then my_cc_comm_len command (
    parse_timestamp now
      (record {
        cdr_server_id = unsigned 16 (atoi server);
        transaction_id = unsigned 32 (atoi transaction);
        command = command;
        timestamp = pos 0;
        cc = cc_alloc;
      })
      rest)

-- `now` is `time(NULL)`.
unfoldable pub my_cc_parser : ℕ → Text → Parsed
my_cc_parser now buffer = parse_head now (strtok_all separator buffer)
