-- ===== src/MyCc/Requests.antt =====
-- The texts of the requests, as the clients of the protocol write them (clients/my_cc/php), and how
-- the server reads them.
use rate_engine.Base.{
  ℕ, ◌<◌, ◌^◌, ◌≡◌, refl, true, false, List, [], ◌∷◌, some, arith, pos, Text, text, length,
  strtok_all, strtok_all-join, join, is_sep, IsField, All, atoi, unsigned, print_d,
  unsigned-atoi-print_d, ltb, text_eq, zero, suc, ◌+◌, ◌%◌, ◌/◌, emit, NoSep, if_ind,
}
use rate_engine.CallControl.Table.{Cc, CcEvent, CcTerm, CcTermStatus}
use rate_engine.MyCc.{
  MyCc, my_request, separator, cc_alloc, my_cc_parser, parse_head, parse_timestamp, parse_command,
  parse_maxsec, parse_balance, parse_rate, parse_cprice, parse_term, parse_end, parse_seconds,
  term_status, terminated, strcpy_then,
}

-- What a client asks.
pub data Request : Type 0 where
  status : Request
  maxsec : Text → Text → Text → Request
  balance : Text → Request
  rate : Text → Text → Request
  cprice : Text → Text → ℕ → Request
  hangup : Text → ℕ → ℕ → Request
  failed : CcTermStatus → Text → Request

-- The codes of the ends that are no normal ones.
unfoldable pub status_code : CcTermStatus → Text
status_code CcTermStatus.unkn_status = text "u"
status_code CcTermStatus.normal_clear = text "u"
status_code CcTermStatus.busy = text "b"
status_code CcTermStatus.cancel = text "c"
status_code CcTermStatus.error = text "e"

unfoldable pub command_of : Request → Text
command_of status = text "status"
command_of (maxsec clg cld call_uid) = text "maxsec"
command_of (balance clg) = text "balance"
command_of (rate clg cld) = text "rate"
command_of (cprice clg cld billsec) = text "cprice"
command_of (hangup call_uid billsec duration) = text "term"
command_of (failed s call_uid) = text "term"

unfoldable pub args_of : Request → List Text
args_of status = []
args_of (maxsec clg cld call_uid) = clg ∷ cld ∷ call_uid ∷ []
args_of (balance clg) = clg ∷ []
args_of (rate clg cld) = clg ∷ cld ∷ []
args_of (cprice clg cld billsec) = clg ∷ cld ∷ print_d billsec ∷ []
args_of (hangup call_uid billsec duration) =
    text "nc" ∷ call_uid ∷ print_d billsec ∷ print_d duration ∷ []
args_of (failed s call_uid) = status_code s ∷ call_uid ∷ []

-- The line of a request: server, transaction, command, time and the arguments.
unfoldable pub request_text : ℕ → ℕ → ℕ → Request → Text
request_text server transaction ts r =
    join b',' (print_d server ∷ print_d transaction ∷ command_of r ∷ print_d ts ∷ args_of r)

abbrev pub FitsNumber : Text → Type 0
FitsNumber clg = IsField separator clg × (length clg < 32)

abbrev pub FitsUid : Text → Type 0
FitsUid uid = IsField separator uid × (length uid < 128)

abbrev pub FitsWord : ℕ → Type 0
FitsWord n = n < 2 ^ 32

-- An end that is no normal one.
abbrev pub IsFailure : CcTermStatus → Type 0
IsFailure CcTermStatus.unkn_status = Unit
IsFailure CcTermStatus.normal_clear = ⊥
IsFailure CcTermStatus.busy = Unit
IsFailure CcTermStatus.cancel = Unit
IsFailure CcTermStatus.error = Unit

-- The arguments are not empty, have no comma and fit the fields of the server.
abbrev pub FitsRequest : Request → Type 0
FitsRequest status = Unit
FitsRequest (maxsec clg cld call_uid) = FitsNumber clg × FitsNumber cld × FitsUid call_uid
FitsRequest (balance clg) = FitsNumber clg
FitsRequest (rate clg cld) = FitsNumber clg × FitsNumber cld
FitsRequest (cprice clg cld billsec) = FitsNumber clg × FitsNumber cld × FitsWord billsec
FitsRequest (hangup call_uid billsec duration) =
    FitsUid call_uid × FitsWord billsec × FitsWord duration
FitsRequest (failed s call_uid) = IsFailure s × FitsUid call_uid

-- The request that the server passes on.
unfoldable pub cc_of : ℕ → ℕ → Request → Cc
cc_of now server status = record cc_alloc { t = CcEvent.status_event; cdr_server_id = server }
cc_of now server (maxsec clg cld call_uid) = record cc_alloc {
  t = CcEvent.maxsec_event;
  cdr_server_id = server;
  max = some (record { clg = clg; cld = cld; call_uid = call_uid; ts = now; maxsec = pos 0 });
}
cc_of now server (balance clg) = record cc_alloc {
  t = CcEvent.balance_event;
  cdr_server_id = server;
  bal = some (record { clg = clg; amount = pos 0 });
}
cc_of now server (rate clg cld) = record cc_alloc {
  t = CcEvent.rate_event;
  cdr_server_id = server;
  rate = some (record { clg = clg; cld = cld; rate_price = pos 0 });
}
cc_of now server (cprice clg cld billsec) = record cc_alloc {
  t = CcEvent.cprice_event;
  cdr_server_id = server;
  cprice = some (record { clg = clg; cld = cld; billsec = billsec; cprice = pos 0 });
}
cc_of now server (hangup call_uid billsec duration) = record cc_alloc {
  t = CcEvent.term_event;
  cdr_server_id = server;
  term = some (record {
    status = CcTermStatus.normal_clear;
    call_uid = call_uid;
    billsec = billsec;
    duration = duration;
    tbl_idx = pos 0;
  });
}
cc_of now server (failed s call_uid) = record cc_alloc {
  t = CcEvent.term_event;
  cdr_server_id = server;
  term =
      some (record { status = s; call_uid = call_uid; billsec = 0; duration = 0; tbl_idx = pos 0 });
}

unfoldable pub my_of : ℕ → ℕ → ℕ → ℕ → Request → MyCc
my_of now server transaction ts r = record {
  cdr_server_id = server;
  transaction_id = transaction;
  command = command_of r;
  timestamp = atoi (print_d ts);
  cc = cc_of now server r;
}

word-read : (n : ℕ) → FitsWord n → unsigned 32 (atoi (print_d n)) ≡ n
word-read n h = unsigned-atoi-print_d 32 n h (omega (arith, h))

emit-IsField : (fuel n : ℕ) (txt : Text) → NoSep separator txt → IsField separator (emit fuel n txt)
unfolding emit is_sep
emit-IsField zero n txt h = (refl, (ground arith, h))
emit-IsField (suc fuel) n txt h =
    let digit : is_sep separator (b'0' + n % 10) ≡ false = ground arith in
    if_ind (IsField separator) (ltb n 10) _ _ (refl, (digit, h))
      (emit-IsField fuel (n / 10) ((b'0' + n % 10) ∷ txt) (digit, h))

print_d-IsField : (n : ℕ) → IsField separator (print_d n)
unfolding print_d
print_d-IsField n = emit-IsField 9 n [] tt

status_code-IsField : (s : CcTermStatus) → IsField separator (status_code s)
unfolding status_code is_sep
status_code-IsField CcTermStatus.unkn_status = (refl, (refl, tt))
status_code-IsField CcTermStatus.normal_clear = (refl, (refl, tt))
status_code-IsField CcTermStatus.busy = (refl, (refl, tt))
status_code-IsField CcTermStatus.cancel = (refl, (refl, tt))
status_code-IsField CcTermStatus.error = (refl, (refl, tt))

term_status-code : (s : CcTermStatus) → IsFailure s → term_status (status_code s) ≡ s
unfolding term_status status_code text_eq
term_status-code CcTermStatus.unkn_status h = refl
term_status-code CcTermStatus.normal_clear h = elim h [ ]
term_status-code CcTermStatus.busy h = refl
term_status-code CcTermStatus.cancel h = refl
term_status-code CcTermStatus.error h = refl

command_of-IsField : (r : Request) → IsField separator (command_of r) × (length (command_of r) < 16)
unfolding command_of is_sep
command_of-IsField status =
    ((refl, (refl, (refl, (refl, (refl, (refl, (refl, tt))))))), omega arith)
command_of-IsField (maxsec clg cld call_uid) =
    ((refl, (refl, (refl, (refl, (refl, (refl, (refl, tt))))))), omega arith)
command_of-IsField (balance clg) =
    ((refl, (refl, (refl, (refl, (refl, (refl, (refl, (refl, tt)))))))), omega arith)
command_of-IsField (rate clg cld) = ((refl, (refl, (refl, (refl, (refl, tt))))), omega arith)
command_of-IsField (cprice clg cld billsec) =
    ((refl, (refl, (refl, (refl, (refl, (refl, (refl, tt))))))), omega arith)
command_of-IsField (hangup call_uid billsec duration) =
    ((refl, (refl, (refl, (refl, (refl, tt))))), omega arith)
command_of-IsField (failed s call_uid) = ((refl, (refl, (refl, (refl, (refl, tt))))), omega arith)

args_of-IsField : (r : Request) → FitsRequest r → All (IsField separator) (args_of r)
unfolding args_of is_sep
args_of-IsField status h = tt
args_of-IsField (maxsec clg cld call_uid) h = (h.0.0, (h.1.0, (h.2.0, tt)))
args_of-IsField (balance clg) h = (h.0, tt)
args_of-IsField (rate clg cld) h = (h.0.0, (h.1.0, tt))
args_of-IsField (cprice clg cld billsec) h = (h.0.0, (h.1.0, (print_d-IsField billsec, tt)))
args_of-IsField (hangup call_uid billsec duration) h =
    ((refl, (refl, (refl, tt))), (h.0.0, (print_d-IsField billsec, (print_d-IsField duration, tt))))
args_of-IsField (failed s call_uid) h = (status_code-IsField s, (h.1.0, tt))

failure_cases :
    (my : MyCc) (tm : CcTerm) (rest : List Text) (s : CcTermStatus)
    → tm.status ≡ s
    → IsFailure s
    → parse_end my tm rest ≡ terminated my tm
unfolding parse_end
failure_cases my tm rest CcTermStatus.unkn_status e h = ground (arith, e)
failure_cases my tm rest CcTermStatus.normal_clear e h = elim h [ ]
failure_cases my tm rest CcTermStatus.busy e h = ground (arith, e)
failure_cases my tm rest CcTermStatus.cancel e h = ground (arith, e)
failure_cases my tm rest CcTermStatus.error e h = ground (arith, e)

parse_end-failure :
    (my : MyCc) (tm : CcTerm) (rest : List Text)
    → IsFailure tm.status
    → parse_end my tm rest ≡ terminated my tm
unfolding parse_end
parse_end-failure my tm rest h = failure_cases my tm rest tm.status refl h

-- The arguments of a command, by the command.
parse_command-of :
    (now server transaction ts : ℕ) (r : Request)
    → FitsRequest r
    → parse_command now (record (my_of now server transaction ts r) { cc = cc_alloc }) (args_of r)
      ≡ my_request (my_of now server transaction ts r)
unfolding parse_command my_of cc_of command_of args_of text_eq parse_maxsec parse_balance parse_rate
    parse_cprice parse_term parse_end parse_seconds strcpy_then term_status status_code
parse_command-of now server transaction ts status h = refl
parse_command-of now server transaction ts (maxsec clg cld call_uid) h =
    ground (arith, h.0.1, h.1.1, h.2.1)
parse_command-of now server transaction ts (balance clg) h = ground (arith, h.1)
parse_command-of now server transaction ts (rate clg cld) h = ground (arith, h.0.1, h.1.1)
parse_command-of now server transaction ts (cprice clg cld billsec) h =
    ground (arith, h.0.1, h.1.1, word-read billsec h.2)
parse_command-of now server transaction ts (hangup call_uid billsec duration) h =
    ground (arith, h.0.1, word-read billsec h.1, word-read duration h.2)
parse_command-of now server transaction ts (failed s call_uid) h =
    let my = record (my_of now server transaction ts (failed s call_uid)) { cc = cc_alloc } in
    let ended : CcTerm = record {
      status = s;
      call_uid = call_uid;
      billsec = 0;
      duration = 0;
      tbl_idx = pos 0;
    } in
    ground (arith, h.1.1, term_status-code s h.0, parse_end-failure my ended [] h.0)

-- A line of the protocol is read as the request that it was written for, when its arguments are not
-- empty, have no comma and fit their fields, and its numbers fit theirs.
pub my_cc_parser-request_text :
    (now server transaction ts : ℕ) (r : Request)
    → server < 2 ^ 16
    → FitsWord transaction
    → FitsRequest r
    → my_cc_parser now (request_text server transaction ts r)
      ≡ my_request (my_of now server transaction ts r)
unfolding my_cc_parser request_text parse_head parse_timestamp strcpy_then is_sep my_of command_of
my_cc_parser-request_text now server transaction ts r s t h =
    let fields = print_d server ∷ print_d transaction ∷ command_of r ∷ print_d ts ∷ args_of r in
    let read : strtok_all separator (join b',' fields) ≡ fields =
      strtok_all-join separator b',' fields refl (
        print_d-IsField server,
        (
          print_d-IsField transaction,
          ((command_of-IsField r).0, (print_d-IsField ts, args_of-IsField r h)),
        ),
      ) in
    let fits : ltb (length (command_of r)) 16 ≡ true = ground (arith, (command_of-IsField r).1) in
    let server_id = unsigned-atoi-print_d 16 server s (omega (arith, s)) in
    rw (read, fits, server_id, word-read transaction t)
      (parse_command-of now server transaction ts r h)
