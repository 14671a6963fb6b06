-- ===== src/MyCc/Answers.antt =====
-- Every line whose words fit has an answer, and empty fields are lost.
use mathlib.Core.Path.{subst}
use rate_engine.Base.{
  ◌>>=◌, ℕ, ◌<◌, ◌≡◌, refl, ap, ◌∙◌, List, [], ◌∷◌, ◌++◌, some, arith, ℤ, Text, Gives, length, Bool,
  true, false, Bool-cases, inl, inr, eq_of_text_eq, text, text_eq, if_ind, strtok_all,
  strtok_all-empty, is_sep, ltb,
}
use rate_engine.CallControl.Table.{Cc, CcMaxsec, CcTerm, CcTermStatus, CcEvent, Slot}
use rate_engine.CallControl.Events.{MaxsecApi, cc_maxsec_f, cc_event_manager}
use rate_engine.CallControl.Events.Within.{cc_maxsec_f-IsServed}
use rate_engine.MyCc.{
  MyCc, Parsed, my_request, null, overrun, separator, strcpy_then, parse_maxsec, parse_rate,
  parse_balance, parse_cprice, parse_seconds, parse_end, parse_term, parse_command, parse_timestamp,
  parse_head, my_cc_parser, terminated,
}
use rate_engine.MyCc.Serve.{my_cc_ack, serve, my_cc_proto_bind}

-- The arguments of a command fit their arrays: the second of `term`, and of any other command the
-- first two and, where it is an id, the third.
abbrev pub ArgsFit : Bool → List Text → Type 0
ArgsFit true (status ∷ uid ∷ rest) = length uid < 128
ArgsFit true (status ∷ []) = Unit
ArgsFit true [] = Unit
ArgsFit false [] = Unit
ArgsFit false (clg ∷ []) = length clg < 32
ArgsFit false (clg ∷ cld ∷ []) = (length clg < 32) × (length cld < 32)
ArgsFit false (clg ∷ cld ∷ uid ∷ rest) = (length clg < 32) × (length cld < 32) × (length uid < 128)

-- The words of a line fit: the command and its arguments.
abbrev pub WordsFit : List Text → Type 0
WordsFit [] = Unit
WordsFit (server ∷ []) = Unit
WordsFit (server ∷ transaction ∷ []) = Unit
WordsFit (server ∷ transaction ∷ command ∷ []) = length command < 16
WordsFit (server ∷ transaction ∷ command ∷ timestamp ∷ args) =
    (length command < 16) × ArgsFit (text_eq command (text "term")) args

module _ {W : Type 0} (api : MaxsecApi W) where
  -- Call control handles the request, if there is one.
  abbrev IsHandled : Parsed → Type 0
  IsHandled (my_request my) =
      (w : W) (tbl : List Slot) → Gives (λ r. Unit {0}) (cc_event_manager api w tbl my.cc)
  IsHandled null = Unit
  IsHandled overrun = ⊥

  strcpy_then-IsHandled :
      (size : ℕ) (txt : Text) (k : Parsed)
      → length txt < size
      → IsHandled k
      → IsHandled (strcpy_then size txt k)
  unfolding strcpy_then
  strcpy_then-IsHandled size txt k h p =
      let e : ltb (length txt) size ≡ true = ground (arith, h) in rw e p

  terminated-IsHandled : (my : MyCc) (tm : CcTerm) → IsHandled (terminated my tm)
  unfolding cc_event_manager
  terminated-IsHandled my tm w tbl = (_, refl, tt)

  maxsec-IsHandled :
      (c : Cc) (m : CcMaxsec) (w : W) (tbl : List Slot)
      → c.t ≡ CcEvent.maxsec_event
      → c.max ≡ some m
      → Gives (λ r. Unit {0}) (cc_event_manager api w tbl c)
  unfolding cc_event_manager
  maxsec-IsHandled c m w tbl t e =
      let (w1, reply, done, served) = cc_maxsec_f-IsServed api w tbl c m e in
      let same : cc_event_manager api w tbl c ≡ cc_maxsec_f api w tbl c = ground (arith, t) in
      ((w1, reply), same ∙ done, tt)

  parse_maxsec-IsHandled :
      (now : ℕ) (my : MyCc) (args : List Text)
      → ArgsFit false args
      → IsHandled (parse_maxsec now my args)
  unfolding parse_maxsec
  parse_maxsec-IsHandled now my [] h = tt
  parse_maxsec-IsHandled now my (clg ∷ []) h = strcpy_then-IsHandled 32 clg null h tt
  parse_maxsec-IsHandled now my (clg ∷ cld ∷ []) h =
      strcpy_then-IsHandled 32 clg _ h.0 (strcpy_then-IsHandled 32 cld null h.1 tt)
  parse_maxsec-IsHandled now my (clg ∷ cld ∷ uid ∷ rest) h = strcpy_then-IsHandled 32 clg _ h.0 (
      strcpy_then-IsHandled 32 cld _ h.1
        (strcpy_then-IsHandled 128 uid _ h.2 (λ w tbl. maxsec-IsHandled _ _ w tbl refl refl)))

  parse_rate-IsHandled :
      (my : MyCc) (args : List Text) → ArgsFit false args → IsHandled (parse_rate my args)
  unfolding parse_rate cc_event_manager
  parse_rate-IsHandled my [] h = tt
  parse_rate-IsHandled my (clg ∷ []) h = strcpy_then-IsHandled 32 clg null h tt
  parse_rate-IsHandled my (clg ∷ cld ∷ []) h =
      strcpy_then-IsHandled 32 clg _ h.0
        (strcpy_then-IsHandled 32 cld _ h.1 (λ w tbl. (_, refl, tt)))
  parse_rate-IsHandled my (clg ∷ cld ∷ uid ∷ rest) h =
      strcpy_then-IsHandled 32 clg _ h.0
        (strcpy_then-IsHandled 32 cld _ h.1 (λ w tbl. (_, refl, tt)))

  parse_balance-IsHandled :
      (my : MyCc) (args : List Text) → ArgsFit false args → IsHandled (parse_balance my args)
  unfolding parse_balance cc_event_manager
  parse_balance-IsHandled my [] h = tt
  parse_balance-IsHandled my (clg ∷ []) h =
      strcpy_then-IsHandled 32 clg _ h (λ w tbl. (_, refl, tt))
  parse_balance-IsHandled my (clg ∷ cld ∷ []) h =
      strcpy_then-IsHandled 32 clg _ h.0 (λ w tbl. (_, refl, tt))
  parse_balance-IsHandled my (clg ∷ cld ∷ uid ∷ rest) h =
      strcpy_then-IsHandled 32 clg _ h.0 (λ w tbl. (_, refl, tt))

  parse_cprice-IsHandled :
      (my : MyCc) (args : List Text) → ArgsFit false args → IsHandled (parse_cprice my args)
  unfolding parse_cprice cc_event_manager
  parse_cprice-IsHandled my [] h = tt
  parse_cprice-IsHandled my (clg ∷ []) h = strcpy_then-IsHandled 32 clg null h tt
  parse_cprice-IsHandled my (clg ∷ cld ∷ []) h =
      strcpy_then-IsHandled 32 clg _ h.0 (strcpy_then-IsHandled 32 cld null h.1 tt)
  parse_cprice-IsHandled my (clg ∷ cld ∷ billsec ∷ rest) h =
      strcpy_then-IsHandled 32 clg _ h.0
        (strcpy_then-IsHandled 32 cld _ h.1 (λ w tbl. (_, refl, tt)))

  parse_seconds-IsHandled :
      (my : MyCc) (tm : CcTerm) (rest : List Text) → IsHandled (parse_seconds my tm rest)
  unfolding parse_seconds
  parse_seconds-IsHandled my tm (billsec ∷ duration ∷ rest) = terminated-IsHandled my _
  parse_seconds-IsHandled my tm (billsec ∷ []) = tt
  parse_seconds-IsHandled my tm [] = tt

  parse_end-IsHandled :
      (my : MyCc) (tm : CcTerm) (rest : List Text) → IsHandled (parse_end my tm rest)
  unfolding parse_end
  parse_end-IsHandled my tm rest =
      elim tm.status
        as (λ s. IsHandled (elim s [
          | CcTermStatus.normal_clear ↦ parse_seconds my tm rest
          | CcTermStatus.unkn_status ↦ terminated my tm
          | CcTermStatus.busy ↦ terminated my tm
          | CcTermStatus.cancel ↦ terminated my tm
          | CcTermStatus.error ↦ terminated my tm
        ])) [
          | CcTermStatus.normal_clear ↦ parse_seconds-IsHandled my tm rest
          | CcTermStatus.unkn_status ↦ terminated-IsHandled my tm
          | CcTermStatus.busy ↦ terminated-IsHandled my tm
          | CcTermStatus.cancel ↦ terminated-IsHandled my tm
          | CcTermStatus.error ↦ terminated-IsHandled my tm
        ]

  parse_term-IsHandled :
      (my : MyCc) (args : List Text) → ArgsFit true args → IsHandled (parse_term my args)
  unfolding parse_term
  parse_term-IsHandled my [] h = tt
  parse_term-IsHandled my (status ∷ []) h = tt
  parse_term-IsHandled my (status ∷ uid ∷ rest) h =
      strcpy_then-IsHandled 128 uid _ h (parse_end-IsHandled my _ rest)

  parse_command-IsHandled :
      (now : ℕ) (my : MyCc) (args : List Text)
      → ArgsFit (text_eq my.command (text "term")) args
      → IsHandled (parse_command now my args)
  unfolding parse_command cc_event_manager text_eq
  parse_command-IsHandled now my args h = elim (Bool-cases (text_eq my.command (text "term"))) [
    | inl e ↦
        let fits = subst (λ b. ArgsFit b args) e h in
        rw (parse_command, eq_of_text_eq my.command (text "term") e)
          (parse_term-IsHandled (record my { command = text "term" }) args fits)
    | inr e ↦
        let fits = subst (λ b. ArgsFit b args) e h in
        rw (parse_command, e)
          (if_ind IsHandled (text_eq my.command (text "status")) _ _ (λ w tbl. (_, refl, tt))
            (if_ind IsHandled (text_eq my.command (text "maxsec")) _ _
              (parse_maxsec-IsHandled now my args fits)
              (if_ind IsHandled (text_eq my.command (text "rate")) _ _
                (parse_rate-IsHandled my args fits)
                (if_ind IsHandled (text_eq my.command (text "balance")) _ _
                  (parse_balance-IsHandled my args fits)
                  (if_ind IsHandled (text_eq my.command (text "cprice")) _ null
                    (parse_cprice-IsHandled my args fits) tt)))))
  ]

  parse_head-IsHandled :
      (now : ℕ) (words : List Text) → WordsFit words → IsHandled (parse_head now words)
  unfolding parse_head parse_timestamp
  parse_head-IsHandled now [] h = tt
  parse_head-IsHandled now (server ∷ []) h = tt
  parse_head-IsHandled now (server ∷ transaction ∷ []) h = tt
  parse_head-IsHandled now (server ∷ transaction ∷ command ∷ []) h =
      strcpy_then-IsHandled 16 command null h tt
  parse_head-IsHandled now (server ∷ transaction ∷ command ∷ timestamp ∷ args) h =
      strcpy_then-IsHandled 16 command _ h.0 (parse_command-IsHandled now _ args h.1)

  module _ (print_f : ℤ → Text) where
    -- The reply to a parsed line: `error` and nothing changed, or one for its server and
    -- transaction.
    abbrev pub IsReply : W → List Slot → Parsed → W × List Slot × Text → Type 0
    IsReply w tbl (my_request my) (w1, tbl1, ack) = (answer : Text) × (ack ≡ my_cc_ack my answer)
    IsReply w tbl null r = r ≡ (w, tbl, text "error")
    IsReply w tbl overrun r = ⊥

    serve-Gives :
        (w : W) (tbl : List Slot) (p : Parsed)
        → IsHandled p
        → Gives (IsReply w tbl p) (serve print_f api w tbl p)
    unfolding serve ◌>>=◌
    serve-Gives w tbl (my_request my) h = let (r, e, u) = h w tbl in rw e (_, refl, (_, refl))
    serve-Gives w tbl null h = (_, refl, refl)
    serve-Gives w tbl overrun h = elim h [ ]

    -- A line is answered, whatever it says, when its command has less than 16 characters, the numbers
    -- less than 32 and the id of the call less than 128: with `error` and nothing changed if it is no request,
    -- and else with a line for the server and the transaction of the request.
    pub my_cc_proto_bind-answers :
        (now : ℕ) (w : W) (tbl : List Slot) (buf : Text)
        → WordsFit (strtok_all separator buf)
        → Gives (IsReply w tbl (my_cc_parser now buf)) (my_cc_proto_bind print_f api now w tbl buf)
    unfolding my_cc_proto_bind my_cc_parser
    my_cc_proto_bind-answers now w tbl buf h =
        serve-Gives w tbl _ (parse_head-IsHandled now (strtok_all separator buf) h)

    -- An empty field is lost: with two commas behind one another the line is handled and answered
    -- as with one, so that every field behind them is taken for the one before it.
    my_cc_proto_bind-empty :
        (now : ℕ) (w : W) (tbl : List Slot) (s rest : Text)
        → my_cc_proto_bind print_f api now w tbl (s ++ b',' ∷ b',' ∷ rest)
          ≡ my_cc_proto_bind print_f api now w tbl (s ++ b',' ∷ rest)
    unfolding my_cc_proto_bind my_cc_parser is_sep
    my_cc_proto_bind-empty now w tbl s rest =
        ap (λ words. serve print_f api w tbl (parse_head now words))
          (strtok_all-empty separator s rest b',' b',' refl refl)
