-- ===== src/CdrMediator/Store.antt =====
-- The insertion of a record: cdr_add_in_db and cdr_add_in_db_query of mod/CDRMediator/cdr.c, on
-- SQL.
pub mod Stored
use rate_engine.Base.{
  ◌>>=◌, ℕ, suc, ◌+◌, ◌-◌, ◌*◌, List, [], ◌∷◌, Option, none, some, ltb, if◌then◌else◌, Text, text,
  take, length, print_unsigned, map_all,
}
use rate_engine.Database.Escape.{db_sql_escape}
use rate_engine.CdrMediator.Cdr.{Cdr, call_uid_len, ts_len, number_len}
use rate_engine.CdrMediator.Filter.{Filter, cdr_called_number_filtering_match}

-- A field of the record: a number of so many bits, or a text in an array of so many bytes.
pub data Field : Type 0 where
  num : ℕ → ℕ → Field
  str : ℕ → Text → Field

-- A value in the statement: the digits of a number, or an escaped text between quotes.
pub data Value : Type 0 where
  number : Text → Value
  literal : Text → Value

-- The columns of the statement with their fields.
unfoldable pub insert_fields : Cdr → List (Text × Field)
insert_fields cdr =
    (text "cdr_server_id", num 16 cdr.cdr_server_id)
    ∷ (text "cdr_rec_type_id", num 16 cdr.cdr_rec_type_id)
    ∷ (text "leg_a", num 32 cdr.leg_a)
    ∷ (text "leg_b", num 32 cdr.leg_b)
    ∷ (text "call_uid", str call_uid_len cdr.call_uid)
    ∷ (text "start_ts", str ts_len cdr.start_ts)
    ∷ (text "answer_ts", str ts_len cdr.answer_ts)
    ∷ (text "end_ts", str ts_len cdr.end_ts)
    ∷ (text "start_epoch", num 32 cdr.start_epoch)
    ∷ (text "answer_epoch", num 32 cdr.answer_epoch)
    ∷ (text "end_epoch", num 32 cdr.end_epoch)
    ∷ (text "src", str number_len cdr.src)
    ∷ (text "dst", str number_len cdr.dst)
    ∷ (text "calling_number", str number_len cdr.calling_number)
    ∷ (text "clg_nadi", num 16 cdr.clg_nadi)
    ∷ (text "called_number", str number_len cdr.called_number)
    ∷ (text "cld_nadi", num 16 cdr.cld_nadi)
    ∷ (text "rdnis", str number_len cdr.rdnis)
    ∷ (text "rdnis_nadi", num 16 cdr.rdnis_nadi)
    ∷ (text "ocn", str number_len cdr.ocn)
    ∷ (text "ocn_nadi", num 16 cdr.ocn_nadi)
    ∷ (text "prefix_filter_id", num 16 cdr.prefix_filter_id)
    ∷ (text "account_code", str number_len cdr.account_code)
    ∷ (text "src_context", str number_len cdr.src_context)
    ∷ (text "src_tgroup", str number_len cdr.src_tgroup)
    ∷ (text "dst_context", str number_len cdr.dst_context)
    ∷ (text "dst_tgroup", str number_len cdr.dst_tgroup)
    ∷ (text "billsec", num 32 cdr.billsec)
    ∷ (text "duration", num 32 cdr.duration)
    ∷ (text "uduration", num 32 cdr.uduration)
    ∷ (text "billusec", num 32 cdr.billusec)
    ∷ []

-- `%d`, which takes the bits of a number as an `int`, or `'%s'` of the field escaped into twice its bytes and one more.
unfoldable pub value_of : Field → Option Value
value_of (num bits n) = some (number (print_unsigned n))
value_of (str len txt) = do dst ← db_sql_escape txt (len * 2 + 1); some (literal dst)

abbrev pub column : Text × Field → Option (Text × Value)
column (name, field) = value_of field >>= λ v. some (name, v)

-- The columns and values of the statement.
unfoldable pub cdr_add_in_db_query : Cdr → Option (List (Text × Value))
cdr_add_in_db_query cdr = map_all column (insert_fields cdr)

-- DT_LEN.
abbrev pub dt_len : ℕ
dt_len = 20

-- `convert_datetime`, of a time that has a zone after its 19 characters.
unfoldable pub trim_ts : Text → Text
trim_ts ts = if ltb dt_len (length ts) then take (dt_len - 1) ts else ts

unfoldable pub cdr_add_in_db : Option (List Filter) → Cdr → Option (List (Text × Value))
cdr_add_in_db filters cdr =
    let trimmed = record cdr {
      start_ts = trim_ts cdr.start_ts;
      answer_ts = trim_ts cdr.answer_ts;
      end_ts = trim_ts cdr.end_ts;
    } in
    elim filters [
      | none ↦ cdr_add_in_db_query trimmed
      | some fs ↦ cdr_add_in_db_query (cdr_called_number_filtering_match fs trimmed)
    ]
