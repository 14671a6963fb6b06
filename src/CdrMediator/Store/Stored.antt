-- ===== src/CdrMediator/Store/Stored.antt =====
-- A stored record is read back as it was.
use rate_engine.Base.{
  ◌-◌, Gives, ◌>>=◌, ℕ, ◌+◌, ◌-◌, ◌*◌, ◌^◌, ◌<◌, ◌≡◌, refl, ap, ◌∙◌, Bool, List, [], ◌∷◌, ◌++◌,
  Option, some, arith, if◌then◌else◌, Text, text, text_eq, take-all, length, map, All, print_d,
  unsigned-atoi-print_d, unsigned-atoi-print_unsigned, unsigned-atoi-print_short, print_unsigned,
  map_all,
}
use rate_engine.Database.Escape.{
  quote, read_literal, stored_text, db_sql_escape-reads, db_sql_escape-fits,
}
use rate_engine.CdrMediator.Cdr.{
  Cdr, zero_cdr, cdr_tbl, read_row, cdr_field_set, call_uid_len, ts_len, number_len,
}
use rate_engine.CdrMediator.Store.{
  Field, Value, insert_fields, value_of, column, cdr_add_in_db_query,
}

-- What the database stores for a value, on an engine where a backslash escapes, or does not.
unfoldable pub stored_value : Bool → Value → Option Text
stored_value escapes (Value.number txt) = some txt
stored_value escapes (Value.literal dst) = do
  (txt, rest) ← read_literal escapes (dst ++ quote ∷ text ",")
  some txt

abbrev pub stored_column : Bool → Text × Value → Option (Text × Text)
stored_column escapes (name, v) = stored_value escapes v >>= λ txt. some (name, txt)

-- The stored columns of a statement.
unfoldable pub insert : Bool → List (Text × Value) → Option (List (Text × Text))
insert escapes columns = map_all (stored_column escapes) columns

-- The text of a column; a column that is not there has none.
unfoldable pub lookup : Text → List (Text × Text) → Text
lookup name [] = []
lookup name ((key, txt) ∷ columns) =
    let later = lookup name columns in if text_eq name key then txt else later

-- A row that the database selects, with the id that it gave to the record.
unfoldable pub select_row : ℕ → List (Text × (Cdr → Text → Cdr)) → List (Text × Text) → List Text
select_row id [] columns = []
select_row id ((name, add) ∷ table) columns =
    let rest = select_row id table columns in
    (if text_eq name (text "id") then print_d id else lookup name columns) ∷ rest

-- A field holds what its array or its bits have room for, and its text is not changed by the
-- engine.
abbrev pub IsStorable : Bool → Field → Type 0
IsStorable escapes (Field.num bits n) = n < 2 ^ bits
IsStorable escapes (Field.str len txt) = (length txt < len) × (stored_text escapes txt ≡ txt)

abbrev shown : Field → Text
shown (Field.num bits n) = print_unsigned n
shown (Field.str len txt) = txt

stored_field :
    (escapes : Bool) (f : Field)
    → IsStorable escapes f
    → Gives (λ v. stored_value escapes v ≡ some (shown f)) (value_of f)
unfolding value_of stored_value ◌>>=◌
stored_field escapes (Field.num bits n) h = (_, refl, refl)
stored_field escapes (Field.str len txt) (h, k) =
    let (dst, e) = db_sql_escape-fits txt (len * 2 + 1) (omega (arith, h)) in
    let read = db_sql_escape-reads escapes txt (len * 2 + 1) dst (text ",") e refl in
    (Value.literal dst, rw e refl, rw (read, k) refl)

abbrev shown_column : Text × Field → Text × Text
shown_column (name, f) = (name, shown f)

abbrev AllStorable : Bool → List (Text × Field) → Type 0
AllStorable escapes fields = All (λ (name, f). IsStorable escapes f) fields

map_all-insert :
    (escapes : Bool) (fields : List (Text × Field))
    → AllStorable escapes fields
    → Gives
        (λ columns. insert escapes columns ≡ some (map shown_column fields))
        (map_all column fields)
unfolding map_all insert ◌>>=◌
map_all-insert escapes [] h = ([], refl, refl)
map_all-insert escapes ((name, f) ∷ fields) (h, hs) =
    let (v, e, q) = stored_field escapes f h in
    let (columns, e1, q1) = map_all-insert escapes fields hs in
    ((name, v) ∷ columns, rw (e, e1) refl, rw (q, q1) refl)

cdr_field_set-fits : (txt : Text) (len : ℕ) → length txt < len → cdr_field_set txt len ≡ txt
unfolding cdr_field_set
cdr_field_set-fits txt len h = take-all txt (len - 1) (omega (arith, h))

read_row-shown :
    (escapes : Bool) (cdr : Cdr) (id : ℕ)
    → AllStorable escapes (insert_fields cdr)
    → (id < 2 ^ 32) × (id < 10 ^ 10)
    → read_row cdr_tbl (select_row id cdr_tbl (map shown_column (insert_fields cdr))) zero_cdr
      ≡ record cdr { id = id }
unfolding insert_fields cdr_tbl read_row select_row lookup text_eq
read_row-shown escapes cdr id h (i, j) = λ k. record {
  id = (unsigned-atoi-print_d 32 id i j) k;
  cdr_server_id = (unsigned-atoi-print_short cdr.cdr_server_id h.0) k;
  cdr_rec_type_id = (unsigned-atoi-print_short cdr.cdr_rec_type_id h.1.0) k;
  leg_a = (unsigned-atoi-print_unsigned cdr.leg_a h.1.1.0) k;
  leg_b = (unsigned-atoi-print_unsigned cdr.leg_b h.1.1.1.0) k;
  call_uid = (cdr_field_set-fits cdr.call_uid call_uid_len h.1.1.1.1.0.0) k;
  start_ts = (cdr_field_set-fits cdr.start_ts ts_len h.1.1.1.1.1.0.0) k;
  answer_ts = (cdr_field_set-fits cdr.answer_ts ts_len h.1.1.1.1.1.1.0.0) k;
  end_ts = (cdr_field_set-fits cdr.end_ts ts_len h.1.1.1.1.1.1.1.0.0) k;
  start_epoch = (unsigned-atoi-print_unsigned cdr.start_epoch h.1.1.1.1.1.1.1.1.0) k;
  answer_epoch = (unsigned-atoi-print_unsigned cdr.answer_epoch h.1.1.1.1.1.1.1.1.1.0) k;
  end_epoch = (unsigned-atoi-print_unsigned cdr.end_epoch h.1.1.1.1.1.1.1.1.1.1.0) k;
  src = (cdr_field_set-fits cdr.src number_len h.1.1.1.1.1.1.1.1.1.1.1.0.0) k;
  dst = (cdr_field_set-fits cdr.dst number_len h.1.1.1.1.1.1.1.1.1.1.1.1.0.0) k;
  calling_number =
      (cdr_field_set-fits cdr.calling_number number_len h.1.1.1.1.1.1.1.1.1.1.1.1.1.0.0) k;
  clg_nadi = (unsigned-atoi-print_short cdr.clg_nadi h.1.1.1.1.1.1.1.1.1.1.1.1.1.1.0) k;
  called_number =
      (cdr_field_set-fits cdr.called_number number_len h.1.1.1.1.1.1.1.1.1.1.1.1.1.1.1.0.0) k;
  cld_nadi = (unsigned-atoi-print_short cdr.cld_nadi h.1.1.1.1.1.1.1.1.1.1.1.1.1.1.1.1.0) k;
  rdnis = (cdr_field_set-fits cdr.rdnis number_len h.1.1.1.1.1.1.1.1.1.1.1.1.1.1.1.1.1.0.0) k;
  rdnis_nadi = (unsigned-atoi-print_short cdr.rdnis_nadi h.1.1.1.1.1.1.1.1.1.1.1.1.1.1.1.1.1.1.0) k;
  ocn = (cdr_field_set-fits cdr.ocn number_len h.1.1.1.1.1.1.1.1.1.1.1.1.1.1.1.1.1.1.1.0.0) k;
  ocn_nadi = (unsigned-atoi-print_short cdr.ocn_nadi h.1.1.1.1.1.1.1.1.1.1.1.1.1.1.1.1.1.1.1.1.0) k;
  prefix_filter_id =
      (unsigned-atoi-print_short cdr.prefix_filter_id h.1.1.1.1.1.1.1.1.1.1.1.1.1.1.1.1.1.1.1.1.1.0)
        k;
  account_code =
      (cdr_field_set-fits cdr.account_code number_len
          h.1.1.1.1.1.1.1.1.1.1.1.1.1.1.1.1.1.1.1.1.1.1.0.0)
        k;
  src_context =
      (cdr_field_set-fits cdr.src_context number_len
          h.1.1.1.1.1.1.1.1.1.1.1.1.1.1.1.1.1.1.1.1.1.1.1.0.0)
        k;
  src_tgroup =
      (cdr_field_set-fits cdr.src_tgroup number_len
          h.1.1.1.1.1.1.1.1.1.1.1.1.1.1.1.1.1.1.1.1.1.1.1.1.0.0)
        k;
  dst_context =
      (cdr_field_set-fits cdr.dst_context number_len
          h.1.1.1.1.1.1.1.1.1.1.1.1.1.1.1.1.1.1.1.1.1.1.1.1.1.0.0)
        k;
  dst_tgroup =
      (cdr_field_set-fits cdr.dst_tgroup number_len
          h.1.1.1.1.1.1.1.1.1.1.1.1.1.1.1.1.1.1.1.1.1.1.1.1.1.1.0.0)
        k;
  billsec =
      (unsigned-atoi-print_unsigned cdr.billsec
          h.1.1.1.1.1.1.1.1.1.1.1.1.1.1.1.1.1.1.1.1.1.1.1.1.1.1.1.0)
        k;
  duration =
      (unsigned-atoi-print_unsigned cdr.duration
          h.1.1.1.1.1.1.1.1.1.1.1.1.1.1.1.1.1.1.1.1.1.1.1.1.1.1.1.1.0)
        k;
  uduration =
      (unsigned-atoi-print_unsigned cdr.uduration
          h.1.1.1.1.1.1.1.1.1.1.1.1.1.1.1.1.1.1.1.1.1.1.1.1.1.1.1.1.1.0)
        k;
  billusec =
      (unsigned-atoi-print_unsigned cdr.billusec
          h.1.1.1.1.1.1.1.1.1.1.1.1.1.1.1.1.1.1.1.1.1.1.1.1.1.1.1.1.1.1.0)
        k;
}

-- A record whose fields are storable is inserted, and the row that is then selected reads as the
-- record, with the id that the database gave to it.
pub read_row-cdr_add_in_db_query :
    (escapes : Bool) (cdr : Cdr) (id : ℕ)
    → AllStorable escapes (insert_fields cdr)
    → (id < 2 ^ 32) × (id < 10 ^ 10)
    → Gives
        (λ columns.
          read_row cdr_tbl (select_row id cdr_tbl columns) zero_cdr ≡ record cdr { id = id })
        (cdr_add_in_db_query cdr >>= insert escapes)
unfolding cdr_add_in_db_query ◌>>=◌
read_row-cdr_add_in_db_query escapes cdr id h i =
    let (columns, e, q) = map_all-insert escapes (insert_fields cdr) h in
    (
      map shown_column (insert_fields cdr),
      ap (λ o. o >>= insert escapes) e ∙ q,
      read_row-shown escapes cdr id h i,
    )
