-- ===== src/CdrMediator/File/Whole.antt =====
-- The whole of a file: its rows, and the records that are inserted.
use rate_engine.Base.{
  ◌>>=◌, ℕ, ◌+◌, ◌-◌, ◌≡◌, refl, ap, ◌∙◌, Bool, true, false, not, ◌&&◌, List, [], ◌∷◌, some, arith,
  ltb, ◌==◌, if◌then◌else◌, Text, starts_with, length, strtok_all, All, Bool-cases, inl, inr, Gives,
}
use rate_engine.CdrMediator.Cdr.{Cdr}
use rate_engine.CdrMediator.File.{
  Storage, Profile, Rows, no_rows, readbuf_len, fgets_all, is_complete, row_cdr, add_cdr, add_row,
  fix_last, cdr_file_getfield, cdr_file_getfield_delimiter_fix, cdr_file_field_analize, is_header,
  is_row, parse_line, parse_lines, resolved, cdr_file_parser,
}
use rate_engine.CdrMediator.File.Counted.{FitsLine}

module _ (profile : Profile) where
  -- A row has as many columns as the profile wants, one at least, and does not start with the
  -- character of the header.
  unfoldable pub is_data : Text → Bool
  is_data line =
      not (starts_with line (profile.hdr_comm ∷ []))
      && (ltb 0 profile.file_field_num
          && (length (strtok_all profile.col_sep line) == profile.file_field_num))

  abbrev fields_of : Text → List Text
  fields_of line =
      cdr_file_getfield_delimiter_fix profile.col_delimiter
        (fix_last (strtok_all profile.col_sep line))

  -- The fields of the rows, in order.
  unfoldable pub rows_of : List Text → List (List Text)
  rows_of [] = []
  rows_of (line ∷ lines) =
      let rest = rows_of lines in if is_data line then fields_of line ∷ rest else rest

  -- The complete records among the rows, in order.
  unfoldable pub records_of : ℕ → List (List Text) → List Cdr
  records_of server [] = []
  records_of server (fields ∷ rows) =
      let rest = records_of server rows in
      if is_complete (row_cdr profile server fields)
      then row_cdr profile server fields ∷ rest
      else rest

module _ {W : Type 0} (storage : Storage W) (profile : Profile) where
  -- Records are inserted one after the other, with the number of those that the database took.
  unfoldable pub insert_all : W → List Cdr → W × ℕ
  insert_all w [] = (w, 0)
  insert_all w (cdr ∷ cdrs) =
      let (w1, ok) = add_cdr storage profile w cdr in
      let (w2, n) = insert_all w1 cdrs in (w2, (if ok then 1 else 0) + n)

  -- The world and the counts when `rows` were read after the counts `r`.
  abbrev after : ℕ → List (List Text) → W × Rows → W × Rows
  after server rows (w, r) =
      let records = records_of profile server rows in
      (
        (insert_all w records).0,
        record {
          all_rows = r.all_rows + length rows;
          parse_rows = r.parse_rows + length records;
          ins_rows = r.ins_rows + (insert_all w records).1;
        },
      )

  rows-eq :
      {a a' b b' c c' : ℕ} (v : W)
      → a ≡ a'
      → b ≡ b'
      → c ≡ c'
      → ◌≡◌ {A = W × Rows}
          (v, record { all_rows = a; parse_rows = b; ins_rows = c })
          (v, record { all_rows = a'; parse_rows = b'; ins_rows = c' })
  rows-eq v p q r = rw (p, q, r) refl

  is_data-lem :
      (line : Text)
      → is_data profile line ≡ not (is_header storage profile line) && is_row storage profile line
  unfolding is_data cdr_file_field_analize starts_with
  is_data-lem [] = ground arith
  is_data-lem (c ∷ line) = ground arith

  add_row-after :
      (server : ℕ) (fields : List Text) (rows : List (List Text)) (s : W × Rows)
      → after server rows (add_row storage profile server fields s) ≡ after server (fields ∷ rows) s
  unfolding add_row records_of insert_all
  add_row-after server fields rows (w, r) =
      elim (Bool-cases (is_complete (row_cdr profile server fields))) [
        | inl e ↦ rw e (
            rows-eq _ (omega arith) (omega arith)
              (count _ _ (add_cdr storage profile w (row_cdr profile server fields)).1))
        | inr e ↦ rw e (rows-eq _ (omega arith) (omega arith) (omega arith))
      ]
    where
      count :
          (a n : ℕ) (ok : Bool) → (if ok then a + 1 else a) + n ≡ a + ((if ok then 1 else 0) + n)
      count a n true = omega arith
      count a n false = omega arith

  -- A line that is a row is added, and any other is passed over.
  parse_line-after :
      (server : ℕ) (line : Text) (lines : List Text) (s : W × Rows)
      → FitsLine profile.col_sep line
      → Gives
          (λ s1.
            after server (rows_of profile lines) s1
            ≡ after server (rows_of profile (line ∷ lines)) s)
          (parse_line storage profile server line s)
  unfolding parse_line cdr_file_getfield ◌>>=◌ rows_of
  parse_line-after server line lines s f =
      let same = is_data-lem line in
      elim (Bool-cases (is_header storage profile line)) [
        | inl h ↦
            let d : is_data profile line ≡ false = ground (arith, same, h) in
            rw (h, d) (s, refl, refl)
        | inr h ↦ elim (Bool-cases (is_row storage profile line)) [
          | inl r ↦
              let d : is_data profile line ≡ true = ground (arith, same, h, r) in
              rw (h, r, f, d)
                (_, refl, add_row-after server (fields_of profile line) (rows_of profile lines) s)
          | inr r ↦
              let d : is_data profile line ≡ false = ground (arith, same, h, r) in
              rw (h, r, d) (s, refl, refl)
        ]
      ]

  parse_lines-after :
      (server : ℕ) (lines : List Text) (s : W × Rows)
      → All (FitsLine profile.col_sep) lines
      → parse_lines storage profile server lines s ≡ some (after server (rows_of profile lines) s)
  unfolding parse_lines ◌>>=◌ rows_of insert_all records_of
  parse_lines-after server [] (w, r) f =
      ap (λ v. some v) (rows-eq w (omega arith) (omega arith) (omega arith))
  parse_lines-after server (line ∷ lines) s f =
      let (s1, e, same) = parse_line-after server line lines s f.0 in
      rw e (parse_lines-after server lines s1 f.1 ∙ ap (λ v. some v) same)

  -- A file that opens, all of whose fields fit their arrays, is read with result 0: its complete
  -- records are inserted, each once and in order, before the file is added to `cdr_files`; and the
  -- counts are its rows, its complete records and those that the database took.
  pub cdr_file_parser-whole :
      (cdr_server_id : ℕ) (filename bytes : Text) (w : W)
      → storage.open_file w filename ≡ some bytes
      → All (FitsLine profile.col_sep) (fgets_all (readbuf_len - 1) [] bytes)
      → let server = resolved storage profile cdr_server_id in
        let rows = rows_of profile (fgets_all (readbuf_len - 1) [] bytes) in
        let records = records_of profile server rows in
        let inserted = insert_all w records in
        cdr_file_parser storage profile cdr_server_id filename w
        ≡ some (
          storage.add_file inserted.0 filename server,
          record { all_rows = length rows; parse_rows = length records; ins_rows = inserted.1 },
          0,
        )
  unfolding cdr_file_parser ◌>>=◌
  cdr_file_parser-whole cdr_server_id filename bytes w o f =
      let lines = fgets_all (readbuf_len - 1) [] bytes in
      let e = parse_lines-after (resolved storage profile cdr_server_id) lines (w, no_rows) f in
      rw (cdr_file_parser, o, e)
        (ap
          (λ v.
            some (storage.add_file v.0 filename (resolved storage profile cdr_server_id), v.1, 0))
          (rows-eq _ (omega arith) (omega arith) (omega arith)))
