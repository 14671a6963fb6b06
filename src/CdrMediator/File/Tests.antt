-- ===== src/CdrMediator/File/Tests.antt =====
-- The theorems on files of records, at a small file.
use rate_engine.Base.{
  ℕ, ◌+◌, ◌&&◌, if◌then◌else◌, length, ◌==◌, ◌≡◌, refl, true, List, [], ◌∷◌, ◌++◌, none, some,
  arith, Text, text, text_eq, text_eq_refl, Gives, is_sep, split_from, push_token, strtok_all, join,
}
use rate_engine.CdrMediator.Cdr.{cdr_add_call_uid, cdr_add_called_number, cdr_add_billsec}
use rate_engine.CdrMediator.Store.{Value}
use rate_engine.CdrMediator.File.{
  Storage, Profile, newline, no_rows, fgets_all, all_fit, cdr_file_getfield, cdr_file_parser,
  parse_line, read_file,
}
use rate_engine.CdrMediator.File.Fields.{
  plain, quoted, line_of, field_of, written, cdr_file_getfield-line_of,
}
use rate_engine.CdrMediator.File.Empty.{has_empty, parse_line-empty}
use rate_engine.CdrMediator.File.Whole.{rows_of, records_of, insert_all, cdr_file_parser-whole}
use rate_engine.CdrMediator.File.Once.{IsTable, read_file-once}

-- The statements sent, and the rows of `cdr_files`.
abbrev Files : Type 0
Files = List (List (Text × Value)) × List (Text × ℕ)

abbrev rows_in : List (Text × ℕ) → Text → ℕ → ℕ
rows_in [] file server = 0
rows_in ((f, s) ∷ fs) file server =
    rows_in fs file server + (if text_eq f file && (s == server) then 1 else 0)

abbrev good_line : Text
good_line = text "u1,359,60"

abbrev bytes : Text
bytes = text "#uid,cld,sec" ++ newline ∷ good_line ++ newline ∷ text "u2,,5" ++ newline ∷ []

-- No file can be moved.
abbrev storage : Storage Files
storage = record {
  insert = λ w st. ((st ∷ w.0, w.1), true);
  file_rows = λ w file server. rows_in w.1 file server;
  add_file = λ w file server. (w.0, (file, server) ∷ w.1);
  open_file = λ w file. some bytes;
  move = λ w src dst. w;
}

abbrev profile : Profile
profile = record {
  src_dir = text "/in/";
  dst_dir = text "/out/";
  hdr =
      record { hdr_id = 0; func = some cdr_add_call_uid }
      ∷ record { hdr_id = 1; func = some cdr_add_called_number }
      ∷ record { hdr_id = 2; func = some cdr_add_billsec }
      ∷ [];
  col_sep = b',' ∷ [];
  hdr_comm = b'#';
  col_delimiter = 34 ∷ [];
  filters = none;
  cdr_rec_type_id = 3;
  file_field_num = 3;
}

storage-IsTable : IsTable storage
storage-IsTable = record {
  rows_added = λ w file server. ground (arith, text_eq_refl file);
  rows_inserted = λ w statement file server. refl;
  rows_moved = λ w src dst file server. refl;
}

cdr_file_getfield-line_of_example :
    cdr_file_getfield
      (line_of b',' 34 (plain (text "u1") ∷ quoted (text "359") ∷ []))
      (b',' ∷ [])
      (34 ∷ [])
    ≡ some (text "u1" ∷ text "359" ∷ [])
unfolding field_of is_sep written
cdr_file_getfield-line_of_example =
    cdr_file_getfield-line_of b',' 34 (plain (text "u1")) (quoted (text "359") ∷ [])
      (refl, refl, refl)
      (
        (refl, (refl, (refl, tt)), (refl, (refl, tt)), (refl, (refl, tt)), omega arith),
        (
          (
            refl,
            (refl, (refl, (refl, tt))),
            (refl, (refl, (refl, tt))),
            (refl, (refl, (refl, tt))),
            omega arith,
          ),
          tt,
        ),
      )

parse_line-empty_example :
    parse_line storage profile 1
      (join b',' (text "u2" ∷ [] ∷ (text "5" ++ newline ∷ []) ∷ []))
      (([], []), no_rows)
    ≡ some (([], []), no_rows)
unfolding is_sep has_empty
parse_line-empty_example =
    parse_line-empty storage profile 1 b',' (text "u2" ∷ [] ∷ []) (text "5") (([], []), no_rows)
      refl refl ((refl, (refl, tt)), (tt, tt)) (refl, tt) refl refl

-- Of three lines, one is a row, and it has a complete record.
cdr_file_parser-whole_example :
    let rows = rows_of profile (fgets_all 1023 [] bytes) in
    let inserted = insert_all storage profile ([], []) (records_of profile 1 rows) in
    cdr_file_parser storage profile 0 (text "/in/a") ([], [])
    ≡ some (
      storage.add_file inserted.0 (text "/in/a") 1,
      record {
        all_rows = length rows;
        parse_rows = length (records_of profile 1 rows);
        ins_rows = inserted.1;
      },
      0,
    )
unfolding fgets_all all_fit strtok_all split_from push_token is_sep
cdr_file_parser-whole_example =
    cdr_file_parser-whole storage profile 0 (text "/in/a") bytes ([], []) refl
      (refl, (refl, (refl, tt)))

read_file-once_example :
    Gives
      (λ (w1, server).
        read_file storage profile (text "a") (w1, server)
        ≡ some (storage.move w1 (text "/in/a") (text "/out/a"), server))
      (read_file storage profile (text "a") (([], []), 1))
unfolding fgets_all all_fit strtok_all split_from push_token is_sep
read_file-once_example =
    read_file-once storage profile 1 (text "a") bytes ([], []) storage-IsTable refl (ground arith)
      refl refl (refl, (refl, (refl, tt)))
