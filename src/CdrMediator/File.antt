-- ===== src/CdrMediator/File.antt =====
-- mod/CDRMediator/cdr_file.c: files of call records, from the bytes of a file to the statements
-- that store its records. Texts have no NUL; allocation succeeds.
pub mod Fields
pub mod Counted
pub mod Empty
pub mod Once
pub mod Whole
pub mod Tests
use rate_engine.Base.{
  ◌>>=◌, ℕ, zero, suc, ◌+◌, ◌-◌, Bool, true, false, ◌&&◌, List, [], ◌∷◌, ◌++◌, map, Option, none,
  some, ltb, ◌==◌, if◌then◌else◌, Text, text, is_set, length, strtok_all, ◌||◌,
}
use rate_engine.CdrMediator.Cdr.{Cdr, zero_cdr}
use rate_engine.CdrMediator.Filter.{Filter}
use rate_engine.CdrMediator.Store.{Value, cdr_add_in_db}

-- READBUF_LEN, CDR_FIELD_TXT_LEN, and a newline.
abbrev pub readbuf_len : ℕ
readbuf_len = 1024

abbrev pub cdr_field_txt_len : ℕ
cdr_field_txt_len = 256

abbrev pub newline : ℕ
newline = 10

-- `cdr_file_header_t`: the column of a field of the record.
pub record Header : Type 0 where
  pub hdr_id : ℕ
  pub func : Option (Cdr → Text → Cdr)

-- `cdr_file_profile_t`, as far as the parser reads it.
pub record Profile : Type 0 where
  pub src_dir : Text
  pub dst_dir : Text
  pub hdr : List Header
  pub col_sep : Text
  pub hdr_comm : ℕ
  pub col_delimiter : Text
  pub filters : Option (List Filter)
  pub cdr_rec_type_id : ℕ
  pub file_field_num : ℕ

-- The texts that `fgets` returns: up to a newline, or as much as the buffer holds. `cur` was read,
-- and there is room for `room` bytes more.
unfoldable pub fgets_all : ℕ → Text → Text → List Text
fgets_all room [] [] = []
fgets_all room (b ∷ cur) [] = (b ∷ cur) ∷ []
fgets_all room cur (c ∷ s) =
    let cut = (cur ++ c ∷ []) ∷ fgets_all (readbuf_len - 1) [] s in
    let more = fgets_all (room - 1) (cur ++ c ∷ []) s in
    if (c == newline) || (room == 1) then cut else more

unfoldable pub first_token : Text → List Text → Text
first_token txt [] = txt
first_token txt (tok ∷ toks) = tok

-- The line break goes, unless there is nothing else.
unfoldable pub cdr_file_getfield_cr_fix : Text → Text
cdr_file_getfield_cr_fix row = first_token row (strtok_all (newline ∷ []) row)

abbrev pub last_char : ℕ → Text → ℕ
last_char c [] = c
last_char c (d ∷ s) = last_char d s

-- The delimiter is one character.
abbrev pub is_delimiter : Text → ℕ → Bool
is_delimiter [] c = false
is_delimiter (d ∷ []) c = c == d
is_delimiter (d ∷ e ∷ del) c = false

-- A field between delimiters is cut to what stands up to the next one.
unfoldable pub delimiter_fix : Text → Text → Text
delimiter_fix del [] = []
delimiter_fix del (c ∷ txt) =
    if is_delimiter del c && (c == last_char c txt)
    then first_token (c ∷ txt) (strtok_all del (c ∷ txt))
    else c ∷ txt

unfoldable pub cdr_file_getfield_delimiter_fix : Text → List Text → List Text
cdr_file_getfield_delimiter_fix del fields = map (delimiter_fix del) fields

unfoldable pub fix_last : List Text → List Text
fix_last [] = []
fix_last (f ∷ []) = cdr_file_getfield_cr_fix f ∷ []
fix_last (f ∷ g ∷ fs) = f ∷ fix_last (g ∷ fs)

unfoldable pub all_fit : List Text → Bool
all_fit [] = true
all_fit (f ∷ fs) = ltb (length f) cdr_field_txt_len && all_fit fs

-- The fields of a line. No result stands for a field that is copied past the end of its array.
unfoldable pub cdr_file_getfield : Text → Text → Text → Option (List Text)
cdr_file_getfield line sep del =
    let toks = strtok_all sep line in
    if all_fit toks then some (cdr_file_getfield_delimiter_fix del (fix_last toks)) else none

unfoldable pub cdr_file_field_analize : Text → Text → ℕ
cdr_file_field_analize line sep = length (strtok_all sep line)

-- The columns `i` among the headers.
unfoldable pub put_field : List Header → ℕ → Text → Cdr → Cdr
put_field [] i txt cdr = cdr
put_field (h ∷ hdr) i txt cdr =
    put_field hdr i txt
      (if h.hdr_id == i then (elim h.func [ none ↦ cdr | some func ↦ func cdr txt ]) else cdr)

unfoldable pub put_fields : List Header → ℕ → List Text → Cdr → Cdr
put_fields hdr i [] cdr = cdr
put_fields hdr i (txt ∷ fields) cdr = put_fields hdr (i + 1) fields (put_field hdr i txt cdr)

-- The record of a row.
unfoldable pub row_cdr : Profile → ℕ → List Text → Cdr
row_cdr profile cdr_server_id fields =
    put_fields profile.hdr 0 fields
      (record zero_cdr { cdr_server_id = cdr_server_id; cdr_rec_type_id = profile.cdr_rec_type_id })

-- The least that a record has.
abbrev pub is_complete : Cdr → Bool
is_complete cdr =
    is_set cdr.call_uid && is_set cdr.called_number && ltb 0 cdr.cdr_server_id && ltb 0 cdr.billsec

-- The database: whether a statement is stored, and the rows of a file and a server in `cdr_files`.
-- The files: what `fopen` reads, and `rename`.
pub record Storage (W : Type 0) : Type 0 where
  pub insert : W → List (Text × Value) → W × Bool
  pub file_rows : W → Text → ℕ → ℕ
  pub add_file : W → Text → ℕ → W
  pub open_file : W → Text → Option Text
  pub move : W → Text → Text → W

-- `all_rows`, `parse_rows` and `ins_rows`.
pub record Rows : Type 0 where
  pub all_rows : ℕ
  pub parse_rows : ℕ
  pub ins_rows : ℕ

abbrev pub no_rows : Rows
no_rows = record { all_rows = 0; parse_rows = 0; ins_rows = 0 }

module _ {W : Type 0} (storage : Storage W) (profile : Profile) where
  -- `cdr_add_in_db(...) == 0`.
  unfoldable pub add_cdr : W → Cdr → W × Bool
  add_cdr w cdr = elim (cdr_add_in_db profile.filters cdr) [
    | none ↦ (w, false)
    | some statement ↦ storage.insert w statement
  ]

  unfoldable pub add_row : ℕ → List Text → W × Rows → W × Rows
  add_row cdr_server_id fields (w, rows) =
      let cdr = row_cdr profile cdr_server_id fields in
      let (w1, ok) = add_cdr w cdr in
      if is_complete cdr
      then (
        w1,
        record {
          all_rows = rows.all_rows + 1;
          parse_rows = rows.parse_rows + 1;
          ins_rows = if ok then rows.ins_rows + 1 else rows.ins_rows;
        },
      )
      else (w, record rows { all_rows = rows.all_rows + 1 })

  -- A header line and a line with another number of fields are passed over.
  abbrev pub is_header : Text → Bool
  is_header [] = false
  is_header (c ∷ s) = c == profile.hdr_comm

  abbrev pub is_row : Text → Bool
  is_row line =
      ltb 0 (cdr_file_field_analize line profile.col_sep)
      && (profile.file_field_num == cdr_file_field_analize line profile.col_sep)

  unfoldable pub parse_line : ℕ → Text → W × Rows → Option (W × Rows)
  parse_line cdr_server_id line s =
      let row = cdr_file_getfield line profile.col_sep profile.col_delimiter >>= λ fields.
      some (add_row cdr_server_id fields s) in
      if is_header line then some s else if is_row line then row else some s

  unfoldable pub parse_lines : ℕ → List Text → W × Rows → Option (W × Rows)
  parse_lines cdr_server_id [] s = some s
  parse_lines cdr_server_id (line ∷ lines) s = do
    s1 ← parse_line cdr_server_id line s
    parse_lines cdr_server_id lines s1

  -- The file is found when it has one row for the server, whose id is not 0.
  unfoldable pub cdr_file_get_from_tbl : W → Text → ℕ → Bool
  cdr_file_get_from_tbl w filename cdr_server_id = storage.file_rows w filename cdr_server_id == 1

  -- An unresolved server is server 1, from here on.
  abbrev pub resolved : ℕ → ℕ
  resolved cdr_server_id = if cdr_server_id == 0 then 1 else cdr_server_id

  -- The return value, 0 or 2, with the world and the counts.
  unfoldable pub cdr_file_parser : ℕ → Text → W → Option (W × Rows × ℕ)
  cdr_file_parser cdr_server_id filename w = elim (storage.open_file w filename) [
    | none ↦ some (w, no_rows, 2)
    | some bytes ↦ do
      (w1, rows) ←
          parse_lines (resolved cdr_server_id) (fgets_all (readbuf_len - 1) [] bytes) (w, no_rows)
      some (storage.add_file w1 filename (resolved cdr_server_id), rows, 0)
  ]

  -- A file of the directory, with the server of the profile before and after it.
  unfoldable pub read_file : Text → W × ℕ → Option (W × ℕ)
  read_file filename (w, cdr_server_id) =
      let src = profile.src_dir ++ filename in
      let dst = profile.dst_dir ++ filename in
      let read = cdr_file_parser cdr_server_id src w >>= λ (w1, rows, ret).
      some (if ret == 0 then storage.move w1 src dst else w1, resolved cdr_server_id) in
      if is_set filename
      then (if cdr_file_get_from_tbl w src cdr_server_id
          then some (storage.move w src dst, cdr_server_id)
          else read)
      else some (w, cdr_server_id)

  -- `list` is what `readdir` returns, without `.` and `..`.
  unfoldable pub cdr_file_reader : List Text → W × ℕ → Option (W × ℕ)
  cdr_file_reader [] s = some s
  cdr_file_reader (filename ∷ list) s = do s1 ← read_file filename s; cdr_file_reader list s1
