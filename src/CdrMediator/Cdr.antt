-- ===== src/CdrMediator/Cdr.antt =====
-- `cdr_t` of mod/CDRMediator/cdr.h, and the table of cdr.c that fills it from the texts of a row.
use rate_engine.Base.{ℕ, ◌-◌, List, [], ◌∷◌, Text, take, atoi, unsigned, text}

-- The fields that are written to the table of records, in the order of `cdr_tbl`. Numbers are
-- unbounded.
pub record Cdr : Type 0 where
  pub id : ℕ
  pub cdr_server_id : ℕ
  pub cdr_rec_type_id : ℕ
  pub leg_a : ℕ
  pub leg_b : ℕ
  pub call_uid : Text
  pub start_ts : Text
  pub answer_ts : Text
  pub end_ts : Text
  pub start_epoch : ℕ
  pub answer_epoch : ℕ
  pub end_epoch : ℕ
  pub src : Text
  pub dst : Text
  pub calling_number : Text
  pub clg_nadi : ℕ
  pub called_number : Text
  pub cld_nadi : ℕ
  pub rdnis : Text
  pub rdnis_nadi : ℕ
  pub ocn : Text
  pub ocn_nadi : ℕ
  pub prefix_filter_id : ℕ
  pub account_code : Text
  pub src_context : Text
  pub src_tgroup : Text
  pub dst_context : Text
  pub dst_tgroup : Text
  pub billsec : ℕ
  pub duration : ℕ
  pub uduration : ℕ
  pub billusec : ℕ

-- `memset(cdr_pt,0,sizeof(cdr_t))`.
abbrev pub zero_cdr : Cdr
zero_cdr = record {
  id = 0;
  cdr_server_id = 0;
  cdr_rec_type_id = 0;
  leg_a = 0;
  leg_b = 0;
  call_uid = [];
  start_ts = [];
  answer_ts = [];
  end_ts = [];
  start_epoch = 0;
  answer_epoch = 0;
  end_epoch = 0;
  src = [];
  dst = [];
  calling_number = [];
  clg_nadi = 0;
  called_number = [];
  cld_nadi = 0;
  rdnis = [];
  rdnis_nadi = 0;
  ocn = [];
  ocn_nadi = 0;
  prefix_filter_id = 0;
  account_code = [];
  src_context = [];
  src_tgroup = [];
  dst_context = [];
  dst_tgroup = [];
  billsec = 0;
  duration = 0;
  uduration = 0;
  billusec = 0;
}

-- The sizes of the text fields.
abbrev pub call_uid_len : ℕ
call_uid_len = 128

abbrev pub ts_len : ℕ
ts_len = 32

-- CLG_NUM_LEN, CLD_NUM_LEN, ACC_CODE_LEN, CONTEXT_LEN and TGROUP_LEN are all 80.
abbrev pub number_len : ℕ
number_len = 80

-- A copy that leaves room for the NUL.
unfoldable pub cdr_field_set : Text → ℕ → Text
cdr_field_set src size = take (size - 1) src

abbrev pub cdr_add_id : Cdr → Text → Cdr
cdr_add_id cdr txt = record cdr { id = unsigned 32 (atoi txt) }

abbrev pub cdr_add_cdr_server_id : Cdr → Text → Cdr
cdr_add_cdr_server_id cdr txt = record cdr { cdr_server_id = unsigned 16 (atoi txt) }

abbrev pub cdr_add_cdr_rec_type : Cdr → Text → Cdr
cdr_add_cdr_rec_type cdr txt = record cdr { cdr_rec_type_id = unsigned 16 (atoi txt) }

abbrev pub cdr_add_leg_a : Cdr → Text → Cdr
cdr_add_leg_a cdr txt = record cdr { leg_a = unsigned 32 (atoi txt) }

abbrev pub cdr_add_leg_b : Cdr → Text → Cdr
cdr_add_leg_b cdr txt = record cdr { leg_b = unsigned 32 (atoi txt) }

abbrev pub cdr_add_call_uid : Cdr → Text → Cdr
cdr_add_call_uid cdr txt = record cdr { call_uid = cdr_field_set txt call_uid_len }

abbrev pub cdr_add_start_ts : Cdr → Text → Cdr
cdr_add_start_ts cdr txt = record cdr { start_ts = cdr_field_set txt ts_len }

abbrev pub cdr_add_answer_ts : Cdr → Text → Cdr
cdr_add_answer_ts cdr txt = record cdr { answer_ts = cdr_field_set txt ts_len }

abbrev pub cdr_add_end_ts : Cdr → Text → Cdr
cdr_add_end_ts cdr txt = record cdr { end_ts = cdr_field_set txt ts_len }

abbrev pub cdr_add_start_epoch : Cdr → Text → Cdr
cdr_add_start_epoch cdr txt = record cdr { start_epoch = unsigned 32 (atoi txt) }

abbrev pub cdr_add_answer_epoch : Cdr → Text → Cdr
cdr_add_answer_epoch cdr txt = record cdr { answer_epoch = unsigned 32 (atoi txt) }

abbrev pub cdr_add_end_epoch : Cdr → Text → Cdr
cdr_add_end_epoch cdr txt = record cdr { end_epoch = unsigned 32 (atoi txt) }

abbrev pub cdr_add_src : Cdr → Text → Cdr
cdr_add_src cdr txt = record cdr { src = cdr_field_set txt number_len }

abbrev pub cdr_add_dst : Cdr → Text → Cdr
cdr_add_dst cdr txt = record cdr { dst = cdr_field_set txt number_len }

abbrev pub cdr_add_calling_number : Cdr → Text → Cdr
cdr_add_calling_number cdr txt = record cdr { calling_number = cdr_field_set txt number_len }

abbrev pub cdr_add_clg_nadi : Cdr → Text → Cdr
cdr_add_clg_nadi cdr txt = record cdr { clg_nadi = unsigned 16 (atoi txt) }

abbrev pub cdr_add_called_number : Cdr → Text → Cdr
cdr_add_called_number cdr txt = record cdr { called_number = cdr_field_set txt number_len }

abbrev pub cdr_add_cld_nadi : Cdr → Text → Cdr
cdr_add_cld_nadi cdr txt = record cdr { cld_nadi = unsigned 16 (atoi txt) }

abbrev pub cdr_add_rdnis : Cdr → Text → Cdr
cdr_add_rdnis cdr txt = record cdr { rdnis = cdr_field_set txt number_len }

abbrev pub cdr_add_rdnis_nadi : Cdr → Text → Cdr
cdr_add_rdnis_nadi cdr txt = record cdr { rdnis_nadi = unsigned 16 (atoi txt) }

abbrev pub cdr_add_ocn : Cdr → Text → Cdr
cdr_add_ocn cdr txt = record cdr { ocn = cdr_field_set txt number_len }

abbrev pub cdr_add_ocn_nadi : Cdr → Text → Cdr
cdr_add_ocn_nadi cdr txt = record cdr { ocn_nadi = unsigned 16 (atoi txt) }

abbrev pub cdr_add_prefix_filter_id : Cdr → Text → Cdr
cdr_add_prefix_filter_id cdr txt = record cdr { prefix_filter_id = unsigned 16 (atoi txt) }

abbrev pub cdr_add_account_code : Cdr → Text → Cdr
cdr_add_account_code cdr txt = record cdr { account_code = cdr_field_set txt number_len }

abbrev pub cdr_add_src_context : Cdr → Text → Cdr
cdr_add_src_context cdr txt = record cdr { src_context = cdr_field_set txt number_len }

abbrev pub cdr_add_src_tgroup : Cdr → Text → Cdr
cdr_add_src_tgroup cdr txt = record cdr { src_tgroup = cdr_field_set txt number_len }

abbrev pub cdr_add_dst_context : Cdr → Text → Cdr
cdr_add_dst_context cdr txt = record cdr { dst_context = cdr_field_set txt number_len }

abbrev pub cdr_add_dst_tgroup : Cdr → Text → Cdr
cdr_add_dst_tgroup cdr txt = record cdr { dst_tgroup = cdr_field_set txt number_len }

abbrev pub cdr_add_billsec : Cdr → Text → Cdr
cdr_add_billsec cdr txt = record cdr { billsec = unsigned 32 (atoi txt) }

abbrev pub cdr_add_duration : Cdr → Text → Cdr
cdr_add_duration cdr txt = record cdr { duration = unsigned 32 (atoi txt) }

abbrev pub cdr_add_uduration : Cdr → Text → Cdr
cdr_add_uduration cdr txt = record cdr { uduration = unsigned 32 (atoi txt) }

abbrev pub cdr_add_billusec : Cdr → Text → Cdr
cdr_add_billusec cdr txt = record cdr { billusec = unsigned 32 (atoi txt) }

-- The names of the columns with their functions.
unfoldable pub cdr_tbl : List (Text × (Cdr → Text → Cdr))
cdr_tbl =
    (text "id", cdr_add_id)
    ∷ (text "cdr_server_id", cdr_add_cdr_server_id)
    ∷ (text "cdr_rec_type_id", cdr_add_cdr_rec_type)
    ∷ (text "leg_a", cdr_add_leg_a)
    ∷ (text "leg_b", cdr_add_leg_b)
    ∷ (text "call_uid", cdr_add_call_uid)
    ∷ (text "start_ts", cdr_add_start_ts)
    ∷ (text "answer_ts", cdr_add_answer_ts)
    ∷ (text "end_ts", cdr_add_end_ts)
    ∷ (text "start_epoch", cdr_add_start_epoch)
    ∷ (text "answer_epoch", cdr_add_answer_epoch)
    ∷ (text "end_epoch", cdr_add_end_epoch)
    ∷ (text "src", cdr_add_src)
    ∷ (text "dst", cdr_add_dst)
    ∷ (text "calling_number", cdr_add_calling_number)
    ∷ (text "clg_nadi", cdr_add_clg_nadi)
    ∷ (text "called_number", cdr_add_called_number)
    ∷ (text "cld_nadi", cdr_add_cld_nadi)
    ∷ (text "rdnis", cdr_add_rdnis)
    ∷ (text "rdnis_nadi", cdr_add_rdnis_nadi)
    ∷ (text "ocn", cdr_add_ocn)
    ∷ (text "ocn_nadi", cdr_add_ocn_nadi)
    ∷ (text "prefix_filter_id", cdr_add_prefix_filter_id)
    ∷ (text "account_code", cdr_add_account_code)
    ∷ (text "src_context", cdr_add_src_context)
    ∷ (text "src_tgroup", cdr_add_src_tgroup)
    ∷ (text "dst_context", cdr_add_dst_context)
    ∷ (text "dst_tgroup", cdr_add_dst_tgroup)
    ∷ (text "billsec", cdr_add_billsec)
    ∷ (text "duration", cdr_add_duration)
    ∷ (text "uduration", cdr_add_uduration)
    ∷ (text "billusec", cdr_add_billusec)
    ∷ []

-- One row of `cdr_get_cdrs`: the texts of the selected columns, in the order of `cdr_tbl`.
unfoldable pub read_row : List (Text × (Cdr → Text → Cdr)) → List Text → Cdr → Cdr
read_row [] row cdr = cdr
read_row ((name, add) ∷ table) [] cdr = cdr
read_row ((name, add) ∷ table) (txt ∷ row) cdr = read_row table row (add cdr txt)
