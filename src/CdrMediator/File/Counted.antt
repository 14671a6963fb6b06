-- ===== src/CdrMediator/File/Counted.antt =====
-- What a file leaves in the database, and the counts of its rows.
use rate_engine.Base.{
  ◌>>=◌, >>=-Gives, ℕ, ◌+◌, ◌-◌, ◌≤◌, ◌≡◌, refl, true, List, [], ◌∷◌, Option, some, arith, Text,
  length, strtok_all, All, Gives, if_ind, Bool-cases, Option-cases, inl, inr,
}
use rate_engine.CdrMediator.Store.{Value, cdr_add_in_db}
use rate_engine.CdrMediator.File.{
  Storage, Profile, Rows, no_rows, readbuf_len, fgets_all, all_fit, is_complete, row_cdr, add_cdr,
  add_row, cdr_file_getfield, is_header, is_row, parse_line, parse_lines, resolved, cdr_file_parser,
}

-- The counts after `n` lines.
abbrev pub IsCounted : ℕ → Rows → Type 0
IsCounted n rows =
    (rows.ins_rows ≤ rows.parse_rows) × (rows.parse_rows ≤ rows.all_rows) × (rows.all_rows ≤ n)

-- The fields of the line fit their arrays.
abbrev pub FitsLine : Text → Text → Type 0
FitsLine sep line = all_fit (strtok_all sep line) ≡ true

module _ {W : Type 0} (storage : Storage W) (profile : Profile) where
  -- The statement of a record that has the least.
  abbrev pub IsStored : ℕ → List (Text × Value) → Type 0
  IsStored cdr_server_id statement =
      (fields : List Text) × (is_complete (row_cdr profile cdr_server_id fields) ≡ true)
      × (cdr_add_in_db profile.filters (row_cdr profile cdr_server_id fields) ≡ some statement)

  module _ (P : W → Type 0) (cdr_server_id : ℕ)
      (keeps : (w : W) (statement : List (Text × Value))
        → IsStored cdr_server_id statement
        → P w
        → P (storage.insert w statement).0) where
    add_cdr-keeps :
        (w : W) (fields : List Text)
        → is_complete (row_cdr profile cdr_server_id fields) ≡ true
        → P w
        → P (add_cdr storage profile w (row_cdr profile cdr_server_id fields)).0
    unfolding add_cdr
    add_cdr-keeps w fields c p =
        elim (Option-cases (cdr_add_in_db profile.filters (row_cdr profile cdr_server_id fields))) [
          | inl e ↦ rw (add_cdr, e) p
          | inr (st, e) ↦ rw (add_cdr, e) (keeps w st (fields, c, e) p)
        ]

    add_row-keeps :
        (fields : List Text) (s : W × Rows) (n : ℕ)
        → P s.0
        → IsCounted n s.1
        → P (add_row storage profile cdr_server_id fields s).0
          × IsCounted (n + 1) (add_row storage profile cdr_server_id fields s).1
    unfolding add_row
    add_row-keeps fields (w, rows) n p c =
        elim (Bool-cases (is_complete (row_cdr profile cdr_server_id fields))) [
          | inl e ↦ rw e (add_cdr-keeps w fields e p, ground (arith, c))
          | inr e ↦ rw e (p, ground (arith, c))
        ]

    parse_line-keeps :
        (line : Text) (s : W × Rows) (n : ℕ)
        → FitsLine profile.col_sep line
        → P s.0
        → IsCounted n s.1
        → Gives
            (λ s1. P s1.0 × IsCounted (n + 1) s1.1)
            (parse_line storage profile cdr_server_id line s)
    unfolding parse_line cdr_file_getfield ◌>>=◌
    parse_line-keeps line s n f p c =
        let Q : Option (W × Rows) → Type 0 = Gives (λ s1. P s1.0 × IsCounted (n + 1) s1.1) in
        let kept : Q (some s) =
          (s, refl, (p, (omega (arith, c), omega (arith, c), omega (arith, c)))) in
        rw f (
          if_ind Q (is_header storage profile line) _ _ kept
            (if_ind Q (is_row storage profile line) _ _ (_, refl, add_row-keeps _ s n p c) kept))

    parse_lines-keeps :
        (lines : List Text) (s : W × Rows) (n : ℕ)
        → All (FitsLine profile.col_sep) lines
        → P s.0
        → IsCounted n s.1
        → Gives
            (λ s1. P s1.0 × IsCounted (n + length lines) s1.1)
            (parse_lines storage profile cdr_server_id lines s)
    unfolding parse_lines
    parse_lines-keeps [] s n f p c =
        (s, refl, (p, (omega (arith, c), omega (arith, c), omega (arith, c))))
    parse_lines-keeps (line ∷ lines) s n f p c =
        >>=-Gives (parse_line storage profile cdr_server_id line s)
          (parse_lines storage profile cdr_server_id lines) (parse_line-keeps line s n f.0 p c)
          (λ s1 (p1, c1).
            let (s2, e, (p2, c2)) = parse_lines-keeps lines s1 (n + 1) f.1 p1 c1 in
            (s2, e, (p2, (omega (arith, c2), omega (arith, c2), omega (arith, c2)))))

  -- A file that opens, all of whose fields fit their arrays, is read to its end with result 0: it
  -- inserts no more records than it parsed, parses no more than it found rows, and finds no more
  -- than it has lines; and the database keeps, until the file is marked there, whatever the
  -- insertion of records with an id, a called number, a server and seconds keeps.
  pub cdr_file_parser-keeps :
      (P : W → Type 0) (cdr_server_id : ℕ) (filename bytes : Text) (w : W)
      → ((w1 : W) (statement : List (Text × Value))
          → IsStored (resolved storage profile cdr_server_id) statement
          → P w1
          → P (storage.insert w1 statement).0)
      → storage.open_file w filename ≡ some bytes
      → All (FitsLine profile.col_sep) (fgets_all (readbuf_len - 1) [] bytes)
      → P w
      → Gives
          (λ (w2, rows, ret).
            (ret ≡ 0)
            × IsCounted (length (fgets_all (readbuf_len - 1) [] bytes)) rows
            × ((w1 : W) × P w1
                × (w2 ≡ storage.add_file w1 filename (resolved storage profile cdr_server_id))))
          (cdr_file_parser storage profile cdr_server_id filename w)
  unfolding cdr_file_parser ◌>>=◌
  cdr_file_parser-keeps P cdr_server_id filename bytes w keeps o f p =
      let lines = fgets_all (readbuf_len - 1) [] bytes in
      let ((w1, rows), e, (p1, c1)) =
        parse_lines-keeps P (resolved storage profile cdr_server_id) keeps lines (w, no_rows) 0 f p
          (omega arith, omega arith, omega arith) in
      rw (cdr_file_parser, o, e)
        (_, refl, (refl, (omega (arith, c1), omega (arith, c1), omega (arith, c1)), (w1, p1, refl)))
