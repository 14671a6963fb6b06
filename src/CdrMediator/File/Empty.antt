-- ===== src/CdrMediator/File/Empty.antt =====
-- Lines with an empty column.
use rate_engine.Base.{
  ℕ, ◌+◌, ◌≤◌, ◌≡◌, refl, ap, true, false, Bool, List, [], ◌∷◌, ◌++◌, some, arith, ◌==◌,
  if◌then◌else◌, Text, is_set, length, length-append, strtok_all, strtok_all-sep, strtok_all-rest,
  strtok_all-nil, if_ind, push_token, join, is_sep, NoSep, All,
}
use rate_engine.CdrMediator.File.{
  Storage, Profile, Rows, newline, cdr_file_field_analize, is_row, is_header, parse_line,
}

unfoldable pub has_empty : List Text → Bool
has_empty [] = false
has_empty (f ∷ fs) = if is_set f then has_empty fs else true

length-push_token :
    (f : Text) (later : List Text)
    → length (push_token f later) ≡ (if is_set f then length later + 1 else length later)
unfolding push_token
length-push_token [] later = refl
length-push_token (c ∷ f) later = omega arith

-- No more tokens than columns, and fewer when a column is empty.
tokens-le :
    (c : ℕ) (cols : List Text)
    → All (NoSep (c ∷ [])) cols
    → length (strtok_all (c ∷ []) (join c cols)) + (if has_empty cols then 1 else 0) ≤ length cols
unfolding has_empty join is_sep
tokens-le c [] h = omega (arith, ap (length {A = Text}) (strtok_all-nil (c ∷ [])))
tokens-le c (f ∷ []) h =
    ground (arith, ap (length {A = Text}) (strtok_all-rest (c ∷ []) f h.0), length-push_token f [])
tokens-le c (f ∷ g ∷ fs) h = ground (
  arith,
  tokens-le c (g ∷ fs) h.1,
  ap (length {A = Text}) (strtok_all-sep (c ∷ []) f (join c (g ∷ fs)) c h.0 (ground arith)),
  length-push_token f (strtok_all (c ∷ []) (join c (g ∷ fs))),
)

has_empty-append :
    (cols : List Text) (f : Text) → has_empty cols ≡ true → has_empty (cols ++ f ∷ []) ≡ true
unfolding has_empty
has_empty-append [] f h = absurd (ground (arith, h))
has_empty-append ([] ∷ cols) f h = refl
has_empty-append ((c ∷ g) ∷ cols) f h = has_empty-append cols f h

All-append {ℓ κ} :
    {A : Type ℓ} (P : A → Type κ) (xs : List A) (x : A) → All P xs → P x → All P (xs ++ x ∷ [])
All-append P [] x h p = (p, tt)
All-append P (y ∷ xs) x h p = (h.0, All-append P xs x h.1 p)

module _ {W : Type 0} (storage : Storage W) (profile : Profile) where
  columns-empty :
      (cdr_server_id c : ℕ) (cols : List Text) (s : W × Rows)
      → profile.col_sep ≡ c ∷ []
      → All (NoSep (c ∷ [])) cols
      → length cols ≡ profile.file_field_num
      → has_empty cols ≡ true
      → parse_line storage profile cdr_server_id (join c cols) s ≡ some s
  unfolding parse_line cdr_file_field_analize
  columns-empty cdr_server_id c cols s e h n empty =
      let fewer = tokens-le c cols h in
      let line = join c cols in
      let other : is_row storage profile line ≡ false = ground (arith, e, fewer, n, empty) in
      rw other (if_ind (λ o. o ≡ some s) (is_header storage profile line) _ _ refl refl)

  -- A line with its newline, with as many columns as the profile wants, is passed over, with nothing
  -- stored and nothing counted, when a column before the last is empty.
  pub parse_line-empty :
      (cdr_server_id c : ℕ) (cols : List Text) (last : Text) (s : W × Rows)
      → profile.col_sep ≡ c ∷ []
      → (newline == c) ≡ false
      → All (NoSep (c ∷ [])) cols
      → NoSep (c ∷ []) last
      → length cols + 1 ≡ profile.file_field_num
      → has_empty cols ≡ true
      → parse_line storage profile cdr_server_id (join c (cols ++ (last ++ newline ∷ []) ∷ [])) s
        ≡ some s
  unfolding is_sep
  parse_line-empty cdr_server_id c cols last s e other h l n empty =
      columns-empty cdr_server_id c (cols ++ (last ++ newline ∷ []) ∷ []) s e
        (All-append (NoSep (c ∷ [])) cols (last ++ newline ∷ []) h
          (All-append (λ b. is_sep (c ∷ []) b ≡ false) last newline l (ground (arith, other))))
        (omega (arith, n, length-append cols ((last ++ newline ∷ []) ∷ [])))
        (has_empty-append cols (last ++ newline ∷ []) empty)
