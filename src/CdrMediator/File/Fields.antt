-- ===== src/CdrMediator/File/Fields.antt =====
-- The fields of a line that was written with separators and delimiters.
use rate_engine.Base.{
  ℕ, ◌<◌, ◌≡◌, refl, ap, ◌∙◌, true, false, ◌&&◌, List, [], ◌∷◌, ◌++◌, map, some, arith, ◌==◌, Text,
  is_set, length, length-append, strtok_all, strtok_all-field, strtok_all-skip, strtok_all-nil,
  strtok_all-join, join, is_sep, NoSep, IsField, All,
}
use rate_engine.CdrMediator.File.{
  newline, all_fit, fix_last, first_token, last_char, delimiter_fix, is_delimiter,
  cdr_file_getfield, cdr_file_getfield_cr_fix, cdr_file_getfield_delimiter_fix,
}

-- A column of a line, as it is or between delimiters.
pub data Column : Type 0 where
  plain : Text → Column
  quoted : Text → Column

unfoldable pub field_of : Column → Text
field_of (plain f) = f
field_of (quoted f) = f

unfoldable pub written : ℕ → Column → Text
written d (plain f) = f
written d (quoted f) = d ∷ f ++ d ∷ []

-- The line with its end.
unfoldable pub line_of : ℕ → ℕ → List Column → Text
line_of c d cols = join c (map (written d) cols) ++ newline ∷ []

-- The field is not empty, has no separator, delimiter and newline, and fits with its delimiters and
-- the newline.
abbrev pub FitsColumn : ℕ → ℕ → Column → Type 0
FitsColumn c d col =
    (is_set (field_of col) ≡ true)
    × NoSep (c ∷ []) (field_of col)
    × NoSep (d ∷ []) (field_of col)
    × NoSep (newline ∷ []) (field_of col)
    × (length (written d col) < 255)

-- The columns of a line, and the characters that it is written with.
abbrev pub Distinct : ℕ → ℕ → Type 0
Distinct c d = ((d == c) ≡ false) × ((newline == c) ≡ false) × ((d == newline) ≡ false)

unfoldable with_newline : List Text → List Text
with_newline [] = []
with_newline (f ∷ []) = (f ++ newline ∷ []) ∷ []
with_newline (f ∷ g ∷ fs) = f ∷ with_newline (g ∷ fs)

append_assoc : (xs ys zs : Text) → (xs ++ ys) ++ zs ≡ xs ++ (ys ++ zs)
append_assoc [] ys zs = refl
append_assoc (x ∷ xs) ys zs = ap (λ t. x ∷ t) (append_assoc xs ys zs)

join-newline :
    (c : ℕ) (f : Text) (fs : List Text)
    → join c (f ∷ fs) ++ newline ∷ [] ≡ join c (with_newline (f ∷ fs))
unfolding join with_newline
join-newline c f [] = refl
join-newline c f (g ∷ []) = append_assoc f _ _
join-newline c f (g ∷ h ∷ fs) =
    append_assoc f (c ∷ join c (g ∷ h ∷ fs)) (newline ∷ [])
    ∙ ap (λ t. f ++ c ∷ t) (join-newline c g (h ∷ fs))

-- The newline goes again.
cr_fix-newline :
    (f : Text)
    → is_set f ≡ true
    → NoSep (newline ∷ []) f
    → cdr_file_getfield_cr_fix (f ++ newline ∷ []) ≡ f
unfolding cdr_file_getfield_cr_fix first_token is_sep
cr_fix-newline f s n =
    ap (first_token (f ++ newline ∷ [])) (strtok_all-field (newline ∷ []) f [] newline (s, n) refl)

fix_last-with_newline :
    (fs : List Text) → All (IsField (newline ∷ [])) fs → fix_last (with_newline fs) ≡ fs
unfolding fix_last with_newline
fix_last-with_newline [] h = refl
fix_last-with_newline (f ∷ []) h = ap (λ t. t ∷ []) (cr_fix-newline f h.0.0 h.0.1)
fix_last-with_newline (f ∷ g ∷ []) h = ap (λ t. f ∷ t) (fix_last-with_newline (g ∷ []) h.1)
fix_last-with_newline (f ∷ g ∷ k ∷ fs) h = ap (λ t. f ∷ t) (fix_last-with_newline (g ∷ k ∷ fs) h.1)

NoSep-append : (seps f g : Text) → NoSep seps f → NoSep seps g → NoSep seps (f ++ g)
NoSep-append seps [] g h k = k
NoSep-append seps (c ∷ f) g h k = (h.0, NoSep-append seps f g h.1 k)

is_set-append : (f g : Text) → is_set f ≡ true → is_set (f ++ g) ≡ true
is_set-append [] g h = cc
is_set-append (c ∷ f) g h = refl

with_newline-IsField :
    (c : ℕ) (fs : List Text)
    → (newline == c) ≡ false
    → All (IsField (c ∷ [])) fs
    → All (IsField (c ∷ [])) (with_newline fs)
unfolding with_newline is_sep
with_newline-IsField c [] n h = tt
with_newline-IsField c (f ∷ []) n h = (
  (
    is_set-append f (newline ∷ []) h.0.0,
    NoSep-append (c ∷ []) f (newline ∷ []) h.0.1 (ground (arith, n), tt),
  ),
  tt,
)
with_newline-IsField c (f ∷ g ∷ fs) n h = (h.0, with_newline-IsField c (g ∷ fs) n h.1)

all_fit-with_newline :
    (fs : List Text) → All (λ f. length f < 255) fs → all_fit (with_newline fs) ≡ true
unfolding all_fit with_newline
all_fit-with_newline [] h = refl
all_fit-with_newline (f ∷ []) h = ground (arith, h.0, length-append f (newline ∷ []))
all_fit-with_newline (f ∷ g ∷ fs) h = ground (arith, h.0, all_fit-with_newline (g ∷ fs) h.1)

last_char-append : (c : ℕ) (f : Text) (d : ℕ) → last_char c (f ++ d ∷ []) ≡ d
last_char-append c [] d = refl
last_char-append c (e ∷ f) d = last_char-append e f d

is_sep_self : (c : ℕ) → is_sep (c ∷ []) c ≡ true
unfolding is_sep
is_sep_self c = ground arith

-- A field is read back, plain or between delimiters.
delimiter_fix-written :
    (d : ℕ) (col : Column)
    → is_set (field_of col) ≡ true
    → NoSep (d ∷ []) (field_of col)
    → delimiter_fix (d ∷ []) (written d col) ≡ field_of col
unfolding delimiter_fix written field_of is_sep first_token
delimiter_fix-written d (plain []) s n = cc
delimiter_fix-written d (plain (c ∷ f)) s n = ground (arith, n.0)
delimiter_fix-written d (quoted f) s n =
    let whole = d ∷ (f ++ d ∷ []) in
    let cut : strtok_all (d ∷ []) whole ≡ f ∷ [] =
      strtok_all-skip (d ∷ []) (f ++ d ∷ []) d (ground arith)
      ∙ strtok_all-field (d ∷ []) f [] d (s, n) (ground arith)
      ∙ ap (λ t. f ∷ t) (strtok_all-nil (d ∷ [])) in
    let between : (is_delimiter (d ∷ []) d && (d == last_char d (f ++ d ∷ []))) ≡ true =
      ground (arith, last_char-append d f d) in
    rw between (ap (first_token whole) cut)

written-IsField :
    (x d : ℕ) (col : Column)
    → (d == x) ≡ false
    → is_set (field_of col) ≡ true
    → NoSep (x ∷ []) (field_of col)
    → IsField (x ∷ []) (written d col)
unfolding written field_of is_sep
written-IsField x d (plain f) e s n = (s, n)
written-IsField x d (quoted f) e s n =
    let one : is_sep (x ∷ []) d ≡ false = ground (arith, e) in
    (refl, (one, NoSep-append (x ∷ []) f (d ∷ []) n (one, tt)))

All-written :
    (P : Text → Type 0) (Q : Column → Type 0) (d : ℕ) (cols : List Column)
    → ((col : Column) → Q col → P (written d col))
    → All Q cols
    → All P (map (written d) cols)
All-written P Q d [] k h = tt
All-written P Q d (col ∷ cols) k h = (k col h.0, All-written P Q d cols k h.1)

delimiter_fix-cols :
    (c d : ℕ) (cols : List Column)
    → All (FitsColumn c d) cols
    → cdr_file_getfield_delimiter_fix (d ∷ []) (map (written d) cols) ≡ map field_of cols
unfolding cdr_file_getfield_delimiter_fix
delimiter_fix-cols c d [] h = refl
delimiter_fix-cols c d (col ∷ cols) h =
    cc (delimiter_fix-written d col h.0.0 h.0.2, delimiter_fix-cols c d cols h.1)

-- The fields of a line are the texts that it was written with, whether they stand between
-- delimiters or not, when none is empty, none has a separator, a delimiter or a newline, each fits
-- its array, and these three characters differ.
pub cdr_file_getfield-line_of :
    (c d : ℕ) (col : Column) (cols : List Column)
    → Distinct c d
    → All (FitsColumn c d) (col ∷ cols)
    → cdr_file_getfield (line_of c d (col ∷ cols)) (c ∷ []) (d ∷ [])
      ≡ some (map field_of (col ∷ cols))
unfolding cdr_file_getfield line_of
cdr_file_getfield-line_of c d col cols (dc, nc, dn) h =
    let fs = map (written d) (col ∷ cols) in
    let of_sep =
      All-written (IsField (c ∷ [])) (FitsColumn c d) d (col ∷ cols)
        (λ k f. written-IsField c d k dc f.0 f.1) h in
    let of_newline =
      All-written (IsField (newline ∷ [])) (FitsColumn c d) d (col ∷ cols)
        (λ k f. written-IsField newline d k dn f.0 f.3) h in
    let sizes = All-written (λ f. length f < 255) (FitsColumn c d) d (col ∷ cols) (λ k f. f.4) h in
    let toks : strtok_all (c ∷ []) (join c fs ++ newline ∷ []) ≡ with_newline fs =
      ap (strtok_all (c ∷ [])) (join-newline c (written d col) (map (written d) cols))
      ∙ strtok_all-join (c ∷ []) c (with_newline fs) (is_sep_self c)
          (with_newline-IsField c fs nc of_sep) in
    let fixed =
      ap (cdr_file_getfield_delimiter_fix (d ∷ [])) (fix_last-with_newline fs of_newline)
      ∙ delimiter_fix-cols c d (col ∷ cols) h in
    rw (toks, all_fit-with_newline fs sizes) (ap some fixed)
