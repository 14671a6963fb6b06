-- ===== src/Database/Escape.antt =====
-- db_sql_escape of db/db.c, and the SQL string literals that its result stands in.
use rate_engine.Base.{
  >>=_assoc, sym, ◌⊎◌, Option-cases, not, ℕ, ◌+◌, ◌-◌, ◌*◌, ◌<◌, ◌≡◌, refl, ap, ◌∙◌, Bool, true,
  false, ◌&&◌, ◌||◌, [], ◌∷◌, ◌++◌, Option, none, some, arith, leb, ◌==◌, if◌then◌else◌, Text,
  length, ◌>>=◌, Bool-cases, inl, inr,
}
use mathlib.Core.Path.{subst}

abbrev pub quote : ℕ
quote = 39

abbrev pub backslash : ℕ
backslash = 92

abbrev pub is_doubled : ℕ → Bool
is_doubled c = (c == quote) || (c == backslash)

abbrev pub escape_char : ℕ → Text → Text
escape_char c rest = if is_doubled c then c ∷ c ∷ rest else c ∷ rest

-- The loop, at position `j` of a buffer of `dst_size` bytes: no result when the room runs out.
unfoldable pub escape_loop : ℕ → ℕ → Text → Option Text
escape_loop dst_size j [] = some []
escape_loop dst_size j (c ∷ src) =
    let rest = escape_loop dst_size (if is_doubled c then j + 2 else j + 1) src in
    if leb (dst_size - 2) j then none else (rest >>= λ dst. some (escape_char c dst))

-- The escaped text; a negative return value is no result.
unfoldable pub db_sql_escape : Text → ℕ → Option Text
db_sql_escape src dst_size = if dst_size == 0 then none else escape_loop dst_size 0 src

-- A literal after its opening quote, as the text that it stands for and what follows it: two quotes
-- stand for one. In MySQL a backslash stands for the character after it, and in standard SQL for
-- itself.
unfoldable pub read_literal : Bool → Text → Option (Text × Text)
read_literal escapes [] = none
read_literal escapes (c ∷ []) = if c == quote then some ([], []) else none
read_literal escapes (c ∷ d ∷ txt) =
    let one = read_literal escapes (d ∷ txt) in
    let two = read_literal escapes txt in
    if c == quote
    then (if d == quote then (two >>= λ (s, rest). some (quote ∷ s, rest)) else some ([], d ∷ txt))
    else if escapes && (c == backslash)
    then (two >>= λ (s, rest). some (d ∷ s, rest))
    else (one >>= λ (s, rest). some (c ∷ s, rest))

-- The text that the database stores: standard SQL keeps both of two backslashes.
unfoldable pub stored_text : Bool → Text → Text
stored_text escapes [] = []
stored_text escapes (c ∷ src) =
    if not escapes && (c == backslash)
    then c ∷ c ∷ stored_text escapes src
    else c ∷ stored_text escapes src

-- What follows a literal in a statement is not a quote.
abbrev pub IsAfter : Text → Type 0
IsAfter [] = ⊥
IsAfter (c ∷ rest) = (c == quote) ≡ false

-- The escaped text, whatever the room.
unfoldable escaped : Text → Text
escaped [] = []
escaped (c ∷ src) = escape_char c (escaped src)

escape_loop-escaped :
    (src : Text) (dst_size j : ℕ) (dst : Text)
    → escape_loop dst_size j src ≡ some dst
    → dst ≡ escaped src
unfolding escape_loop escaped ◌>>=◌
escape_loop-escaped [] dst_size j dst e = ground (arith, e)
escape_loop-escaped (c ∷ src) dst_size j dst e =
    let k = if is_doubled c then j + 2 else j + 1 in
    elim (Option-cases (escape_loop dst_size k src)) [
      | inl f ↦ absurd (ground (arith, e, f))
      | inr (d, f) ↦ ground (arith, e, f, escape_loop-escaped src dst_size k d f)
    ]

abbrev longer : ℕ → Text × Text → Option (Text × Text)
longer c (s, rest) = some (c ∷ s, rest)

read_plain :
    (escapes : Bool) (c : ℕ) (txt : Text)
    → (c == quote) ≡ false
    → (escapes && (c == backslash)) ≡ false
    → read_literal escapes (c ∷ txt) ≡ (read_literal escapes txt >>= longer c)
unfolding read_literal ◌>>=◌
read_plain escapes c [] p q = ground (arith, p)
read_plain escapes c (d ∷ txt) p q = rw (p, q) refl

read_backslashes :
    (escapes : Bool) (txt : Text)
    → read_literal escapes (backslash ∷ backslash ∷ txt) ≡ (
        read_literal escapes txt >>= λ (s, rest).
        some (stored_text escapes (backslash ∷ []) ++ s, rest))
unfolding read_literal stored_text ◌>>=◌
read_backslashes true txt = refl
read_backslashes false txt =
    ap (λ o. o >>= longer backslash) (read_plain false backslash txt refl refl)
    ∙ >>=_assoc (read_literal false txt) (longer backslash) (longer backslash)

read_end :
    (escapes : Bool) (rest : Text)
    → IsAfter rest
    → read_literal escapes (quote ∷ rest) ≡ some ([], rest)
unfolding read_literal
read_end escapes [] a = elim a [ ]
read_end escapes (c ∷ rest) a = rw a refl

char_cases :
    (c : ℕ)
    → (c ≡ quote) ⊎ ((c ≡ backslash) ⊎ (((c == quote) ≡ false) × ((c == backslash) ≡ false)))
char_cases c = elim (Bool-cases (c == quote)) [
  | inl e ↦ inl (ground (arith, e))
  | inr e ↦ elim (Bool-cases (c == backslash)) [
    | inl f ↦ inr (inl (ground (arith, f)))
    | inr f ↦ inr (inr (e, f))
  ]
]

-- A character of the source is read back as it is stored.
abbrev ReadsBack : Bool → Text → ℕ → Type 0
ReadsBack escapes txt c =
    read_literal escapes (escape_char c txt)
    ≡ (read_literal escapes txt >>= λ (s, rest). some (stored_text escapes (c ∷ []) ++ s, rest))

read_quote : (escapes : Bool) (txt : Text) → ReadsBack escapes txt quote
unfolding read_literal stored_text
read_quote true txt = refl
read_quote false txt = refl

read_char : (escapes : Bool) (txt : Text) (c : ℕ) → ReadsBack escapes txt c
unfolding stored_text
read_char escapes txt c = elim (char_cases c) [
  | inl e ↦ subst (ReadsBack escapes txt) (sym e) (read_quote escapes txt)
  | inr (inl e) ↦ subst (ReadsBack escapes txt) (sym e) (read_backslashes escapes txt)
  | inr (inr (e, f)) ↦
      let plain : escape_char c txt ≡ c ∷ txt = ground (arith, e, f) in
      let kept : stored_text escapes (c ∷ []) ≡ c ∷ [] = ground (arith, f) in
      ap (read_literal escapes) plain
      ∙ read_plain escapes c txt e (ground (arith, f))
      ∙ ap (λ t. read_literal escapes txt >>= λ (s, rest). some (t ++ s, rest)) (sym kept)
]

stored_text-cons :
    (escapes : Bool) (c : ℕ) (src : Text)
    → stored_text escapes (c ∷ src) ≡ stored_text escapes (c ∷ []) ++ stored_text escapes src
unfolding stored_text
stored_text-cons escapes c src = ground arith

escape_char-append : (c : ℕ) (s t : Text) → escape_char c s ++ t ≡ escape_char c (s ++ t)
escape_char-append c s t = ground arith

read_escaped :
    (escapes : Bool) (src rest : Text)
    → IsAfter rest
    → read_literal escapes (escaped src ++ quote ∷ rest) ≡ some (stored_text escapes src, rest)
unfolding escaped ◌>>=◌ stored_text
read_escaped escapes [] rest a = read_end escapes rest a
read_escaped escapes (c ∷ src) rest a =
    let txt = escaped src ++ quote ∷ rest in
    ap (read_literal escapes) (escape_char-append c (escaped src) (quote ∷ rest))
    ∙ read_char escapes txt c
    ∙ ap (λ o. o >>= λ (s, t). some (stored_text escapes (c ∷ []) ++ s, t))
        (read_escaped escapes src rest a)
    ∙ ap (λ s. some (s, rest)) (sym (stored_text-cons escapes c src))

-- An escaped text between quotes is read as one literal, which ends at the closing quote: what the
-- database stores is the text in MySQL, and the text with its backslashes doubled in standard SQL.
pub db_sql_escape-reads :
    (escapes : Bool) (src : Text) (dst_size : ℕ) (dst rest : Text)
    → db_sql_escape src dst_size ≡ some dst
    → IsAfter rest
    → read_literal escapes (dst ++ quote ∷ rest) ≡ some (stored_text escapes src, rest)
unfolding db_sql_escape
db_sql_escape-reads escapes src dst_size dst rest e a = elim (Bool-cases (dst_size == 0)) [
  | inl z ↦ absurd (ground (arith, z, e))
  | inr z ↦
      let f : escape_loop dst_size 0 src ≡ some dst = ground (arith, z, e) in
      ap (λ d. read_literal escapes (d ++ quote ∷ rest)) (escape_loop-escaped src dst_size 0 dst f)
      ∙ read_escaped escapes src rest a
]

escape_loop-fits :
    (src : Text) (dst_size j : ℕ)
    → 2 * length src + j < dst_size
    → (dst : Text) × (escape_loop dst_size j src ≡ some dst)
unfolding escape_loop ◌>>=◌
escape_loop-fits [] dst_size j h = ([], refl)
escape_loop-fits (c ∷ src) dst_size j h =
    let k = if is_doubled c then j + 2 else j + 1 in
    let (d, e) = escape_loop-fits src dst_size k (ground (arith, h)) in
    (escape_char c d, ground (arith, h, e))

-- A buffer of more than twice the bytes of the text has room for the escaped text and its NUL.
pub db_sql_escape-fits :
    (src : Text) (dst_size : ℕ)
    → 2 * length src < dst_size
    → (dst : Text) × (db_sql_escape src dst_size ≡ some dst)
unfolding db_sql_escape
db_sql_escape-fits src dst_size h =
    let (d, e) = escape_loop-fits src dst_size 0 (omega (arith, h)) in (d, ground (arith, h, e))
