-- ===== src/Base/Tokens.antt =====
-- `strtok` of libc: the tokens that the calls on one text return, from the first to the one before
-- NULL.
use Prim.Native.Nat.{ℕ}
use mathlib.Core.Path.{◌≡◌, refl, ◌∙◌, ap, sym}
use mathlib.Core.Bool.{Bool, true, false}
use mathlib.Core.List.{List, [], ◌∷◌, ◌++◌}
use rate_engine.Base.Tests.{◌==◌, if◌then◌else◌}
use rate_engine.Base.Lists.{All}
use rate_engine.Base.Strings.{Text, is_set}

-- A byte of the separators.
unfoldable pub is_sep : Text → ℕ → Bool
is_sep [] c = false
is_sep (b ∷ seps) c = if c == b then true else is_sep seps c

-- A token that is not empty.
unfoldable pub push_token : Text → List Text → List Text
push_token [] later = later
push_token (c ∷ cur) later = (c ∷ cur) ∷ later

-- The tokens of a text, the first of which began with `cur`.
unfoldable pub split_from : Text → Text → Text → List Text
split_from seps cur [] = push_token cur []
split_from seps cur (c ∷ s) =
    let cut = push_token cur (split_from seps [] s) in
    let more = split_from seps (cur ++ c ∷ []) s in if is_sep seps c then cut else more

unfoldable pub strtok_all : Text → Text → List Text
unfolding split_from
strtok_all seps s = split_from seps [] s

-- No byte is a separator, and there is one.
abbrev pub NoSep : Text → Text → Type 0
NoSep seps f = All (λ c. is_sep seps c ≡ false) f

abbrev pub IsField : Text → Text → Type 0
IsField seps f = (is_set f ≡ true) × NoSep seps f

append_assoc : (xs ys zs : Text) → (xs ++ ys) ++ zs ≡ xs ++ (ys ++ zs)
append_assoc [] ys zs = refl
append_assoc (x ∷ xs) ys zs = ap (λ t. x ∷ t) (append_assoc xs ys zs)

append_nil : (xs : Text) → xs ++ [] ≡ xs
append_nil [] = refl
append_nil (x ∷ xs) = ap (λ t. x ∷ t) (append_nil xs)

-- Bytes that are no separators join the token.
split_from-field :
    (seps cur f rest : Text)
    → NoSep seps f
    → split_from seps cur (f ++ rest) ≡ split_from seps (cur ++ f) rest
unfolding split_from
split_from-field seps cur [] rest h = ap (λ t. split_from seps t rest) (sym (append_nil cur))
split_from-field seps cur (c ∷ f) rest h =
    let e = split_from-field seps (cur ++ c ∷ []) f rest h.1 in
    rw h.0 (e ∙ ap (λ t. split_from seps t rest) (append_assoc cur (c ∷ []) f))

-- Bytes up to a separator are a token, or nothing.
pub strtok_all-sep :
    (seps f rest : Text) (c : ℕ)
    → NoSep seps f
    → is_sep seps c ≡ true
    → strtok_all seps (f ++ c ∷ rest) ≡ push_token f (strtok_all seps rest)
unfolding strtok_all split_from
strtok_all-sep seps f rest c h s = split_from-field seps [] f (c ∷ rest) h ∙ rw s refl

pub strtok_all-rest : (seps f : Text) → NoSep seps f → strtok_all seps f ≡ push_token f []
unfolding strtok_all split_from
strtok_all-rest seps f h =
    ap (split_from seps []) (sym (append_nil f)) ∙ split_from-field seps [] f [] h

push_token-field : (f : Text) (later : List Text) → is_set f ≡ true → push_token f later ≡ f ∷ later
unfolding push_token
push_token-field [] later h = cc
push_token-field (c ∷ f) later h = refl

-- A field before a separator is the first token.
pub strtok_all-field :
    (seps f rest : Text) (c : ℕ)
    → IsField seps f
    → is_sep seps c ≡ true
    → strtok_all seps (f ++ c ∷ rest) ≡ f ∷ strtok_all seps rest
strtok_all-field seps f rest c h s =
    strtok_all-sep seps f rest c h.1 s ∙ push_token-field f (strtok_all seps rest) h.0

pub strtok_all-nil : (seps : Text) → strtok_all seps [] ≡ []
unfolding strtok_all split_from push_token
strtok_all-nil seps = refl

-- A separator at the start is skipped.
pub strtok_all-skip :
    (seps s : Text) (c : ℕ) → is_sep seps c ≡ true → strtok_all seps (c ∷ s) ≡ strtok_all seps s
unfolding strtok_all split_from push_token
strtok_all-skip seps s c h = rw h refl

-- So is a field at the end of the text.
pub strtok_all-last : (seps f : Text) → IsField seps f → strtok_all seps f ≡ f ∷ []
strtok_all-last seps f h = strtok_all-rest seps f h.1 ∙ push_token-field f [] h.0

-- The fields with `c` between them.
unfoldable pub join : ℕ → List Text → Text
join c [] = []
join c (f ∷ []) = f
join c (f ∷ g ∷ fs) = f ++ c ∷ join c (g ∷ fs)

-- Fields that are joined by a separator are the tokens.
pub strtok_all-join :
    (seps : Text) (c : ℕ) (fs : List Text)
    → is_sep seps c ≡ true
    → All (IsField seps) fs
    → strtok_all seps (join c fs) ≡ fs
unfolding join strtok_all split_from push_token
strtok_all-join seps c [] s h = refl
strtok_all-join seps c (f ∷ []) s h = strtok_all-last seps f h.0
strtok_all-join seps c (f ∷ g ∷ fs) s h =
    strtok_all-field seps f (join c (g ∷ fs)) c h.0 s
    ∙ ap (λ t. f ∷ t) (strtok_all-join seps c (g ∷ fs) s h.1)

-- A separator behind a separator, and one at the start, does nothing: empty fields are lost.
split_from-empty :
    (seps cur s rest : Text) (c d : ℕ)
    → is_sep seps c ≡ true
    → is_sep seps d ≡ true
    → split_from seps cur (s ++ c ∷ d ∷ rest) ≡ split_from seps cur (s ++ c ∷ rest)
unfolding split_from push_token
split_from-empty seps cur [] rest c d p q = rw (p, q) refl
split_from-empty seps cur (b ∷ s) rest c d p q =
    let cut = split_from-empty seps [] s rest c d p q in
    let more = split_from-empty seps (cur ++ b ∷ []) s rest c d p q in rw (cut, more) refl

pub strtok_all-empty :
    (seps s rest : Text) (c d : ℕ)
    → is_sep seps c ≡ true
    → is_sep seps d ≡ true
    → strtok_all seps (s ++ c ∷ d ∷ rest) ≡ strtok_all seps (s ++ c ∷ rest)
unfolding strtok_all
strtok_all-empty seps s rest c d p q = split_from-empty seps [] s rest c d p q
