-- ===== src/CdrMediator/Filter.antt =====
-- mod/CDRMediator/prefix_filter.c, and cdr_called_number_filtering_match of cdr.c: the called
-- number of a record is rewritten by the first filter that applies. The copy of the number's start
-- is unbounded.
use rate_engine.Base.{
  false, inl, inr, true, Bool-cases, ◌⊎◌, ◌≡◌, refl, arith, ℕ, ◌&&◌, not, List, [], ◌∷◌, ◌++◌, ltb,
  ◌==◌, if◌then◌else◌, Text, text_eq, is_set, length, take, drop,
}
use rate_engine.CdrMediator.Cdr.{Cdr}

-- `filter` of prefix_filter.h.
pub record Filter : Type 0 where
  pub id : ℕ
  pub filtering_prefix : Text
  pub filtering_number : ℕ
  pub replace_str : Text
  pub cdr_server_id : ℕ
  pub len : ℕ

-- The number with its first `i` characters replaced, or an empty text.
unfoldable pub prefix_filter_cuti_replace : Text → Text → ℕ → Text → ℕ → Text
prefix_filter_cuti_replace prefix cut_string i replace_string prefix_len =
    if ltb 0 prefix_len && not (length prefix == prefix_len)
    then []
    else if text_eq (take (length cut_string) prefix) cut_string
    then replace_string ++ drop i prefix
    else []

abbrev pub filtered : Filter → Text → Text
filtered f number =
    prefix_filter_cuti_replace number f.filtering_prefix f.filtering_number f.replace_str f.len

-- `while(filters[p].id)`.
unfoldable pub cdr_called_number_filtering_match : List Filter → Cdr → Cdr
cdr_called_number_filtering_match [] cdr = cdr
cdr_called_number_filtering_match (f ∷ filters) cdr =
    let later = cdr_called_number_filtering_match filters cdr in
    let ret = filtered f cdr.called_number in
    if f.id == 0
    then cdr
    else if is_set ret
    then record cdr { called_number = ret; prefix_filter_id = f.id }
    else later

-- No filter up to the end of the array applies to a number.
abbrev pub NoneApply : List Filter → Text → Type 0
NoneApply [] number = Unit
NoneApply (f ∷ filters) number =
    (f.id ≡ 0) ⊎ ((is_set (filtered f number) ≡ false) × NoneApply filters number)

-- The first filter that applies.
abbrev pub IsFirst : Filter → List Filter → Text → Type 0
IsFirst f [] number = ⊥
IsFirst f (g ∷ filters) number =
    ((g.id == 0) ≡ false)
    × (((g ≡ f) × (is_set (filtered f number) ≡ true))
        ⊎ ((is_set (filtered g number) ≡ false) × IsFirst f filters number))

-- A record keeps its number when no filter applies to it, and otherwise gets the number and the id
-- of the first filter that applies.
pub cdr_called_number_filtering_match-IsFirst :
    (filters : List Filter) (cdr : Cdr)
    → let number = cdr.called_number in
      let matched = cdr_called_number_filtering_match filters cdr in
      (NoneApply filters number × (matched ≡ cdr))
      ⊎ ((f : Filter) × IsFirst f filters number
          × (matched ≡ record cdr { called_number = filtered f number; prefix_filter_id = f.id }))
unfolding cdr_called_number_filtering_match
cdr_called_number_filtering_match-IsFirst [] cdr = inl (tt, refl)
cdr_called_number_filtering_match-IsFirst (f ∷ filters) cdr =
    let number = cdr.called_number in
    elim (Bool-cases (f.id == 0)) [
      | inl z ↦ inl (inl (ground (arith, z)), rw z refl)
      | inr z ↦ elim (Bool-cases (is_set (filtered f number))) [
        | inl s ↦ inr (f, (z, inl (refl, s)), rw (z, s) refl)
        | inr s ↦ elim (cdr_called_number_filtering_match-IsFirst filters cdr) [
          | inl (p, q) ↦ inl (inr (s, p), rw (z, s) q)
          | inr (g, p, q) ↦ inr (g, (z, inr (s, p)), rw (z, s) q)
        ]
      ]
    ]
