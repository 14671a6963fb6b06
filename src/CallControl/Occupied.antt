-- ===== src/CallControl/Occupied.antt =====
-- The slots in use.
use rate_engine.Base.{
  ℕ, suc, ◌+◌, ◌≡◌, inl, inr, refl, Bool, true, false, ◌&&◌, not, List, [], ◌∷◌, some, arith, ◌==◌,
  if◌then◌else◌, Text, text_eq, text_eq_refl, get_elem?, All, Bool-cases, Option-cases,
}
use rate_engine.Rating.Data.{Racc}
use rate_engine.CallControl.Table.{
  Cc, CcMaxsec, CcTerm, Slot, is_free, has_uid, has_clg, set_term, cc_server_call_init,
  cc_server_call_search_call_uid, cc_server_call_search_racc,
}

-- The number of free slots.
unfoldable pub free_slots : List Slot → ℕ
free_slots [] = 0
free_slots (s ∷ ss) = (if is_free s then 1 else 0) + free_slots ss

abbrev pub one_if : Bool → ℕ
one_if b = if b then 1 else 0

free_uncounted : (s : Slot) (racc : Text) → is_free s ≡ true → has_clg racc s ≡ false
free_uncounted s racc f = elim (Option-cases s.cc) [
  | inl e ↦ ground (arith, e)
  | inr (c, e) ↦ ground (arith, e, f)
]

-- A call is stored exactly when a slot is free, it takes one free slot, and it counts as one more
-- call of its calling number and of no other.
pub cc_server_call_init-counts :
    (c : Cc) (m : CcMaxsec) (r : Racc) (tbl : List Slot) (racc : Text)
    → c.max ≡ some m
    → let (tbl', ok) = cc_server_call_init c r tbl in
      (one_if ok + free_slots tbl' ≡ free_slots tbl)
      × (ok ≡ not (free_slots tbl == 0))
      × (cc_server_call_search_racc racc tbl'
          ≡ cc_server_call_search_racc racc tbl + one_if (ok && text_eq m.clg racc))
unfolding cc_server_call_init free_slots cc_server_call_search_racc
cc_server_call_init-counts c m r [] racc e = (refl, refl, refl)
cc_server_call_init-counts c m r (s ∷ ss) racc e =
    let (p, q, n) = cc_server_call_init-counts c m r ss racc e in
    elim (Bool-cases (is_free s)) [
      | inl f ↦
          (ground (arith, f), ground (arith, f), ground (arith, f, e, free_uncounted s racc f))
      | inr f ↦ (ground (arith, f, p), ground (arith, f, p, q), ground (arith, f, n))
    ]

-- The table has a slot with the call and its account.
abbrev pub Stores : List Slot → Cc → Racc → Type 0
Stores tbl c r = (i : ℕ) × (get_elem? tbl i ≡ some (record { cc = some c; rtp = some r }))

pub cc_server_call_init-Stores :
    (c : Cc) (r : Racc) (tbl : List Slot)
    → (cc_server_call_init c r tbl).1 ≡ true
    → Stores (cc_server_call_init c r tbl).0 c r
unfolding cc_server_call_init
cc_server_call_init-Stores c r [] ok = absurd (ground (arith, ok))
cc_server_call_init-Stores c r (s ∷ ss) ok = elim (Bool-cases (is_free s)) [
  | inl f ↦ (0, ground (arith, f))
  | inr f ↦
      let (i, p) = cc_server_call_init-Stores c r ss (ground (arith, f, ok)) in
      (suc i, ground (arith, f, p))
]

-- A termination finds the call that was stored last, when no other call has its id.
pub cc_server_call_search_call_uid-cc_server_call_init :
    (c : Cc) (m : CcMaxsec) (r : Racc) (tm : CcTerm) (tbl : List Slot)
    → c.max ≡ some m
    → tm.call_uid ≡ m.call_uid
    → All (λ s. has_uid tm.call_uid s ≡ false) tbl
    → (cc_server_call_init c r tbl).1 ≡ true
    → let (tbl', found) = cc_server_call_search_call_uid tm (cc_server_call_init c r tbl).0 in
      (i : ℕ) × (found ≡ some i)
      × (get_elem? tbl' i ≡ some (record { cc = some (record c { term = some tm }); rtp = some r }))
unfolding cc_server_call_init cc_server_call_search_call_uid set_term
cc_server_call_search_call_uid-cc_server_call_init c m r tm [] e u other ok =
    absurd (ground (arith, ok))
cc_server_call_search_call_uid-cc_server_call_init c m r tm (s ∷ ss) e u other ok =
    elim (Bool-cases (is_free s)) [
      | inl f ↦
          let same : text_eq m.call_uid tm.call_uid ≡ true =
            ground (arith, u, text_eq_refl m.call_uid) in
          (0, ground (arith, f, e, same), ground (arith, f, e, same))
      | inr f ↦
          let ok' : (cc_server_call_init c r ss).1 ≡ true = ground (arith, f, ok) in
          let (i, p, q) =
            cc_server_call_search_call_uid-cc_server_call_init c m r tm ss e u other.1 ok' in
          (suc i, ground (arith, f, other.0, p), ground (arith, f, other.0, q))
    ]
