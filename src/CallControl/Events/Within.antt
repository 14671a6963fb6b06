-- ===== src/CallControl/Events/Within.antt =====
-- The calls of a card stay within the number it allows, when its requests come one after the other.
use rate_engine.Base.{
  ℕ, suc, ◌≤◌, ◌≡◌, ◌⊎◌, inl, inr, refl, ap, Bool, true, false, List, none, some, arith,
  if◌then◌else◌, pos, negsuc, ◌≤ℤ◌, ◌<ℤ◌, text_eq_refl, is_set, Bool-cases,
}
use rate_engine.Rating.Data.{Call, Racc, Pcard}
use rate_engine.Rating.Maxsec.{Answer}
use rate_engine.Rating.Maxsec.Granted.{IsAnswer}
use rate_engine.CallControl.Table.{
  Cc, CcMaxsec, Slot, cc_server_call_init, cc_server_call_search_racc,
}
use rate_engine.CallControl.Occupied.{
  cc_server_call_init-counts, Stores, cc_server_call_init-Stores,
}
use rate_engine.CallControl.Events.{
  Reply, MaxsecApi, answered, store_call, cc_maxsec_no_cctbl, cc_maxsec_no_pre, cc_maxsec_f,
  cc_maxsec_pre,
}

-- The request `m` was answered: with a code below 0 and a table that counts as many calls of its
-- number; or with 1 to `most` seconds, and then it is in the table with an account whose card has
-- credit left and allows as many calls as the table now counts; or, by a worker without a database,
-- with 0 seconds and an unchanged table.
abbrev pub IsServed : Bool → ℕ → CcMaxsec → List Slot → Reply → Type 0
IsServed has_dbp most m tbl (tbl', c') =
    ((n : ℕ) × (c'.max ≡ some (record m { maxsec = negsuc n }))
      × (cc_server_call_search_racc m.clg tbl' ≡ cc_server_call_search_racc m.clg tbl))
    ⊎ ((n : ℕ) × (c'.max ≡ some (record m { maxsec = pos (suc n) }))
        × (suc n ≤ most)
        × (cc_server_call_search_racc m.clg tbl' ≡ suc (cc_server_call_search_racc m.clg tbl))
        × ((rtp : Racc) × (card : Pcard) × Stores tbl' c' rtp
            × (rtp.bacc.pcard ≡ some card)
            × (pos (cc_server_call_search_racc m.clg tbl') ≤ℤ card.call_number)
            × (rtp.bal.amount <ℤ card.amount)))
    ⊎ ((has_dbp ≡ false) × (c'.max ≡ some (record m { maxsec = pos 0 })) × (tbl' ≡ tbl))

IsServed-same :
    (has_dbp : Bool) (most : ℕ) (m : CcMaxsec) (tbl : List Slot) (a b : Reply)
    → a ≡ b
    → IsServed has_dbp most m tbl b
    → IsServed has_dbp most m tbl a
IsServed-same has_dbp most m tbl a b e p = rw e p

-- The table after the call was stored.
abbrev stored_in : List Slot → Cc → CcMaxsec → Call → Racc → List Slot × Bool
stored_in tbl c m pre rtp = cc_server_call_init (answered c m pre.maxsec) rtp tbl

store_call-lem :
    (c : Cc) (m : CcMaxsec) (tbl : List Slot) (pre : Call) (rtp : Racc) (ok : Bool)
    → (stored_in tbl c m pre rtp).1 ≡ ok
    → store_call tbl c m (pre, some rtp) ≡ (
      (stored_in tbl c m pre rtp).0,
      if ok then answered c m pre.maxsec else answered c m cc_maxsec_no_cctbl,
    )
unfolding store_call
store_call-lem c m tbl pre rtp ok e = ground (arith, e)

store_call-IsServed :
    (has_dbp : Bool) (most : ℕ) (m : CcMaxsec) (tbl : List Slot) (c : Cc) (answer : Answer)
    → IsAnswer most (cc_server_call_search_racc m.clg tbl) answer
    → IsServed has_dbp most m tbl (store_call tbl c m answer)
unfolding store_call
store_call-IsServed has_dbp most m tbl c (pre, none) (n, e) =
    inl (n, ap (λ z. some (record m { maxsec = z })) e, refl)
store_call-IsServed has_dbp most m tbl c (pre, some rtp)
      (n, e, below, same, (card, has_card, room, credit)) =
    let (tbl', done) = stored_in tbl c m pre rtp in
    let (p, q, counted) =
      cc_server_call_init-counts (answered c m pre.maxsec) (record m { maxsec = pre.maxsec }) rtp
        tbl m.clg refl in
    let mine = text_eq_refl m.clg in
    elim (Bool-cases done) [
      | inl ok ↦
          let one_more : cc_server_call_search_racc m.clg tbl'
              ≡ suc (cc_server_call_search_racc m.clg tbl) =
            ground (arith, counted, ok, mine) in
          IsServed-same has_dbp most m tbl _ (tbl', answered c m pre.maxsec)
            (store_call-lem c m tbl pre rtp true ok)
            (inr (
              inl (
                n,
                ap (λ z. some (record m { maxsec = z })) e,
                below,
                one_more,
                (
                  rtp,
                  card,
                  cc_server_call_init-Stores (answered c m pre.maxsec) rtp tbl ok,
                  has_card,
                  ground (arith, one_more, room),
                  credit,
                ),
              )))
      | inr full ↦
          IsServed-same has_dbp most m tbl _ (tbl', answered c m cc_maxsec_no_cctbl)
            (store_call-lem c m tbl pre rtp false full)
            (inl (9, refl, ground (arith, counted, full)))
    ]

store_call-unanswered :
    (tbl : List Slot) (c : Cc) (m : CcMaxsec) (answer : Answer)
    → answer ≡ (cc_maxsec_pre c m, none)
    → store_call tbl c m answer ≡ (tbl, answered c m (pos 0))
unfolding store_call cc_maxsec_pre
store_call-unanswered tbl c m answer e = rw e refl

pub cc_maxsec_f-IsServed :
    {W : Type 0} (api : MaxsecApi W) (w : W) (tbl : List Slot) (c : Cc) (m : CcMaxsec)
    → c.max ≡ some m
    → (w' : W) × (reply : Reply) × (cc_maxsec_f api w tbl c ≡ some (w', reply))
      × IsServed api.has_dbp api.most m tbl reply
unfolding cc_maxsec_f
cc_maxsec_f-IsServed api w tbl c m e =
    let sim = cc_server_call_search_racc m.clg tbl in
    let (asked, answer) = api.maxsec w (cc_maxsec_pre c m) sim in
    elim (Bool-cases (is_set m.clg)) [
      | inl given ↦ (
        asked,
        store_call tbl c m answer,
        ground (arith, e, given),
        elim (Bool-cases api.has_dbp) [
          | inl here ↦
              store_call-IsServed api.has_dbp api.most m tbl c answer
                (api.answers w (cc_maxsec_pre c m) sim here)
          | inr gone ↦
              IsServed-same api.has_dbp api.most m tbl _ (tbl, answered c m (pos 0))
                (store_call-unanswered tbl c m answer
                  (ap (λ p. p.1) (api.unanswered w (cc_maxsec_pre c m) sim gone)))
                (inr (inr (gone, refl, refl)))
        ],
      )
      | inr missing ↦
          (w, (tbl, answered c m cc_maxsec_no_pre), ground (arith, e, missing), inl (8, refl, refl))
    ]
