-- ===== src/Rating/Exec/Double.antt =====
-- A call that outlasts its free seconds is rated in two parts, under one record, account and rate.
use rate_engine.Base.{
  ◌>>=◌, ℕ, suc, ◌≤◌, ◌≡◌, refl, sym, ap, ◌∙◌, ◌⊎◌, inl, inr, true, false, Option, none, some, List,
  ◌∷◌, arith, ltb_ℤ, leb_ℤ, pos, negsuc, ◌-ℤ◌, ◌==ℤ◌, ◌==◌, ◌||◌, ℤ, if◌then◌else◌, if_ind, Gives,
}
use rate_engine.Rating.Data.{CalcFunction, Pcard, Call, Racc}
use rate_engine.Rating.Calc.{calc_cprice_2, calc_cprice_group, append_free_billsec}
use rate_engine.Rating.World.{Host}
use rate_engine.Rating.Ledger.{
  cdr_update_cdr, Log, Books, set_leg, rt_rating_save, add_rating_on, insert_rating,
}
use rate_engine.Rating.Exec.{
  price, round_call, count_sms, rate_call, settle_free, close, tariff, unrated, with_billsec,
  no_free_billsec, second_phase, rt_double_rating,
}
use rate_engine.Rating.Exec.Same.{price-IsSame, settle_free_on-IsQuiet, insert_rating-IsQuiet}
use rate_engine.Rating.Exec.Charged.{charges, insert_rating-charges, settle_free_on-charges}
use rate_engine.Rating.Exec.Billed.{rt_rating_save-old}
use rate_engine.Rating.Exec.Free.{has_row, rows, SeesRows, settle_free_on-IsRowless}

calc_cprice_group-rate :
    (tr : Option (List CalcFunction)) (pre : Call)
    → (calc_cprice_group tr pre).0.rate_id ≡ pre.rate_id
unfolding calc_cprice_group calc_cprice_2 append_free_billsec
calc_cprice_group-rate none pre = ground arith
calc_cprice_group-rate (some tr) pre = ground arith

price-rate : (rtp : Racc) → (price rtp).0.call.rate_id ≡ rtp.call.rate_id
price-rate rtp = calc_cprice_group-rate (tariff rtp) rtp.call

-- The row of a call stands in the database.
abbrev IsStored : Log → Racc → Type 0
IsStored db rtp = has_row db rtp.call.cdr_id rtp.bacc.id rtp.call.rate_id ≡ true

IsStored-same :
    (db : Log) (a b : Racc)
    → a.bacc ≡ b.bacc
    → a.call.cdr_id ≡ b.call.cdr_id
    → a.call.rate_id ≡ b.call.rate_id
    → IsStored db a
    → IsStored db b
IsStored-same db a b p q r h =
    sym (ap (λ n. has_row db n b.bacc.id b.call.rate_id) q)
    ∙ sym (ap (λ n. has_row db a.call.cdr_id n b.call.rate_id) (ap (λ x. x.id) p))
    ∙ sym (ap (λ n. has_row db a.call.cdr_id a.bacc.id n) r)
    ∙ h

module _ (books : Books) (host : Host Log) where
  -- Nothing is inserted, and the call is failed or has the id 0 of a call that is rated already.
  abbrev IsLost : Log → Racc → Log × Racc × ℤ → Type 0
  IsLost db rtp (db1, done, ret) =
      (db1 ≡ db)
      × (done.call.cdr_id ≡ rtp.call.cdr_id)
      × ((ret ≡ negsuc 0) ⊎ (done.call.rating_id ≡ pos 0))

  no_free_billsec-IsLost :
      (db : Log) (rtp : Racc) (card : Pcard)
      → SeesRows books
      → IsStored db rtp
      → rtp.bacc.pcard ≡ some card
      → ltb_ℤ (pos 0) rtp.call.cdr_id ≡ true
      → Gives (IsLost db rtp) (no_free_billsec books host db rtp)
  unfolding no_free_billsec ◌>>=◌
  no_free_billsec-IsLost db rtp card sees h k c =
      let (priced, ret) = price rtp in
      let (a, b, z) = price-IsSame rtp in
      let stored = IsStored-same db rtp priced refl (sym b) (sym (price-rate rtp)) h in
      let saved =
        rt_rating_save-old books host db priced card k (ap (λ n. ltb_ℤ (pos 0) n) b ∙ c)
          (sees db priced stored) in
      if_ind (Gives (IsLost db rtp)) (ret ==ℤ negsuc 0) _ _ (_, refl, (refl, b, inl refl))
        (rw saved (_, refl, (refl, b, inr refl)))

  insert_rating-IsStored :
      (db : Log) (rtp : Racc) (card_id : ℕ) → IsStored (insert_rating books db rtp card_id).0 rtp
  unfolding insert_rating has_row
  insert_rating-IsStored db rtp card_id = ground arith

  insert_rating-rows :
      (db : Log) (rtp : Racc) (card_id : ℕ)
      → (rows (insert_rating books db rtp card_id).0 ≡ suc (rows db))
        × ((insert_rating books db rtp card_id).1.call.rate_id ≡ rtp.call.rate_id)
  unfolding insert_rating rows
  insert_rating-rows db rtp card_id = (refl, ground arith)

  rt_rating_save-insert :
      (db : Log) (rtp : Racc) (card : Pcard)
      → rtp.bacc.pcard ≡ some card
      → ltb_ℤ (pos 0) rtp.call.cdr_id ≡ true
      → books.is_rated db rtp.call rtp.bacc ≡ false
      → rt_rating_save books db rtp ≡ some (insert_rating books db rtp card.id)
  unfolding rt_rating_save add_rating_on
  rt_rating_save-insert db rtp card k c r = ground (arith, k, c, r)

  -- One row is inserted, of which the call keeps no id, and the balance is charged once at most.
  abbrev IsHalf : Log → Racc → Log × Racc × ℤ → Type 0
  IsHalf db rtp (db1, done, ret) =
      (rows db1 ≡ suc (rows db))
      × (charges db1 ≤ suc (charges db))
      × (done.call.cdr_id ≡ rtp.call.cdr_id)
      × ((ret ≡ negsuc 0) ⊎ (done.call.rating_id ≡ pos 0))

  second_phase-IsHalf :
      (n : ℤ) (db : Log) (first : Racc) (card : Pcard)
      → SeesRows books
      → first.bacc.pcard ≡ some card
      → ltb_ℤ (pos 0) first.call.cdr_id ≡ true
      → let (db1, saved) = insert_rating books db first card.id in
        Gives (IsHalf db first) (second_phase books host n db1 saved)
  unfolding second_phase
  second_phase-IsHalf n db first card sees k c =
      let (db1, saved) = insert_rating books db first card.id in
      let ((a, b, z), l, f) = insert_rating-IsQuiet books host db first card.id in
      let (grown, rate) = insert_rating-rows db first card.id in
      let part = with_billsec saved n in
      let none_yet = insert_rating-charges books host db first card.id in
      let once = settle_free_on-charges books host part.bacc.pcard db1 part in
      let (db2, settled) = settle_free books host db1 part in
      let ((a1, b1, z1), l1, f1) = settle_free_on-IsQuiet books host part.bacc.pcard db1 part in
      let (rate1, same, seen) = settle_free_on-IsRowless books host part.bacc.pcard db1 part in
      let stored =
        seen first.call.cdr_id first.bacc.id first.call.rate_id
        ∙ insert_rating-IsStored db first card.id in
      let now =
        IsStored-same db2 first settled (sym (a1 ∙ a)) (sym (b1 ∙ b)) (sym (rate1 ∙ rate)) stored in
      let ((db3, done, ret), e, (same3, b3, lost)) =
        no_free_billsec-IsLost db2 settled card sees now (ap (λ x. x.pcard) (a1 ∙ a) ∙ k)
          (ap (λ n. ltb_ℤ (pos 0) n) (b1 ∙ b) ∙ c) in
      (
        (db3, done, ret),
        e,
        (
          ap rows same3 ∙ same ∙ grown,
          omega (arith, ap charges same3, once, none_yet),
          b3 ∙ b1 ∙ b,
          lost,
        ),
      )

  -- The first part of a call, its free seconds, is priced and can be stored.
  abbrev pub HasFreePart : Log → Racc → Pcard → Type 0
  HasFreePart db rtp card =
      let free_sec = rtp.call.free_billsec_limit -ℤ rtp.call.free_billsec_sum in
      let (first, ret) = price (with_billsec rtp free_sec) in
      (leb_ℤ free_sec (pos 0) ≡ false)
      × (ret ≡ pos 0)
      × (rtp.bacc.pcard ≡ some card)
      × (ltb_ℤ (pos 0) rtp.call.cdr_id ≡ true)
      × (books.is_rated db first.call first.bacc ≡ false)

  rt_double_rating-IsHalf :
      (db : Log) (rtp : Racc) (card : Pcard)
      → SeesRows books
      → HasFreePart db rtp card
      → Gives (IsHalf db rtp) (rt_double_rating books host db rtp)
  unfolding rt_double_rating ◌>>=◌
  rt_double_rating-IsHalf db rtp card sees (f, e, k, c, r) =
      let free_sec = rtp.call.free_billsec_limit -ℤ rtp.call.free_billsec_sum in
      let (first, ret) = price (with_billsec rtp free_sec) in
      let (a, b, z) = price-IsSame (with_billsec rtp free_sec) in
      let c1 = ap (λ n. ltb_ℤ (pos 0) n) b ∙ c in
      let saved = rt_rating_save-insert db first card k c1 r in
      let (s, q, (grown, once, b1, lost)) =
        second_phase-IsHalf (rtp.call.billsec -ℤ free_sec) db first card sees k c1 in
      rw (f, e, saved) (s, q, (grown, once, b1 ∙ b, lost))

  close-failed :
      (leg : ℕ) (db : Log) (rtp : Racc)
      → (rtp.call.rating_id ≡ pos 0) ⊎ (rtp.call.rating_id ≡ negsuc 0)
      → ltb_ℤ (pos 0) rtp.call.cdr_id ≡ true
      → ((leg == b'a') || (leg == b'b')) ≡ true
      → (close books host leg (db, rtp)).0 ≡ set_leg leg (negsuc 0) rtp.call.cdr_id ∷ db
  unfolding close cdr_update_cdr
  close-failed leg db rtp (inl z) c l = ground (arith, z, c, l)
  close-failed leg db rtp (inr z) c l = ground (arith, z, c, l)

  -- On a database that finds the rows inserted, `rate_call` inserts one row for a call in two parts
  -- whose first part can be stored, and charges the balance once at most, for both parts; and
  -- `close` then sends the mark of -1 for its record and nothing else.
  pub rate_call-lost :
      (leg : ℕ) (db : Log) (rtp : Racc) (card : Pcard)
      → SeesRows books
      → let (priced, ret) = price (count_sms books host db (round_call rtp)) in
        ret ≡ pos 1
        → HasFreePart db priced card
        → ((leg == b'a') || (leg == b'b')) ≡ true
        → Gives
            (λ (db1, done).
              (rows db1 ≡ suc (rows db))
              × (charges db1 ≤ suc (charges db))
              × ((close books host leg (db1, done)).0
                  ≡ set_leg leg (negsuc 0) priced.call.cdr_id ∷ db1))
            (rate_call books host db rtp)
  unfolding rate_call ◌>>=◌
  rate_call-lost leg db rtp card sees e p l =
      let (priced, ret) = price (count_sms books host db (round_call rtp)) in
      let ((db1, done, ret2), q, (grown, once, b, lost)) =
        rt_double_rating-IsHalf db priced card sees p in
      let done1 = if ret2 ==ℤ negsuc 0 then unrated done else done in
      let failed : (done1.call.rating_id ≡ pos 0) ⊎ (done1.call.rating_id ≡ negsuc 0) = elim lost [
        | inl x ↦ inr (ground (arith, x))
        | inr x ↦
            if_ind (λ (r : Racc). (r.call.rating_id ≡ pos 0) ⊎ (r.call.rating_id ≡ negsuc 0))
              (ret2 ==ℤ negsuc 0) _ _ (inr refl) (inl x)
      ] in
      let b1 : done1.call.cdr_id ≡ priced.call.cdr_id = ground (arith, b) in
      let c1 = ap (λ n. ltb_ℤ (pos 0) n) b1 ∙ p.3 in
      rw (e, q)
        (
          (db1, done1),
          refl,
          (
            grown,
            once,
            close-failed leg db1 done1 failed c1 l ∙ ap (λ n. set_leg leg (negsuc 0) n ∷ db1) b1,
          ),
        )
