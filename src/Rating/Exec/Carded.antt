-- ===== src/Rating/Exec/Carded.antt =====
-- A record of an account with a card is rated to the end, and marked once.
use rate_engine.Base.{
  List, ℕ, suc, ◌≡◌, refl, ap, ◌∙◌, true, ◌||◌, Option, none, some, arith, ltb_ℤ, pos, negsuc, ◌-ℤ◌,
  leb_ℤ, ◌==ℤ◌, ◌==◌, ℤ, if◌then◌else◌, if_ind, Gives, >>=-Gives,
}
use mathlib.Core.Path.{subst, sym}
use rate_engine.Rating.Data.{CalcFunction, Pcard, Racc}
use rate_engine.Rating.World.{Host, World}
use rate_engine.Rating.Ledger.{
  Log, Books, with_log, with_rating_id, cdr_update_cdr, rt_rating_save, add_rating_on,
}
use rate_engine.Rating.Account.{rt_rate_searching}
use rate_engine.Rating.Search.{rt_chk_bplan_periods}
use rate_engine.Rating.Exec.{
  price, with_billsec, round_call, no_free_billsec, settle_free, second_phase, rt_double_rating,
  count_sms, rate_call, close, rate_on, rt_exec, tariff, unrated,
}
use rate_engine.Rating.Exec.Same.{
  legs, frees, IsQuiet, IsQuiet-same, IsQuiet-trans, price-IsSame, round_call-IsSame,
  settle_free_on-IsQuiet, settle_on-IsQuiet, count_sms_on-IsSame, insert_rating-IsQuiet,
}
use rate_engine.Rating.Exec.Searched.{rt_rate_searching-IsQuiet}

module _ (books : Books) (host : Host Log) where
  -- A step of the rating ends quietly.
  abbrev Ends : Log → Racc → Option (Log × Racc) → Type 0
  Ends db rtp o = Gives (IsQuiet db rtp) o

  abbrev EndsPart : Log → Racc → Option (Log × Racc × ℤ) → Type 0
  EndsPart db rtp o = Gives (λ (db1, rtp1, ret). IsQuiet db rtp (db1, rtp1)) o

  rt_rating_save-Ends :
      (db : Log) (rtp : Racc) (card : Pcard)
      → rtp.bacc.pcard ≡ some card
      → Ends db rtp (rt_rating_save books db rtp)
  unfolding rt_rating_save add_rating_on
  rt_rating_save-Ends db rtp card h =
      let stay : IsQuiet db rtp (db, rtp) = ((refl, refl, refl), refl, λ z. refl) in
      let again : IsQuiet db rtp (db, with_rating_id rtp (pos 0)) =
        ((refl, refl, refl), refl, λ z. refl) in
      if_ind (Ends db rtp) (ltb_ℤ (pos 0) rtp.call.cdr_id) _ _
        (subst (λ o. Ends db rtp (add_rating_on books o db rtp)) (sym h)
          (
            _,
            refl,
            if_ind (IsQuiet db rtp) (books.is_rated db rtp.call rtp.bacc) _ _ again
                (insert_rating-IsQuiet books host db rtp card.id),
          ))
        (_, refl, stay)

  no_free_billsec-Ends :
      (db : Log) (rtp : Racc) (card : Pcard)
      → rtp.bacc.pcard ≡ some card
      → EndsPart db rtp (no_free_billsec books host db rtp)
  unfolding no_free_billsec
  no_free_billsec-Ends db rtp card h =
      let (priced, ret) = price rtp in
      let quiet = IsQuiet-same db rtp priced (price-IsSame rtp) in
      if_ind (EndsPart db rtp) (ret ==ℤ negsuc 0) _ _ (_, refl, quiet)
        (>>=-Gives (rt_rating_save books db priced) _ (rt_rating_save-Ends db priced card h)
          (λ s q. (_, refl, IsQuiet-trans db rtp db priced s quiet q)))

  second_phase-Ends :
      (n : ℤ) (db : Log) (rtp : Racc) (card : Pcard)
      → rtp.bacc.pcard ≡ some card
      → EndsPart db rtp (second_phase books host n db rtp)
  unfolding second_phase
  second_phase-Ends n db rtp card h =
      let part = with_billsec rtp n in
      let quiet = settle_free_on-IsQuiet books host rtp.bacc.pcard db part in
      let (db1, settled) = settle_free books host db part in
      let (s, e, q) = no_free_billsec-Ends db1 settled card (ap (λ b. b.pcard) quiet.0.0 ∙ h) in
      (s, e, IsQuiet-trans db rtp db1 settled (s.0, s.1) quiet q)

  rt_double_rating-Ends :
      (db : Log) (rtp : Racc) (card : Pcard)
      → rtp.bacc.pcard ≡ some card
      → EndsPart db rtp (rt_double_rating books host db rtp)
  unfolding rt_double_rating
  rt_double_rating-Ends db rtp card h =
      let pre = rtp.call in
      let free_sec = pre.free_billsec_limit -ℤ pre.free_billsec_sum in
      let (first, ret) = price (with_billsec rtp free_sec) in
      let quiet = IsQuiet-same db rtp first (price-IsSame (with_billsec rtp free_sec)) in
      let whole = with_billsec first pre.billsec in
      let (t, f, r) = no_free_billsec-Ends db whole card h in
      if_ind (EndsPart db rtp) (leb_ℤ free_sec (pos 0)) _ _ (no_free_billsec-Ends db rtp card h) (
        if_ind (EndsPart db rtp) (ret ==ℤ pos 0) _ _
          (>>=-Gives (rt_rating_save books db first) _ (rt_rating_save-Ends db first card h)
            (λ (db1, saved) q.
              let (s, e, q1) =
                second_phase-Ends (pre.billsec -ℤ free_sec) db1 saved card
                  (ap (λ b. b.pcard) q.0.0 ∙ h) in
              (
                s,
                e,
                IsQuiet-trans db rtp db first (s.0, s.1) quiet
                    (IsQuiet-trans db first db1 saved (s.0, s.1) q q1),
              )))
          (if_ind (EndsPart db rtp) (ret ==ℤ pos 1) _ _
            (t, f, IsQuiet-trans db rtp db whole (t.0, t.1) quiet r) (_, refl, quiet)))

  rate_call-Ends :
      (db : Log) (rtp : Racc) (card : Pcard)
      → rtp.bacc.pcard ≡ some card
      → Ends db rtp (rate_call books host db rtp)
  unfolding rate_call
  rate_call-Ends db rtp card h =
      let rounded = round_call rtp in
      let counted = count_sms books host db rounded in
      let (priced, ret) = price counted in
      let quiet =
        IsQuiet-trans db rtp db rounded (db, priced)
          (IsQuiet-same db rtp rounded (round_call-IsSame rtp))
          (IsQuiet-trans db rounded db counted (db, priced)
            (IsQuiet-same db rounded counted
              (count_sms_on-IsSame books host rounded.bacc.pcard db rounded))
            (IsQuiet-same db counted priced (price-IsSame counted))) in
      let k = ap (λ b. b.pcard) quiet.0.0 ∙ h in
      let (s, e, q) = rt_rating_save-Ends db priced card k in
      if_ind (Ends db rtp) (ret ==ℤ pos 0) _ _ (s, e, IsQuiet-trans db rtp db priced s quiet q)
        (if_ind (Ends db rtp) (ret ==ℤ negsuc 0) _ _ (_, refl, quiet)
          (>>=-Gives (rt_double_rating books host db priced) _
            (rt_double_rating-Ends db priced card k)
            (λ (db1, done, ret2) q1.
              let s1 : Log × Racc = (db1, if ret2 ==ℤ negsuc 0 then unrated done else done) in
              (
                s1,
                refl,
                IsQuiet-trans db rtp db priced s1 quiet
                    (if_ind (λ r. IsQuiet db priced (db1, r)) (ret2 ==ℤ negsuc 0) _ _ q1 q1),
              ))))

  rate_on-Ends :
      (o : Option (List CalcFunction)) (db : Log) (rtp : Racc) (card : Pcard)
      → rtp.bacc.pcard ≡ some card
      → Ends db rtp (rate_on books host o db rtp)
  unfolding rate_on
  rate_on-Ends none db rtp card h = (_, refl, ((refl, refl, refl), refl, λ z. refl))
  rate_on-Ends (some tr) db rtp card h = rate_call-Ends db rtp card h

  -- A record that has an id, of leg a or b.
  abbrev pub IsMarkable : ℕ → Racc → Type 0
  IsMarkable leg rtp =
      (ltb_ℤ (pos 0) rtp.call.cdr_id ≡ true) × (((leg == b'a') || (leg == b'b')) ≡ true)

  cdr_update_cdr-legs :
      (db : Log) (id cdr_id : ℤ) (leg : ℕ)
      → ltb_ℤ (pos 0) cdr_id ≡ true
      → ((leg == b'a') || (leg == b'b')) ≡ true
      → (legs (cdr_update_cdr db id cdr_id leg) ≡ suc (legs db))
        × (frees (cdr_update_cdr db id cdr_id leg) ≡ frees db)
  unfolding cdr_update_cdr legs frees
  cdr_update_cdr-legs db id cdr_id leg h k = (ground (arith, h, k), ground (arith, h, k))

  -- One mark more, and no update of used free seconds.
  abbrev IsMarked : Log → Racc → Log × Racc → Type 0
  IsMarked db rtp (db1, rtp1) =
      (legs db1 ≡ suc (legs db)) × (rtp.call.bal_id ≡ 0 → frees db1 ≡ frees db)

  close-IsMarked :
      (leg : ℕ) (db : Log) (rtp : Racc)
      → IsMarkable leg rtp
      → IsMarked db rtp (close books host leg (db, rtp))
  unfolding close
  close-IsMarked leg db rtp (h, k) =
      let mark = if rtp.call.rating_id ==ℤ pos 0 then negsuc 0 else rtp.call.rating_id in
      let marked = cdr_update_cdr db mark rtp.call.cdr_id leg in
      let (l, f) = cdr_update_cdr-legs db mark rtp.call.cdr_id leg h k in
      let (same, l1, f1) = settle_on-IsQuiet books host rtp.bacc.pcard marked rtp in
      if_ind (IsMarked db rtp) (ltb_ℤ (pos 0) rtp.call.rating_id) _ _ (l1 ∙ l, λ z. f1 z ∙ f)
        (l, λ z. f)

  -- A record with an id, of leg a or b and of an account with a card, is rated to the end: one mark
  -- more is set, and without the id of a balance no used free seconds are updated.
  pub rt_exec-marks :
      (leg : ℕ) (w : World Log) (rtp : Racc) (card : Pcard)
      → rtp.bacc.pcard ≡ some card
      → IsMarkable leg rtp
      → Gives
          (λ (w1, rtp1).
            (legs w1.db ≡ suc (legs w.db)) × (rtp.call.bal_id ≡ 0 → frees w1.db ≡ frees w.db))
          (rt_exec books host leg w rtp)
  unfolding rt_exec
  rt_exec-marks leg w rtp card h (m, k) =
      let planned = record rtp { bplan = rt_chk_bplan_periods rtp.bplan rtp.call.ts } in
      let (searched, found) = rt_rate_searching (with_log host) w planned in
      let (same, l, f) = rt_rate_searching-IsQuiet host w planned in
      let Marked : World Log × Racc → Type 0 = λ (w1, rtp1).
        (legs w1.db ≡ suc (legs w.db)) × (rtp.call.bal_id ≡ 0 → frees w1.db ≡ frees w.db) in
      if_ind (Gives Marked) (rtp.rtm == 0) _ _
        (_, refl, close-IsMarked leg w.db (unrated planned) (m, k))
        (>>=-Gives (rate_on books host (tariff found) searched.db found) _
          (rate_on-Ends (tariff found) searched.db found card (ap (λ b. b.pcard) same.0 ∙ h))
          (λ (db1, rated) ((p, q, r), l1, f1).
            let m1 : ltb_ℤ (pos 0) rated.call.cdr_id ≡ true =
              ap (λ n. ltb_ℤ (pos 0) n) (q ∙ same.1) ∙ m in
            let (l2, f2) = close-IsMarked leg db1 rated (m1, k) in
            (_, refl, (l2 ∙ ap suc (l1 ∙ l), λ z. f2 (r ∙ same.2 ∙ z) ∙ f1 (same.2 ∙ z) ∙ f z))))
