-- ===== src/Rating/Exec/Free.antt =====
-- Calls with free seconds: the balance of a free call, and the two parts of a call that outlasts
-- them.
use rate_engine.Base.{
  ℕ, suc, ◌≡◌, refl, ap, ◌∙◌, Bool, true, false, Option, none, some, List, [], ◌∷◌, arith, ltb,
  ltb_ℤ, leb_ℤ, pos, ◌+ℤ◌, ◌-ℤ◌, neg, ◌==ℤ◌, ◌==◌, ◌||◌, ◌&&◌, not, ℤ, int_laws, Text, is_set,
  if◌then◌else◌, if_ind,
}
use rate_engine.Rating.Data.{Bal, CalcFunction, Pcard, Call, Racc}
use rate_engine.Rating.Calc.{calc_cprice_2, calc_cprice_group, append_free_billsec}
use rate_engine.Rating.World.{Host}
use rate_engine.Rating.Account.{with_bal, with_free_billsec, with_free_sum}
use rate_engine.Rating.Ledger.{
  Log, Books, add_rating, set_balance, add_free, with_call, with_free_id, rt_balance_exec,
  rt_data_q_bal_add, add_price, write_free, create_free_billsec_balance,
  update_free_billsec_balance, f_free_bal_id_query, free_billsec_exec,
}
use rate_engine.Rating.Exec.{price, settle_free_on, tariff}

-- Is there a row of the record, on the account and at the rate?
unfoldable pub has_row : Log → ℤ → ℕ → ℕ → Bool
has_row [] cdr_id bacc_id rate_id = false
has_row (add_rating pre id card_id ∷ db) cdr_id bacc_id rate_id =
    ((pre.cdr_id ==ℤ cdr_id) && (id == bacc_id) && (pre.rate_id == rate_id))
    || has_row db cdr_id bacc_id rate_id
has_row (_ ∷ db) cdr_id bacc_id rate_id = has_row db cdr_id bacc_id rate_id

unfoldable pub rows : Log → ℕ
rows [] = 0
rows (add_rating pre id card_id ∷ db) = suc (rows db)
rows (_ ∷ db) = rows db

-- `select id from rating where call_id = %d and billing_account_id = %d and rate_id = %d` finds the
-- rows that were inserted.
abbrev pub SeesRows : Books → Type 0
SeesRows books =
    (db : Log) (rtp : Racc)
    → has_row db rtp.call.cdr_id rtp.bacc.id rtp.call.rate_id ≡ true
    → books.is_rated db rtp.call rtp.bacc ≡ true

-- A step that inserts no row and keeps the rate.
abbrev pub IsRowless : Log → Racc → Log × Racc → Type 0
IsRowless db rtp (db1, rtp1) =
    (rtp1.call.rate_id ≡ rtp.call.rate_id)
    × (rows db1 ≡ rows db)
    × ((c : ℤ) (b r : ℕ) → has_row db1 c b r ≡ has_row db c b r)

IsRowless-trans :
    (db : Log) (a : Racc) (db1 : Log) (b : Racc) (s : Log × Racc)
    → IsRowless db a (db1, b)
    → IsRowless db1 b s
    → IsRowless db a s
IsRowless-trans db a db1 b (db2, c) (p, q, h) (p1, q1, h1) =
    (p1 ∙ p, q1 ∙ q, λ x y z. h1 x y z ∙ h x y z)

with_bal-rate : (o : Option Bal) (rtp : Racc) → (with_bal o rtp).call.rate_id ≡ rtp.call.rate_id
unfolding with_bal
with_bal-rate none rtp = refl
with_bal-rate (some n) rtp = refl

with_free_billsec-rate :
    (o : Option ℤ) (rtp : Racc) → (with_free_billsec o rtp).call.rate_id ≡ rtp.call.rate_id
unfolding with_free_billsec
with_free_billsec-rate none rtp = refl
with_free_billsec-rate (some n) rtp = refl

with_free_sum-rate :
    (o : Option ℤ) (rtp : Racc) → (with_free_sum o rtp).call.rate_id ≡ rtp.call.rate_id
unfolding with_free_sum
with_free_sum-rate none rtp = refl
with_free_sum-rate (some n) rtp = refl

module _ (books : Books) (host : Host Log) where
  with_free_id-rate : (o : Option ℕ) (pre : Call) → (with_free_id books o pre).rate_id ≡ pre.rate_id
  with_free_id-rate none pre = refl
  with_free_id-rate (some id) pre = refl

  rt_data_q_bal_add-rows :
      (db : Log) (rtp : Racc) (start stop : Text)
      → (rows (rt_data_q_bal_add db rtp start stop) ≡ rows db)
        × ((c : ℤ) (b r : ℕ)
            → has_row (rt_data_q_bal_add db rtp start stop) c b r ≡ has_row db c b r)
  unfolding rt_data_q_bal_add rows has_row
  rt_data_q_bal_add-rows db rtp start stop =
      if_ind (λ l. (rows l ≡ rows db) × ((c : ℤ) (b r : ℕ) → has_row l c b r ≡ has_row db c b r))
        (ltb 0 rtp.bal.id) _ _ (refl, λ c b r. refl) (refl, λ c b r. refl)

  rt_balance_exec-IsRowless :
      (db : Log) (rtp : Racc) (start stop : Text)
      → IsRowless db rtp (rt_balance_exec books host db rtp start stop)
  unfolding rt_balance_exec
  rt_balance_exec-IsRowless db rtp start stop =
      let loaded =
        if ltb 0 rtp.bal.id then rtp else with_bal (host.bal db rtp.bacc start stop) rtp in
      let (q, h) = rt_data_q_bal_add-rows db (add_price loaded) start stop in
      (ground (arith, with_bal-rate (host.bal db rtp.bacc start stop) rtp), q, h)

  update_free_billsec_balance-rows :
      (db : Log) (pre : Call)
      → (rows (update_free_billsec_balance books db pre) ≡ rows db)
        × ((c : ℤ) (b r : ℕ)
            → has_row (update_free_billsec_balance books db pre) c b r ≡ has_row db c b r)
  unfolding update_free_billsec_balance rows has_row
  update_free_billsec_balance-rows db pre =
      if_ind (λ l. (rows l ≡ rows db) × ((c : ℤ) (b r : ℕ) → has_row l c b r ≡ has_row db c b r))
        (ltb 0 pre.bal_id && ltb 0 pre.tariff_id) _ _ (refl, λ c b r. refl) (refl, λ c b r. refl)

  write_free-IsRowless :
      (db : Log) (rtp : Racc) (pre : Call)
      → pre.rate_id ≡ rtp.call.rate_id
      → let (db1, pre1) = write_free books db pre in IsRowless db rtp (db1, with_call rtp pre1)
  unfolding write_free create_free_billsec_balance f_free_bal_id_query rows has_row
  write_free-IsRowless db rtp pre k =
      let (q, h) = update_free_billsec_balance-rows db pre in
      let added = add_free pre.bal_id pre.free_billsec_id pre.free_billsec ∷ db in
      let kept = with_free_id-rate (books.free_id added pre.bal_id pre.free_billsec_id) pre in
      if_ind (λ (l, c). IsRowless db rtp (l, with_call rtp c)) (ltb 0 pre.free_id) _ _ (k, q, h)
        (kept ∙ k, refl, λ c b r. refl)

  free_billsec_exec-IsRowless :
      (db : Log) (rtp : Racc) (start stop : Text)
      → IsRowless db rtp (free_billsec_exec books host db rtp start stop)
  unfolding free_billsec_exec f_free_bal_id_query
  free_billsec_exec-IsRowless db rtp start stop =
      let used = with_free_billsec (host.free_used db rtp start stop) rtp in
      let same = with_free_billsec-rate (host.free_used db rtp start stop) rtp in
      let pre = f_free_bal_id_query books db used.call in
      let k =
        with_free_id-rate (books.free_id db used.call.bal_id used.call.free_billsec_id) used.call in
      let (written, pre1) = write_free books db pre in
      let done = with_call used pre1 in
      let sum = host.free_sum written done in
      let (p, q, h) = write_free-IsRowless db used pre k in
      (with_free_sum-rate sum done ∙ p ∙ same, q, h)

  pub settle_free_on-IsRowless :
      (o : Option Pcard) (db : Log) (rtp : Racc)
      → IsRowless db rtp (settle_free_on books host o db rtp)
  unfolding settle_free_on
  settle_free_on-IsRowless none db rtp = (refl, refl, λ c b r. refl)
  settle_free_on-IsRowless (some card) db rtp =
      let (db1, rtp1) = rt_balance_exec books host db rtp card.start card.end in
      let last = free_billsec_exec books host db1 rtp1 card.start card.end in
      let settled = rt_balance_exec-IsRowless db rtp card.start card.end in
      if_ind (IsRowless db rtp) (not (is_set card.start && is_set card.end)) _ _
        (refl, refl, λ c b r. refl)
        (if_ind (IsRowless db rtp) (rtp1.call.free_billsec_limit ==ℤ pos 0) _ _ settled (
          IsRowless-trans db rtp db1 rtp1 last settled
            (free_billsec_exec-IsRowless db1 rtp1 card.start card.end)))

  -- The free seconds cover a call that has a price.
  abbrev pub IsCovered : Call → Type 0
  IsCovered pre =
      let free = pre.free_billsec_limit -ℤ pre.free_billsec_sum in
      ((pre.free_billsec_limit ==ℤ pos 0) ≡ false)
      × (leb_ℤ free (pos 0) ≡ false)
      × (ltb_ℤ free pre.billsec ≡ false)
      × (ltb_ℤ (pos 0) pre.cprice ≡ true)

  append_free_billsec-covered :
      (pre : Call)
      → IsCovered pre
      → append_free_billsec pre ≡ (record pre { cprice = neg pre.cprice }, pos 0)
  unfolding append_free_billsec
  append_free_billsec-covered pre (l, f, b, c) = ground (arith, l, f, b, c)

  calc_cprice_group-priced :
      (tr : Option (List CalcFunction)) (pre : Call)
      → (calc_cprice_2 tr pre).1 ≡ pos 0
      → calc_cprice_group tr pre ≡ append_free_billsec (calc_cprice_2 tr pre).0
  unfolding calc_cprice_group
  calc_cprice_group-priced tr pre e = ground (arith, e)

  rt_balance_exec-loaded :
      (db : Log) (rtp : Racc) (start stop : Text)
      → ltb 0 rtp.bal.id ≡ true
      → (rt_balance_exec books host db rtp start stop).0
        ≡ set_balance rtp.bal.id (rtp.bal.amount +ℤ rtp.call.cprice) ∷ db
  unfolding rt_balance_exec rt_data_q_bal_add
  rt_balance_exec-loaded db rtp start stop i = ground (arith, i)

  -- A call that the free seconds cover lowers the balance by its price: when the account has a
  -- loaded balance, the amount written after the pricing is the old one less the price.
  pub rt_balance_exec-free :
      (db : Log) (rtp : Racc) (start stop : Text)
      → let (pre, ret) = calc_cprice_2 (tariff rtp) rtp.call in
        ret ≡ pos 0
        → IsCovered pre
        → ltb 0 rtp.bal.id ≡ true
        → ((price rtp).1 ≡ pos 0)
          × ((rt_balance_exec books host db (price rtp).0 start stop).0
              ≡ set_balance rtp.bal.id (rtp.bal.amount -ℤ pre.cprice) ∷ db)
  rt_balance_exec-free db rtp start stop e covered i =
      let pre = (calc_cprice_2 (tariff rtp) rtp.call).0 in
      let p =
        calc_cprice_group-priced (tariff rtp) rtp.call e
        ∙ append_free_billsec-covered pre covered in
      let less : rtp.bal.amount +ℤ neg pre.cprice ≡ rtp.bal.amount -ℤ pre.cprice = grind int_laws in
      (
        ap (λ s. s.1) p,
        rt_balance_exec-loaded db (price rtp).0 start stop i
            ∙ ap (λ n. set_balance rtp.bal.id n ∷ db)
                (ap (λ s. rtp.bal.amount +ℤ s.0.cprice) p ∙ less),
      )
