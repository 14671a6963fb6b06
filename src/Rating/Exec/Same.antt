-- ===== src/Rating/Exec/Same.antt =====
-- What the rating of a record leaves as it is: the account, the ids of the record and of its
-- balance, the marks of records, and the used free seconds of a balance.
use rate_engine.Base.{
  not, ◌&&◌, is_set, ◌==ℤ◌, pos, suc, List, [], ◌∷◌, Bool, if◌then◌else◌, ltb, ℕ, ◌≡◌, refl, true,
  false, Option, none, some, arith, ℤ, Text, ◌∙◌,
}
use rate_engine.Rating.Data.{Pcard, CalcFunction, Bal, Call, Racc}
use rate_engine.Rating.Calc.{calc_cprice_2, calc_cprice_group, append_free_billsec}
use rate_engine.Rating.World.{Host}
use rate_engine.Rating.Account.{with_bal, with_free_billsec, with_free_sum}
use rate_engine.Rating.Ledger.{
  with_new_id, add_free, with_free_id, set_leg, set_free, rt_data_q_bal_add, add_price, with_call,
  update_free_billsec_balance, Log, Books, insert_rating, rt_balance_exec, free_billsec_exec,
  write_free, create_free_billsec_balance, f_free_bal_id_query,
}
use rate_engine.Rating.Mode.{sms}
use rate_engine.Rating.Exec.{settle_free_on, settle_on, count_sms_on, tariff, price, round_call}

-- The statements that mark a record, and those that update used free seconds.
unfoldable pub legs : Log → ℕ
legs [] = 0
legs (set_leg leg rating_id cdr_id ∷ db) = suc (legs db)
legs (_ ∷ db) = legs db

unfoldable pub frees : Log → ℕ
frees [] = 0
frees (set_free bal_id free_id n ∷ db) = suc (frees db)
frees (_ ∷ db) = frees db

-- The same account and the same record.
abbrev pub IsSame : Racc → Racc → Type 0
IsSame a b = (a.bacc ≡ b.bacc) × (a.call.cdr_id ≡ b.call.cdr_id) × (a.call.bal_id ≡ b.call.bal_id)

-- A step from `(db, rtp)` to `(db1, rtp1)` marks no record and, without the id of a balance,
-- updates no used free seconds.
abbrev pub IsQuiet : Log → Racc → Log × Racc → Type 0
IsQuiet db rtp (db1, rtp1) =
    IsSame rtp1 rtp × (legs db1 ≡ legs db) × (rtp.call.bal_id ≡ 0 → frees db1 ≡ frees db)

pub IsQuiet-same : (db : Log) (a b : Racc) → IsSame b a → IsQuiet db a (db, b)
IsQuiet-same db a b h = (h, refl, λ z. refl)

pub IsQuiet-trans :
    (db : Log) (a : Racc) (db1 : Log) (b : Racc) (s : Log × Racc)
    → IsQuiet db a (db1, b)
    → IsQuiet db1 b s
    → IsQuiet db a s
IsQuiet-trans db a db1 b (db2, c) ((p, q, r), l, f) ((p1, q1, r1), l1, f1) =
    ((p1 ∙ p, q1 ∙ q, r1 ∙ r), l1 ∙ l, λ z. f1 (r ∙ z) ∙ f z)

-- Of two ways that are both quiet, the one taken is.
pub IsQuiet-if :
    (c : Bool) (db : Log) (a : Racc) (s t : Log × Racc)
    → IsQuiet db a s
    → IsQuiet db a t
    → IsQuiet db a (if c then s else t)
IsQuiet-if true db a s t p q = p
IsQuiet-if false db a s t p q = q

calc_cprice_group-ids :
    (tr : Option (List CalcFunction)) (pre : Call)
    → ((calc_cprice_group tr pre).0.cdr_id ≡ pre.cdr_id)
      × ((calc_cprice_group tr pre).0.bal_id ≡ pre.bal_id)
unfolding calc_cprice_group calc_cprice_2 append_free_billsec
calc_cprice_group-ids none pre = ground arith
calc_cprice_group-ids (some tr) pre = ground arith

pub price-IsSame : (rtp : Racc) → IsSame (price rtp).0 rtp
price-IsSame rtp = let (h, k) = calc_cprice_group-ids (tariff rtp) rtp.call in (refl, h, k)

pub round_call-IsSame : (rtp : Racc) → IsSame (round_call rtp) rtp
unfolding round_call
round_call-IsSame rtp = ground arith

pub with_free_billsec-IsSame : (o : Option ℤ) (rtp : Racc) → IsSame (with_free_billsec o rtp) rtp
unfolding with_free_billsec
with_free_billsec-IsSame none rtp = (refl, refl, refl)
with_free_billsec-IsSame (some n) rtp = (refl, refl, refl)

pub with_free_sum-IsSame : (o : Option ℤ) (rtp : Racc) → IsSame (with_free_sum o rtp) rtp
unfolding with_free_sum
with_free_sum-IsSame none rtp = (refl, refl, refl)
with_free_sum-IsSame (some n) rtp = (refl, refl, refl)

pub with_bal-IsSame : (o : Option Bal) (rtp : Racc) → IsSame (with_bal o rtp) rtp
unfolding with_bal
with_bal-IsSame none rtp = (refl, refl, refl)
with_bal-IsSame (some n) rtp = (refl, refl, refl)

module _ (books : Books) (host : Host Log) where
  rt_data_q_bal_add-legs :
      (db : Log) (rtp : Racc) (start stop : Text)
      → (legs (rt_data_q_bal_add db rtp start stop) ≡ legs db)
        × (frees (rt_data_q_bal_add db rtp start stop) ≡ frees db)
  unfolding rt_data_q_bal_add legs frees
  rt_data_q_bal_add-legs db rtp start stop = ground arith

  pub rt_balance_exec-IsQuiet :
      (db : Log) (rtp : Racc) (start stop : Text)
      → IsQuiet db rtp (rt_balance_exec books host db rtp start stop)
  unfolding rt_balance_exec
  rt_balance_exec-IsQuiet db rtp start stop =
      let loaded =
        if ltb 0 rtp.bal.id then rtp else with_bal (host.bal db rtp.bacc start stop) rtp in
      let (l, f) = rt_data_q_bal_add-legs db (add_price loaded) start stop in
      (ground (arith, with_bal-IsSame (host.bal db rtp.bacc start stop) rtp), l, λ z. f)

  with_free_id-ids :
      (o : Option ℕ) (pre : Call)
      → ((with_free_id books o pre).cdr_id ≡ pre.cdr_id)
        × ((with_free_id books o pre).bal_id ≡ pre.bal_id)
  with_free_id-ids none pre = (refl, refl)
  with_free_id-ids (some id) pre = (refl, refl)

  update_free_billsec_balance-legs :
      (db : Log) (pre : Call)
      → (legs (update_free_billsec_balance books db pre) ≡ legs db)
        × (pre.bal_id ≡ 0 → frees (update_free_billsec_balance books db pre) ≡ frees db)
  unfolding update_free_billsec_balance legs frees
  update_free_billsec_balance-legs db pre = (ground arith, λ z. ground (arith, z))

  create-ids :
      (db : Log) (pre : Call)
      → let (db1, pre1) = create_free_billsec_balance books db pre in
        (legs db1 ≡ legs db)
        × (frees db1 ≡ frees db)
        × (pre1.cdr_id ≡ pre.cdr_id)
        × (pre1.bal_id ≡ pre.bal_id)
  unfolding create_free_billsec_balance f_free_bal_id_query legs frees
  create-ids db pre =
      let added = add_free pre.bal_id pre.free_billsec_id pre.free_billsec ∷ db in
      let (h, k) = with_free_id-ids (books.free_id added pre.bal_id pre.free_billsec_id) pre in
      (refl, refl, h, k)

  write_free-IsQuiet :
      (db : Log) (rtp : Racc) (pre : Call)
      → pre.cdr_id ≡ rtp.call.cdr_id
      → pre.bal_id ≡ rtp.call.bal_id
      → let (db1, pre1) = write_free books db pre in IsQuiet db rtp (db1, with_call rtp pre1)
  unfolding write_free
  write_free-IsQuiet db rtp pre h k =
      let (l, f) = update_free_billsec_balance-legs db pre in
      let (l1, f1, h1, k1) = create-ids db pre in
      (
        (refl, ground (arith, h, h1), ground (arith, k, k1)),
        ground (arith, l, l1),
        λ z. ground (arith, k, z, f (k ∙ z), f1),
      )

  pub free_billsec_exec-IsQuiet :
      (db : Log) (rtp : Racc) (start stop : Text)
      → IsQuiet db rtp (free_billsec_exec books host db rtp start stop)
  unfolding free_billsec_exec f_free_bal_id_query
  free_billsec_exec-IsQuiet db rtp start stop =
      let used = with_free_billsec (host.free_used db rtp start stop) rtp in
      let same = with_free_billsec-IsSame (host.free_used db rtp start stop) rtp in
      let pre = f_free_bal_id_query books db used.call in
      let (h, k) =
        with_free_id-ids (books.free_id db used.call.bal_id used.call.free_billsec_id) used.call in
      let (written, pre1) = write_free books db pre in
      let done = with_call used pre1 in
      let sum = host.free_sum written done in
      IsQuiet-trans db rtp db used (written, with_free_sum sum done) (IsQuiet-same db rtp used same)
        (IsQuiet-trans db used written done (written, with_free_sum sum done)
          (write_free-IsQuiet db used pre h k)
          (IsQuiet-same written done (with_free_sum sum done) (with_free_sum-IsSame sum done)))

  pub settle_free_on-IsQuiet :
      (o : Option Pcard) (db : Log) (rtp : Racc)
      → IsQuiet db rtp (settle_free_on books host o db rtp)
  unfolding settle_free_on
  settle_free_on-IsQuiet none db rtp = ((refl, refl, refl), refl, λ z. refl)
  settle_free_on-IsQuiet (some card) db rtp =
      let (db1, rtp1) = rt_balance_exec books host db rtp card.start card.end in
      let last = free_billsec_exec books host db1 rtp1 card.start card.end in
      let settled = rt_balance_exec-IsQuiet db rtp card.start card.end in
      IsQuiet-if (not (is_set card.start && is_set card.end)) db rtp (db, rtp) _
        ((refl, refl, refl), refl, λ z. refl)
        (IsQuiet-if (rtp1.call.free_billsec_limit ==ℤ pos 0) db rtp (db1, rtp1) last settled
          (IsQuiet-trans db rtp db1 rtp1 last settled
            (free_billsec_exec-IsQuiet db1 rtp1 card.start card.end)))

  pub settle_on-IsQuiet :
      (o : Option Pcard) (db : Log) (rtp : Racc) → IsQuiet db rtp (settle_on books host o db rtp)
  unfolding settle_on
  settle_on-IsQuiet none db rtp = ((refl, refl, refl), refl, λ z. refl)
  settle_on-IsQuiet (some card) db rtp =
      let (db1, rtp1) = rt_balance_exec books host db rtp card.start card.end in
      let last = free_billsec_exec books host db1 rtp1 card.start card.end in
      let settled = rt_balance_exec-IsQuiet db rtp card.start card.end in
      let is_counted =
        not (rtp1.call.free_billsec_limit ==ℤ pos 0) && ltb rtp1.call.rating_mode_id sms in
      IsQuiet-if is_counted db rtp last (db1, rtp1)
        (IsQuiet-trans db rtp db1 rtp1 last settled
          (free_billsec_exec-IsQuiet db1 rtp1 card.start card.end))
        settled

  pub count_sms_on-IsSame :
      (o : Option Pcard) (db : Log) (rtp : Racc) → IsSame (count_sms_on books host o db rtp) rtp
  unfolding count_sms_on
  count_sms_on-IsSame none db rtp = (refl, refl, refl)
  count_sms_on-IsSame (some card) db rtp =
      ground (arith, with_free_billsec-IsSame (books.sms_count db rtp card.start card.end) rtp)

  with_new_id-IsSame : (o : Option ℤ) (rtp : Racc) → IsSame (with_new_id books o rtp) rtp
  with_new_id-IsSame none rtp = (refl, refl, refl)
  with_new_id-IsSame (some n) rtp = (refl, refl, refl)

  pub insert_rating-IsQuiet :
      (db : Log) (rtp : Racc) (card_id : ℕ) → IsQuiet db rtp (insert_rating books db rtp card_id)
  unfolding insert_rating legs frees
  insert_rating-IsQuiet db rtp card_id = (with_new_id-IsSame _ rtp, refl, λ z. refl)
