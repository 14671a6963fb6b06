-- ===== src/Rating/Maxsec/Granted.antt =====
-- What a granted call has passed.
use rate_engine.Base.{
  ℕ, zero, suc, ◌≤◌, ◌≡◌, ◌⊎◌, inl, inr, refl, ◌∙◌, Bool, true, false, ◌&&◌, List, Option, none,
  some, arith, ◌==◌, if◌then◌else◌, ℤ, pos, negsuc, ◌-ℤ◌, ltb_ℤ, leb_ℤ, ◌<ℤ◌, Bool-cases,
  Option-cases, int_laws,
}
use rate_engine.Rating.Data.{CalcFunction, Bal, Pcard, Call, Racc}
use rate_engine.Rating.Calc.{calc_maxsec}
use rate_engine.Rating.World.{Host, World}
use rate_engine.Rating.Search.{rt_data_q_rate, rt_data_q_rate_sql, rt_chk_bplan_periods}
use rate_engine.Rating.Account.{
  rt_racc_voip_av_a, manage_pcard, rt_prerating_process, rt_rate_searching, prerate, load_balance,
  with_bal, with_free_billsec, with_free_sum,
}
use rate_engine.Rating.Maxsec.{
  Answer, refuse, no_bplan, no_pcard, check_pcard, no_bacc, no_tariff, rt_cache_ensure, split_limit,
  time_limit, grant, grant_found, check_account, search_account, rt_maxsec,
}

-- The account has a card with credit left and room for one more call than `sim`.
abbrev pub HasRoom : ℕ → Racc → Type 0
HasRoom sim rtp =
    (card : Pcard) × (rtp.bacc.pcard ≡ some card)
    × (pos sim <ℤ card.call_number)
    × (rtp.bal.amount <ℤ card.amount)

-- The answer is a refusal with a negative code, or the account of a call that has between 1 and
-- `most` seconds.
abbrev pub IsAnswer : ℕ → ℕ → Answer → Type 0
IsAnswer most sim (pre, none) = (n : ℕ) × (pre.maxsec ≡ negsuc n)
IsAnswer most sim (pre, some rtp) =
    (n : ℕ) × (pre.maxsec ≡ pos (suc n)) × (suc n ≤ most) × (rtp.call ≡ pre) × HasRoom sim rtp

calc_maxsec-at_most :
    (most : ℕ) (tr : List CalcFunction) (pre : Call)
    → (n : ℕ) × ((calc_maxsec most (some tr) pre).maxsec ≡ pos n) × (n ≤ most)
unfolding calc_maxsec
calc_maxsec-at_most most tr pre = (_, refl, ground arith)

IsAnswer-if :
    (most sim : ℕ) (test : Bool) (a b : Answer)
    → (test ≡ true → IsAnswer most sim a)
    → (test ≡ false → IsAnswer most sim b)
    → IsAnswer most sim (if test then a else b)
IsAnswer-if most sim true a b p q = p refl
IsAnswer-if most sim false a b p q = q refl

above_zero :
    (z : ℤ) (n : ℕ)
    → z ≡ pos n
    → leb_ℤ z (pos 0) ≡ false
    → (m : ℕ) × (z ≡ pos (suc m)) × (suc m ≡ n)
above_zero z zero e h = ground (arith, e, h)
above_zero z (suc m) e h = (m, e, refl)

time_limit-IsAnswer :
    (most sim : ℕ) (rtp : Racc) (tr : List CalcFunction) (pre : Call)
    → HasRoom sim rtp
    → IsAnswer most sim (time_limit most rtp tr pre)
unfolding time_limit
time_limit-IsAnswer most sim rtp tr pre room =
    let (n, e, most_le) = calc_maxsec-at_most most tr pre in
    IsAnswer-if most sim (leb_ℤ (calc_maxsec most (some tr) pre).maxsec (pos 0)) _ _
      (λ h. (7, refl))
      (λ h.
        let (m, f, g) = above_zero (calc_maxsec most (some tr) pre).maxsec n e h in
        (m, f, omega arith, refl, room))

difference-positive : (a b : ℤ) → leb_ℤ (a -ℤ b) (pos 0) ≡ false → b <ℤ a
difference-positive a b h = grind int_laws

grant-IsAnswer :
    (most k_num k_den sim : ℕ) (rtp : Racc) (card : Pcard) (tr : List CalcFunction)
    → rtp.bacc.pcard ≡ some card
    → IsAnswer most sim (grant most k_num k_den sim rtp card tr)
unfolding grant
grant-IsAnswer most k_num k_den sim rtp card tr has_card =
    let limit = card.amount -ℤ rtp.bal.amount in
    IsAnswer-if most sim (leb_ℤ limit (pos 0)) _ _ (λ h. (3, refl))
      (λ credit.
        IsAnswer-if most sim (leb_ℤ card.call_number (pos 0)) _ _ (λ h. (5, refl))
          (λ h.
            IsAnswer-if most sim (leb_ℤ card.call_number (pos sim)) _ _ (λ h'. (5, refl))
              (λ calls.
                let room : HasRoom sim rtp = (
                  card,
                  has_card,
                  ground arith,
                  difference-positive card.amount rtp.bal.amount credit,
                ) in
                elim (Option-cases (
                  split_limit k_num k_den card sim
                    (record (rtp.call) { limit = limit; limit_parts = 1 }))) [
                      | inl e ↦ rw e (5, refl)
                      | inr (shared, e) ↦ rw e (
                          IsAnswer-if most sim
                            (ltb_ℤ (pos 1) card.call_number && leb_ℤ shared.limit (pos 0)) _ _
                            (λ h''. (2, refl))
                            (λ h''. time_limit-IsAnswer most sim rtp tr shared room))
                    ])))

with_bal-bacc : (row : Option Bal) (rtp : Racc) → (with_bal row rtp).bacc ≡ rtp.bacc
unfolding with_bal
with_bal-bacc none rtp = refl
with_bal-bacc (some b) rtp = refl

with_free_billsec-bacc : (n : Option ℤ) (rtp : Racc) → (with_free_billsec n rtp).bacc ≡ rtp.bacc
unfolding with_free_billsec
with_free_billsec-bacc none rtp = refl
with_free_billsec-bacc (some n) rtp = refl

with_free_sum-bacc : (n : Option ℤ) (rtp : Racc) → (with_free_sum n rtp).bacc ≡ rtp.bacc
unfolding with_free_sum
with_free_sum-bacc none rtp = refl
with_free_sum-bacc (some n) rtp = refl

load_balance-bacc :
    {Db : Type 0} (host : Host Db) (db : Db) (rtp : Racc) (card : Pcard)
    → (load_balance host db rtp card).bacc ≡ rtp.bacc
unfolding load_balance
load_balance-bacc host db rtp card =
    let loaded = with_bal (host.bal db rtp.bacc card.start card.end) rtp in
    let used = with_free_billsec (host.free_used db loaded card.start card.end) loaded in
    let p = with_bal-bacc (host.bal db rtp.bacc card.start card.end) rtp in
    let q = with_free_billsec-bacc (host.free_used db loaded card.start card.end) loaded in
    let r = with_free_sum-bacc (host.free_sum db used) used in ground (arith, p, q, r)

rt_prerating_process-bacc :
    {Db : Type 0} (host : Host Db) (w : World Db) (rtp : Racc) (card : Pcard)
    → (rt_prerating_process host w rtp card).1.bacc ≡ rtp.bacc
unfolding rt_prerating_process
rt_prerating_process-bacc host w rtp card = ground (arith, load_balance-bacc host w.db rtp card)

rt_data_q_rate-bacc :
    {Db : Type 0} (host : Host Db) (w : World Db) (rtp : Racc)
    → (rt_data_q_rate host w rtp).1.bacc ≡ rtp.bacc
unfolding rt_data_q_rate
rt_data_q_rate-bacc host w rtp = elim (Option-cases (rt_data_q_rate_sql host w rtp.bplan.id).1) [
  | inl e ↦ ground (arith, e)
  | inr (rates, e) ↦ ground (arith, e)
]

prerated-bacc :
    {Db : Type 0} (host : Host Db) (w : World Db) (found : Racc)
    → (prerate host w found).1.bacc ≡ found.bacc
unfolding prerate
prerated-bacc host w found = elim (Option-cases (found.bplan.rates_ptr)) [
  | inl e ↦ ground (arith, e)
  | inr (rates, e) ↦ elim (Option-cases (found.bacc.pcard)) [
    | inl e' ↦ ground (arith, e, e')
    | inr (card, e') ↦ ground (arith, e, e', rt_prerating_process-bacc host w found card)
  ]
]

rt_rate_searching-bacc :
    {Db : Type 0} (host : Host Db) (w : World Db) (rtp : Racc)
    → (rt_rate_searching host w rtp).1.bacc ≡ rtp.bacc
unfolding rt_rate_searching
rt_rate_searching-bacc host w rtp =
    let (w1, found) = rt_data_q_rate host w rtp in
    prerated-bacc host w1 found ∙ rt_data_q_rate-bacc host w rtp

IsAnswer-same : (most sim : ℕ) (a b : Answer) → a ≡ b → IsAnswer most sim b → IsAnswer most sim a
IsAnswer-same most sim a b e p = rw e p

module _ {Db : Type 0} (host : Host Db) where
  grant_found-IsAnswer :
      (sim : ℕ) (rtp : Racc) (card : Pcard)
      → rtp.bacc.pcard ≡ some card
      → IsAnswer host.call_maxsec_limit sim (grant_found host sim rtp card)
  unfolding grant_found
  grant_found-IsAnswer sim rtp card has_card =
      let most = host.call_maxsec_limit in
      elim (Option-cases rtp.bplan.rates_ptr) [
        | inl e ↦ IsAnswer-same most sim _ (refuse rtp.call no_tariff) (ground (arith, e)) (6, refl)
        | inr (rates, e) ↦ elim (Option-cases rates.calc_funcs) [
          | inl e' ↦
              IsAnswer-same most sim _ (refuse rtp.call no_tariff) (ground (arith, e, e')) (6, refl)
          | inr (tr, e') ↦
              IsAnswer-same most sim _ (grant most host.k_num host.k_den sim rtp card tr)
                (ground (arith, e, e'))
                (grant-IsAnswer most host.k_num host.k_den sim rtp card tr has_card)
        ]
      ]

  check_pcard-IsAnswer :
      (w : World Db) (sim : ℕ) (rtp : Racc)
      → IsAnswer host.call_maxsec_limit sim (check_pcard host w sim rtp).1
  unfolding check_pcard
  check_pcard-IsAnswer w sim rtp =
      let most = host.call_maxsec_limit in
      let rated = (rt_rate_searching host w rtp).1 in
      elim (Option-cases rtp.bacc.pcard) [
        | inl e ↦ IsAnswer-same most sim _ (refuse rtp.call no_pcard) (ground (arith, e)) (2, refl)
        | inr (card, e) ↦
            IsAnswer-same most sim _ (grant_found host sim rated card) (ground (arith, e)) (
              grant_found-IsAnswer sim rated card
                (ground (arith, e, rt_rate_searching-bacc host w rtp)))
      ]

  check_account-IsAnswer :
      (w : World Db) (sim : ℕ) (rtp : Racc)
      → IsAnswer host.call_maxsec_limit sim (check_account host w sim rtp).1
  unfolding check_account
  check_account-IsAnswer w sim rtp =
      let carded =
        manage_pcard host w (record rtp { bplan = rt_chk_bplan_periods rtp.bplan rtp.call.ts }) in
      elim (Bool-cases (rtp.bacc.id == 0)) [
        | inl e ↦
            IsAnswer-same host.call_maxsec_limit sim _ (refuse rtp.call no_bacc) (ground (arith, e))
              (0, refl)
        | inr e ↦ elim (Bool-cases (rtp.bplan.id == 0)) [
          | inl e' ↦
              IsAnswer-same host.call_maxsec_limit sim _ (refuse rtp.call no_bplan)
                (ground (arith, e, e')) (1, refl)
          | inr e' ↦
              IsAnswer-same host.call_maxsec_limit sim _ (check_pcard host carded.0 sim carded.1).1
                (ground (arith, e, e')) (check_pcard-IsAnswer carded.0 sim carded.1)
        ]
      ]

  search_account-IsAnswer :
      (w : World Db) (pre : Call) (sim : ℕ)
      → IsAnswer host.call_maxsec_limit sim (search_account host w pre sim).1
  unfolding search_account
  search_account-IsAnswer w pre sim =
      let most = host.call_maxsec_limit in
      let w0 = rt_cache_ensure host w in
      let (tried, found) = rt_racc_voip_av_a host w0.db pre in
      elim (Option-cases (rt_racc_voip_av_a host w0.db pre).1) [
        | inl e ↦ IsAnswer-same most sim _ (refuse tried no_bacc) (ground (arith, e)) (0, refl)
        | inr (rtp, e) ↦
            IsAnswer-same most sim _ (check_account host w0 sim (record rtp { call = tried })).1
              (ground (arith, e)) (check_account-IsAnswer w0 sim (record rtp { call = tried }))
      ]

  pub rt_maxsec-connected :
      (w : World Db) (pre : Call) (sim : ℕ)
      → host.has_dbp ≡ true
      → IsAnswer host.call_maxsec_limit sim (rt_maxsec host w pre sim).1
  unfolding rt_maxsec
  rt_maxsec-connected w pre sim e =
      IsAnswer-same host.call_maxsec_limit sim _ (search_account host w pre sim).1
        (ground (arith, e)) (search_account-IsAnswer w pre sim)

  pub rt_maxsec-unconnected :
      (w : World Db) (pre : Call) (sim : ℕ)
      → host.has_dbp ≡ false
      → rt_maxsec host w pre sim ≡ (w, (pre, none))
  unfolding rt_maxsec
  rt_maxsec-unconnected w pre sim e = ground (arith, e)

  -- With a database, the answer to a request is a refusal with a negative code, or the account of
  -- the call with between 1 and `call_maxsec_limit` seconds; it then has a card with more credit
  -- than the balance, which allows more calls than are up. Without a database, as in a worker that
  -- could not connect, the request is left as it was, with no code.
  pub rt_maxsec-IsAnswer :
      (w : World Db) (pre : Call) (sim : ℕ)
      → ((host.has_dbp ≡ true) × IsAnswer host.call_maxsec_limit sim (rt_maxsec host w pre sim).1)
        ⊎ ((host.has_dbp ≡ false) × (rt_maxsec host w pre sim ≡ (w, (pre, none))))
  rt_maxsec-IsAnswer w pre sim = elim (Bool-cases host.has_dbp) [
    | inl e ↦ inl (e, rt_maxsec-connected w pre sim e)
    | inr e ↦ inr (e, rt_maxsec-unconnected w pre sim e)
  ]
