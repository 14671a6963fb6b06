-- ===== src/Rating/Batch.antt =====
-- A batch of records: rt_cdr_to_rating, rt_main, rt_worker_func and the loops of rt_loop of
-- rating.c. A result of `none` stands for the process that dies.
pub mod Threads
use rate_engine.Base.{
  ◌>>=◌, ℕ, zero, suc, ◌+◌, length, ◌||◌, not, List, [], ◌∷◌, Option, none, some, ◌==◌,
  if◌then◌else◌, pos, ltb_ℤ, Text, is_set, get_elem?,
}
use rate_engine.CdrMediator.Cdr.{Cdr}
use rate_engine.CdrMediator.RecType.{unkn, isup, sms, voip_a, voip_t}
use rate_engine.Rating.Data.{Call, Racc, zero_call}
use rate_engine.Rating.Mode
use rate_engine.Rating.World.{Host, World}
use rate_engine.Rating.Account.{
  by_modes, rt_racc_voip_av_a, rt_racc_voip_t_a, rt_racc_unkn_a, rt_racc_unkn_b, manage_pcard,
}
use rate_engine.Rating.Ledger.{Log, Books, with_call}
use rate_engine.Rating.Exec.{rt_exec}
use rate_engine.Rating.Workers.{worker_indices}

module _ {Db : Type 0} (host : Host Db) where
  -- The accounts that have one mode.
  abbrev pub rt_racc_voip_t_b : Db → Call → Call × Option Racc
  rt_racc_voip_t_b db pre = by_modes host db (Mode.dstc ∷ []) pre

  abbrev pub rt_racc_isup_a : Db → Call → Call × Option Racc
  rt_racc_isup_a db pre = by_modes host db (Mode.srctg ∷ []) pre

  abbrev pub rt_racc_isup_b : Db → Call → Call × Option Racc
  rt_racc_isup_b db pre = by_modes host db (Mode.dsttg ∷ []) pre

  abbrev pub rt_racc_sms_a : Db → Call → Call × Option Racc
  rt_racc_sms_a db pre = by_modes host db (Mode.sms ∷ []) pre

  abbrev pub rt_racc_sms_b : Db → Call → Call × Option Racc
  rt_racc_sms_b db pre = by_modes host db (Mode.sms ∷ []) pre

  -- The switches of `rt_main`, by the leg and the service.
  unfoldable pub leg_a_racc : ℕ → Db → Call → Call × Option Racc
  leg_a_racc t db pre =
      if t == unkn
      then rt_racc_unkn_a host db pre
      else if t == isup
      then rt_racc_isup_a db pre
      else if t == voip_a
      then rt_racc_voip_av_a host db pre
      else if t == voip_t
      then rt_racc_voip_t_a host db pre
      else if t == sms
      then rt_racc_sms_a db pre
      else (pre, none)

  unfoldable pub leg_b_racc : ℕ → Db → Call → Call × Option Racc
  leg_b_racc t db pre =
      if t == unkn
      then rt_racc_unkn_b host db pre
      else if t == isup
      then rt_racc_isup_b db pre
      else if t == voip_a
      then rt_racc_voip_av_a host db pre
      else if t == voip_t
      then rt_racc_voip_t_b db pre
      else if t == sms
      then rt_racc_sms_b db pre
      else (pre, none)

  unfoldable pub find_racc : ℕ → ℕ → Db → Call → Call × Option Racc
  find_racc leg t db pre =
      if leg == b'a'
      then leg_a_racc t db pre
      else if leg == b'b'
      then leg_b_racc t db pre
      else (pre, none)

-- The world, with `rated_ok` and `rated_err` of a worker.
abbrev pub Tally : Type 0
Tally = World Log × ℕ × ℕ

module _ (books : Books) (host : Host Log) where
  -- Without an account the record is left as it is.
  unfoldable pub rt_main : ℕ → ℕ → World Log → Call → Option (World Log × Call)
  rt_main leg t w pre =
      let (tried, found) = find_racc host leg t w.db (record pre { rating_mode_id = 0 }) in
      elim found [
        | none ↦ some (w, tried)
        | some racc ↦
            let rtp = with_call racc tried in
            let (managed, carded) = manage_pcard host w rtp in
            let (ready, account) =
              if not (rtp.bacc.id == 0) || is_set rtp.bacc.username
              then (managed, carded)
              else (w, rtp) in
            do (w1, done) ← rt_exec books host leg ready account; some (w1, done.call)
      ]

  -- `convert_ts_to_epoch`, by sscanf and mktime.
  module _ (convert_ts_to_epoch : Text → ℕ) where
    unfoldable pub rt_cdr_to_rating : Cdr → Call → Call
    rt_cdr_to_rating cdr pre = record pre {
      cdr_server_id = cdr.cdr_server_id;
      call_uid = cdr.call_uid;
      clg = cdr.calling_number;
      cld = cdr.called_number;
      billsec = pos cdr.billsec;
      cdr_id = pos cdr.id;
      timestamp = cdr.start_ts;
      dow = (host.localtime (convert_ts_to_epoch cdr.start_ts)).wday;
      ts = cdr.start_epoch;
      account_code = cdr.account_code;
      src_context = cdr.src_context;
      dst_context = cdr.dst_context;
      src_tgroup = cdr.src_tgroup;
      dst_tgroup = cdr.dst_tgroup;
      epoch = convert_ts_to_epoch cdr.start_ts;
      clg_nadi = cdr.clg_nadi;
      cld_nadi = cdr.cld_nadi;
      billusec = pos cdr.billusec;
    }

    -- One turn of either loop.
    unfoldable pub rate_cdr : ℕ → World Log → Cdr → Option (World Log × Call)
    rate_cdr leg w cdr = rt_main leg cdr.cdr_rec_type_id w (rt_cdr_to_rating cdr zero_call)

    -- The loop of one thread over all the records: the world and how many were rated.
    unfoldable pub single_loop : ℕ → List Cdr → World Log → ℕ → Option (World Log × ℕ)
    single_loop leg [] w cc = some (w, cc)
    single_loop leg (cdr ∷ cdrs) w cc = do
      (w1, pre) ← rate_cdr leg w cdr
      single_loop leg cdrs w1 (if ltb_ℤ (pos 0) pre.rating_id then cc + 1 else cc)

    -- A record of a worker.
    unfoldable pub work_on : ℕ → Cdr → Tally → Option Tally
    work_on leg cdr (w, ok, err) = do
      (w1, pre) ← rate_cdr leg w cdr
      let rated = ltb_ℤ (pos 0) pre.rating_id
      some (w1, if rated then ok + 1 else ok, if rated then err else err + 1)

    -- `w->cdrs[idx]` for the indices of a worker, with `rated_ok` and `rated_err`.
    unfoldable pub rt_worker_func : ℕ → List Cdr → List ℕ → Tally → Option Tally
    rt_worker_func leg cdrs [] s = some s
    rt_worker_func leg cdrs (idx ∷ indices) s = do
      cdr ← get_elem? cdrs idx
      s1 ← work_on leg cdr s
      rt_worker_func leg cdrs indices s1

    -- `num_threads` workers over a batch, where each runs to its end before the next one starts,
    -- for the first `t` of them.
    unfoldable pub threads_loop : ℕ → List Cdr → ℕ → ℕ → World Log → Option (World Log × ℕ)
    threads_loop leg cdrs num_threads zero w = some (w, 0)
    threads_loop leg cdrs num_threads (suc t) w = do
      (w1, cc) ← threads_loop leg cdrs num_threads t w
      (w2, ok, err) ←
          rt_worker_func leg cdrs (worker_indices (length cdrs) num_threads t) (w1, 0, 0)
      some (w2, cc + ok)
