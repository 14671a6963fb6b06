-- ===== src/CallControl/Events/Race.antt =====
-- cc_maxsec_f counts the calls of a number and stores the new one in two locked sections. Here two
-- requests have counted before either of them is stored.
use rate_engine.Base.{ℕ, suc, ◌+◌, ◌≡◌, refl, List, some, arith, text_eq_refl}
use rate_engine.Rating.Data.{Call, Racc}
use rate_engine.CallControl.Table.{Cc, CcMaxsec, Slot, cc_server_call_search_racc}
use rate_engine.CallControl.Occupied.{free_slots, cc_server_call_init-counts}
use rate_engine.CallControl.Events.{MaxsecApi, answered, cc_maxsec_pre, store_call}

-- A granted call takes a free slot.
store_call-stored :
    (tbl : List Slot) (c : Cc) (m : CcMaxsec) (pre : Call) (rtp : Racc) (k : ℕ)
    → free_slots tbl ≡ suc k
    → (free_slots (store_call tbl c m (pre, some rtp)).0 ≡ k)
      × (cc_server_call_search_racc m.clg (store_call tbl c m (pre, some rtp)).0
          ≡ suc (cc_server_call_search_racc m.clg tbl))
unfolding store_call
store_call-stored tbl c m pre rtp k free =
    let (p, q, n) =
      cc_server_call_init-counts (answered c m pre.maxsec) (record m { maxsec = pre.maxsec }) rtp
        tbl m.clg refl in
    let mine = text_eq_refl m.clg in (ground (arith, p, q, free), ground (arith, q, n, free, mine))

-- Two requests of one number that were both granted with the calls of the number as they were
-- before either was stored are both stored, when two slots are free: then two calls more are up,
-- whatever the cards allow.
pub store_call-race :
    {W : Type 0} (api : MaxsecApi W) (w w' : W) (tbl : List Slot) (c c' : Cc) (m m' : CcMaxsec)
    (pre pre' : Call) (rtp rtp' : Racc) (k : ℕ)
    → m'.clg ≡ m.clg
    → free_slots tbl ≡ k + 2
    → let sim = cc_server_call_search_racc m.clg tbl in
      (api.maxsec w (cc_maxsec_pre c m) sim).1 ≡ (pre, some rtp)
      → (api.maxsec w' (cc_maxsec_pre c' m') sim).1 ≡ (pre', some rtp')
      → let stored = (store_call tbl c m (api.maxsec w (cc_maxsec_pre c m) sim).1).0 in
        let both = (store_call stored c' m' (api.maxsec w' (cc_maxsec_pre c' m') sim).1).0 in
        cc_server_call_search_racc m.clg both ≡ sim + 2
store_call-race api w w' tbl c c' m m' pre pre' rtp rtp' k same free first second =
    let sim = cc_server_call_search_racc m.clg tbl in
    let one = store_call-stored tbl c m pre rtp (suc k) (omega (arith, free)) in
    let stored = (store_call tbl c m (pre, some rtp)).0 in
    let two = store_call-stored stored c' m' pre' rtp' k one.0 in
    let counted : cc_server_call_search_racc m.clg (store_call stored c' m' (pre', some rtp')).0
        ≡ sim + 2 =
      ground (arith, same, one.1, two.1) in
    rw (first, second) counted
