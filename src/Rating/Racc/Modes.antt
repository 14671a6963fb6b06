-- ===== src/Rating/Racc/Modes.antt =====
-- The account that a query without rows leaves, and the columns of the query by trunk group.
use rate_engine.Base.{
  ◌∙◌, text, ◌>>=◌, ℕ, ◌*◌, ◌<◌, ◌≡◌, refl, List, [], ◌∷◌, Option, none, some, Text, length, Gives,
}
use rate_engine.Database.Escape.{db_sql_escape, db_sql_escape-fits}
use rate_engine.Rating.Mode
use rate_engine.Rating.Data.{Call, Racc}
use rate_engine.Rating.World.{Host}
use rate_engine.Rating.Account.{by_modes}
use rate_engine.Rating.Racc.{
  TrunkRow, RaccRows, Query, mode_query, new_racc, with_data, read_columns, read_rows,
  trunk_columns, racc_rows, rt_data_q_racc,
}

module _ {Db : Type 0} (answers : RaccRows Db) where
  -- The query of a host, without the cache.
  abbrev pub uncached : Db → Call → Option Racc
  uncached db pre =
      rt_data_q_racc answers (record { db = db; cache = none }) pre >>= λ (w, rtp). some rtp

  abbrev pub with_query : Host Db → Host Db
  with_query host = record host { racc = uncached }

  read_columns-rtm : (row : List ℕ) (rtp : Racc) → (read_columns row rtp).rtm ≡ rtp.rtm
  unfolding read_columns with_data
  read_columns-rtm (c0 ∷ c1 ∷ c2 ∷ c3 ∷ c4 ∷ c5 ∷ c6 ∷ more) rtp = refl
  read_columns-rtm _ rtp = refl

  read_rows-rtm : (rows : List (List ℕ)) (rtp : Racc) → (read_rows rows rtp).rtm ≡ rtp.rtm
  unfolding read_rows
  read_rows-rtm [] rtp = refl
  read_rows-rtm (row ∷ rows) rtp =
      read_rows-rtm rows (read_columns row rtp) ∙ read_columns-rtm row rtp

  uncached-rtm :
      (db : Db) (pre : Call) (cond : Text) (query : Query)
      → mode_query pre.rating_mode_id pre ≡ some (cond, query)
      → 2 * length cond < 160
      → Gives (λ rtp. rtp.rtm ≡ pre.rating_mode_id) (uncached db pre)
  unfolding rt_data_q_racc ◌>>=◌
  uncached-rtm db pre cond query e h =
      let (safe, f) = db_sql_escape-fits cond 160 h in
      rw (e, f) (_, refl, read_rows-rtm (racc_rows answers db query safe pre) (new_racc pre))

  -- The first mode is the only one: its query gives an account, if only an empty one, whatever the
  -- database holds, when the field of the mode fits its buffer.
  pub by_modes-first :
      (host : Host Db) (db : Db) (mode : ℕ) (modes : List ℕ) (pre : Call) (cond : Text)
      (query : Query)
      → let tried = record pre { rating_mode_id = mode } in
        mode_query mode tried ≡ some (cond, query)
        → 2 * length cond < 160
        → ((by_modes (with_query host) db (mode ∷ modes) pre).0 ≡ tried)
          × Gives (λ rtp. rtp.rtm ≡ mode) (by_modes (with_query host) db (mode ∷ modes) pre).1
  unfolding by_modes
  by_modes-first host db mode modes pre cond query e h =
      let tried = record pre { rating_mode_id = mode } in
      let (rtp, f, m) = uncached-rtm db tried cond query e h in
      rw (by_modes, f) (refl, (rtp, refl, m))

  -- A call of a source trunk group with one row: the numbers' natures are read as the plan's
  -- period, and that period as the billing day and the rounding mode.
  pub rt_data_q_racc-trunk :
      (db : Db) (pre : Call) (safe : Text) (row : TrunkRow)
      → pre.rating_mode_id ≡ Mode.srctg
      → db_sql_escape pre.src_tgroup 160 ≡ some safe
      → answers.trunk_rows db (text "src_tgroup") safe pre.cdr_server_id pre.clg_nadi pre.cld_nadi
        ≡ row ∷ []
      → Gives
          (λ rtp.
            (rtp.bplan.bplan_start_period ≡ row.clg_nadi)
            × (rtp.bplan.bplan_end_period ≡ row.cld_nadi)
            × (rtp.bacc.billing_day ≡ row.start_period)
            × (rtp.bacc.round_mode_id ≡ row.end_period)
            × (rtp.bacc.day_of_payment ≡ row.billing_day))
          (uncached db pre)
  unfolding rt_data_q_racc ◌>>=◌ mode_query read_rows read_columns with_data trunk_columns racc_rows
  rt_data_q_racc-trunk db pre safe row m e r =
      rw (m, e, r) (_, refl, (refl, refl, refl, refl, refl))
