-- ===== src/CdrMediator/Remote/Covered.antt =====
-- The times that the rounds of the reader cover.
use rate_engine.Base.{
  ℕ, ◌≤◌, ◌<◌, ◌≡◌, refl, ◌∙◌, Bool, true, false, ◌&&◌, ◌||◌, List, [], ◌∷◌, some, none, arith, leb,
  Gives, if◌then◌else◌, Text, ◌⊎◌, inl, inr, Bool-cases, Option-cases,
}
use rate_engine.CdrMediator.Store.{Value, cdr_add_in_db}
use rate_engine.CdrMediator.Remote.{
  Sched, StorageProfile, Databases, sched_ts_of, cdr_storage_sched_set_ts, cdr_storage_sched_get,
  started, insert_row, insert_rows, cdr_storage_get_remote_cdrs, reschedule, ts_at, sched_rows,
  cdr_storage_reader, remote_cdr, cdr_storage_sql_query_parser,
}

-- A time after the start and the last reading is not before what the next one starts from.
sched_ts_of-le :
    (call_maxsec_limit chk t : ℕ) (sched : Sched)
    → sched.start ≤ t
    → sched.last ≤ t
    → sched_ts_of call_maxsec_limit chk sched ≤ t
unfolding sched_ts_of
sched_ts_of-le call_maxsec_limit chk t sched s l = ground (arith, s, l)

set_ts-le :
    (call_maxsec_limit sched_ts chk t : ℕ) (row : Sched)
    → row.start ≡ sched_ts
    → sched_ts ≤ t
    → row.last < t
    → cdr_storage_sched_set_ts call_maxsec_limit sched_ts chk (row ∷ []) ≤ t
unfolding cdr_storage_sched_set_ts cdr_storage_sched_get
set_ts-le call_maxsec_limit sched_ts chk t row e s l =
    sched_ts_of-le call_maxsec_limit chk t (started sched_ts row) (ground (arith, e, s))
      (ground (arith, e, s, l))

set_ts-first :
    (call_maxsec_limit sched_ts chk : ℕ)
    → cdr_storage_sched_set_ts call_maxsec_limit sched_ts chk [] ≡ sched_ts
unfolding cdr_storage_sched_set_ts cdr_storage_sched_get sched_ts_of
set_ts-first call_maxsec_limit sched_ts chk = ground arith

-- The schedules of one server in the database, when their select has a result and their insert and
-- update succeed: the other statements do not change them.
pub record IsSchedTable {W : Type 0} (dbs : Databases W) (server : ℕ) : Type 0 where
  pub added :
      (w : W) (row : Sched)
      → dbs.scheds w server ≡ some []
      → dbs.scheds (dbs.add_sched w server row) server ≡ some (row ∷ [])
  pub updated :
      (w : W) (row : Sched) (chk ts : ℕ)
      → dbs.scheds w server ≡ some (row ∷ [])
      → dbs.scheds (dbs.set_sched w server chk ts) server
        ≡ some (record { start = row.start; last = chk; ts = ts } ∷ [])
  pub inserted :
      (w : W) (statement : List (Text × Value))
      → dbs.scheds (dbs.insert w statement).0 server ≡ dbs.scheds w server
  pub connected : (w : W) → dbs.scheds (dbs.connect w).0 server ≡ dbs.scheds w server
  pub closed : (w : W) → dbs.scheds (dbs.close w) server ≡ dbs.scheds w server

-- A time is in one of the windows.
unfoldable pub covers : ℕ → List (ℕ × ℕ) → Bool
covers t [] = false
covers t ((ts, chk) ∷ windows) = (leb ts t && leb t chk) || covers t windows

module _ {W : Type 0} (dbs : Databases W) (profile : StorageProfile) (show_ts : ℕ → Text)
    (call_maxsec_limit : ℕ) where
  -- The select of a round has a result.
  unfoldable pub is_read : ℕ → W → Bool
  is_read chk w =
      let ts = ts_at dbs profile show_ts call_maxsec_limit chk w in
      elim (dbs.select (dbs.connect w).0 (cdr_storage_sql_query_parser show_ts profile ts)) [
        | none ↦ false
        | some rows ↦ true
      ]

  is_read-lem :
      (chk : ℕ) (w : W) (rows : List (List Text))
      → dbs.select (dbs.connect w).0 (
          cdr_storage_sql_query_parser show_ts profile
            (ts_at dbs profile show_ts call_maxsec_limit chk w))
        ≡ some rows
      → is_read chk w ≡ true
  unfolding is_read
  is_read-lem chk w rows e = rw (is_read, e) refl

  pub sched_rows-some :
      (w : W) (rows : List Sched)
      → dbs.scheds w profile.cdr_server_id ≡ some rows
      → sched_rows dbs profile w ≡ rows
  unfolding sched_rows
  sched_rows-some w rows e = rw (sched_rows, e) refl

  -- Rounds of the reader, with the windows from the start of a reading to its time, of those that
  -- connected and had a result.
  unfoldable pub rounds : List ℕ → W × List (ℕ × ℕ) → W × List (ℕ × ℕ)
  rounds [] s = s
  rounds (chk ∷ chks) (w, windows) =
      let (w1, ok) = cdr_storage_reader dbs profile show_ts call_maxsec_limit chk w in
      rounds chks (
        w1,
        if ok && is_read chk w
            then (ts_at dbs profile show_ts call_maxsec_limit chk w, chk) ∷ windows
            else windows,
      )

  -- A remote database that connects answers the select.
  abbrev pub Answers : Type 0
  Answers =
      (w : W) (query : Text)
      → (dbs.connect w).1 ≡ true
      → Gives (λ (rows : List (List Text)). Unit {0}) (dbs.select (dbs.connect w).0 query)

  -- Either nothing is scheduled, or every time from the start to the last reading is covered.
  abbrev pub IsCovered : W × List (ℕ × ℕ) → Type 0
  IsCovered s =
      (dbs.scheds s.0 profile.cdr_server_id ≡ some [])
      ⊎ ((row : Sched) × (dbs.scheds s.0 profile.cdr_server_id ≡ some (row ∷ []))
          × (row.start ≡ profile.sched_ts)
          × ((t : ℕ) → profile.sched_ts ≤ t → t ≤ row.last → covers t s.1 ≡ true))

  insert_row-scheds :
      (server : ℕ) (row : List Text) (s : W × ℕ)
      → IsSchedTable dbs server
      → dbs.scheds (insert_row dbs profile row s).0 server ≡ dbs.scheds s.0 server
  unfolding insert_row
  insert_row-scheds server row (w, p) table =
      elim (Option-cases (cdr_add_in_db profile.filters (remote_cdr profile row))) [
        | inl e ↦ rw (insert_row, e) refl
        | inr (st, e) ↦ rw (insert_row, e) (table.inserted w st)
      ]

  insert_rows-scheds :
      (server : ℕ) (rows : List (List Text)) (s : W × ℕ)
      → IsSchedTable dbs server
      → dbs.scheds (insert_rows dbs profile rows s).0 server ≡ dbs.scheds s.0 server
  unfolding insert_rows
  insert_rows-scheds server [] s table = refl
  insert_rows-scheds server (row ∷ rows) s table =
      insert_rows-scheds server rows (insert_row dbs profile row s) table
      ∙ insert_row-scheds server row s table

  get_remote_cdrs-scheds :
      (server : ℕ) (query : Text) (w : W)
      → IsSchedTable dbs server
      → dbs.scheds (cdr_storage_get_remote_cdrs dbs profile query w).0 server ≡ dbs.scheds w server
  unfolding cdr_storage_get_remote_cdrs
  get_remote_cdrs-scheds server query w table = elim (Option-cases (dbs.select w query)) [
    | inl e ↦ rw (cdr_storage_get_remote_cdrs, e) refl
    | inr (rows, e) ↦
        rw (cdr_storage_get_remote_cdrs, e) (insert_rows-scheds server rows (w, 0) table)
  ]

  -- The schedules when the remote database has been read and closed.
  read-scheds :
      (server : ℕ) (query : Text) (w : W)
      → IsSchedTable dbs server
      → dbs.scheds
          (dbs.close (cdr_storage_get_remote_cdrs dbs profile query (dbs.connect w).0).0)
          server
        ≡ dbs.scheds w server
  read-scheds server query w table =
      table.closed _
      ∙ get_remote_cdrs-scheds server query (dbs.connect w).0 table
      ∙ table.connected w

  reschedule-IsCovered :
      (chk : ℕ) (w w1 : W) (windows : List (ℕ × ℕ))
      → IsSchedTable dbs profile.cdr_server_id
      → dbs.scheds w1 profile.cdr_server_id ≡ dbs.scheds w profile.cdr_server_id
      → IsCovered (w, windows)
      → let ts = ts_at dbs profile show_ts call_maxsec_limit chk w in
        IsCovered (reschedule dbs profile ts chk (sched_rows dbs profile w) w1, (ts, chk) ∷ windows)
  unfolding reschedule covers
  reschedule-IsCovered chk w w1 windows table e (inl none_yet) =
      let first = set_ts-first call_maxsec_limit profile.sched_ts chk in
      inr (
        rw (sched_rows-some w [] none_yet)
          (_, table.added w1 _ (e ∙ none_yet), refl, λ t s l. ground (arith, first, s, l)))
  reschedule-IsCovered chk w w1 windows table e (inr (row, some_row, start, covered)) = inr (
      rw (sched_rows-some w (row ∷ []) some_row) (
        _,
        table.updated w1 row chk _ (e ∙ some_row),
        start,
        λ t s l.
            let before = covered t s in
            let after = set_ts-le call_maxsec_limit profile.sched_ts chk t row start s in
            ground (arith, before, after, s, l),
      ))

  round-IsCovered :
      (chk : ℕ) (w : W) (windows : List (ℕ × ℕ))
      → IsSchedTable dbs profile.cdr_server_id
      → Answers
      → IsCovered (w, windows)
      → IsCovered (rounds (chk ∷ []) (w, windows))
  unfolding rounds cdr_storage_reader
  round-IsCovered chk w windows table answers c =
      let ts = ts_at dbs profile show_ts call_maxsec_limit chk w in
      let query = cdr_storage_sql_query_parser show_ts profile ts in
      let server = profile.cdr_server_id in
      elim (Bool-cases (dbs.connect w).1) [
        | inl e ↦
            let (rows, read, u) = answers w query e in
            rw (e, is_read-lem chk w rows read)
              (reschedule-IsCovered chk w
                (dbs.close (cdr_storage_get_remote_cdrs dbs profile query (dbs.connect w).0).0)
                windows table (read-scheds server query w table) c)
        | inr e ↦ rw (e, table.connected w) c
      ]

  rounds-IsCovered :
      (chks : List ℕ) (s : W × List (ℕ × ℕ))
      → IsSchedTable dbs profile.cdr_server_id
      → Answers
      → IsCovered s
      → IsCovered (rounds chks s)
  unfolding rounds
  rounds-IsCovered [] s table answers c = c
  rounds-IsCovered (chk ∷ chks) (w, windows) table answers c =
      rounds-IsCovered chks (rounds (chk ∷ []) (w, windows)) table answers
        (round-IsCovered chk w windows table answers c)

  -- From a database without a schedule of the server, whose statements on schedules succeed, and
  -- with a remote database that answers the select whenever it connects, at whatever times the
  -- rounds are, and whichever of them connect: a schedule that is there at the end starts when the
  -- profile says, and every time from that start to its last reading is in the window of a round
  -- whose select had a result, from the time in its query to its own.
  pub rounds-covers :
      (chks : List ℕ) (w : W)
      → IsSchedTable dbs profile.cdr_server_id
      → Answers
      → dbs.scheds w profile.cdr_server_id ≡ some []
      → IsCovered (rounds chks (w, []))
  rounds-covers chks w table answers none_yet =
      rounds-IsCovered chks (w, []) table answers (inl none_yet)
