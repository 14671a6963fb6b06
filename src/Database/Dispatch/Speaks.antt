-- ===== src/Database/Dispatch/Speaks.antt =====
-- The codes of errors that have a message in db_error, and what returns only such codes.
use rate_engine.Base.{
  ℕ, zero, suc, ◌≡◌, ◌⊎◌, inl, inr, refl, Bool, true, false, ◌||◌, List, [], ◌∷◌, Option, none,
  some, ℤ, pos, ltb_ℤ, ◌==ℤ◌, Text, if_ind,
}
use rate_engine.Database.Dispatch.{
  Conn, Driver, DbSql, DbNosql, Engine, sql, nosql, unknown, Db, Ret, db_err, call, on_sql,
  on_nosql, with_conn, only_sql, only_nosql, either, has_prefix,
}
use rate_engine.Database.Dispatch.Calls.{
  closing, db_connect, db_close, db_free_result, query_by, statement, reconnect, again,
  freeing_if_ok,
}

-- `db_error` finds the code in its table.
unfoldable pub is_listed : List ℤ → ℤ → Bool
is_listed [] code = false
is_listed (c ∷ codes) code = (c ==ℤ code) || is_listed codes code

-- A function that is there has the property.
abbrev pub AllSome : {F : Type 0} → (F → Type 0) → Option F → Type 0
AllSome P none = Unit
AllSome P (some f) = P f

-- `P` is what is known of the values that the functions of the engines return.
module _ (P : ℤ → Type 0) where
  -- A value that has the property, 0, or an error with a message.
  abbrev pub IsCode : ℤ → Type 0
  IsCode ret = P ret ⊎ ((ret ≡ pos 0) ⊎ (is_listed db_err ret ≡ true))

  abbrev pub Speaks : {W : Type 0} → Driver W → Type 0
  Speaks {W} f = (w : W) → IsCode (f w).0

  -- The functions of an engine return such values only.
  abbrev pub EngineSpeaks : {W : Type 0} → Engine W → Type 0
  EngineSpeaks (sql none) = Unit
  EngineSpeaks (sql (some api)) =
      AllSome Speaks api.connect
      × AllSome (λ f. (txt : Text) → Speaks (f txt)) api.query
      × AllSome Speaks api.fetch
      × AllSome Speaks api.status
      × AllSome Speaks api.free_result
  EngineSpeaks (nosql none) = Unit
  EngineSpeaks (nosql (some api)) =
      AllSome Speaks api.connect
      × AllSome (λ f. (txt : Text) → Speaks (f txt)) api.command
      × AllSome (λ f. (key value : Text) → Speaks (f key value)) api.set
      × AllSome (λ f. (key : Text) → Speaks (f key)) api.get
      × AllSome Speaks api.status
      × AllSome Speaks api.free_reply
  EngineSpeaks unknown = Unit

  module _ {W : Type 0} (conn : Conn W) where
    call-Speaks :
        {F : Type 0} (o : Option F) (k : F → Driver W)
        → AllSome (λ f. Speaks (k f)) o
        → Speaks (call o k)
    unfolding call db_err is_listed
    call-Speaks none k h w = inr (inr refl)
    call-Speaks (some f) k h w = h w

    pub closing-Speaks : (o : Option (Driver W)) → AllSome Speaks (closing conn o)
    unfolding closing
    closing-Speaks none = tt
    closing-Speaks (some f) = λ w. inr (inl refl)

    pub AllSome-map :
        {F : Type 0} {P Q : F → Type 0} (o : Option F)
        → ((f : F) → P f → Q f)
        → AllSome P o
        → AllSome Q o
    AllSome-map none k h = tt
    AllSome-map (some f) k h = k f h

    with_conn-Speaks :
        (k : Db W → Driver W) (ptr : Option (Db W))
        → AllSome (λ db. Speaks (k db)) ptr
        → Speaks (with_conn k ptr)
    unfolding with_conn db_err is_listed
    with_conn-Speaks k none h w = inr (inr refl)
    with_conn-Speaks k (some db) h w =
        if_ind (λ (r : Ret W). IsCode r.0) db.has_conn _ _ (h w) (inr (inr refl))

    -- What a function makes of the engine of a database, it makes of the database.
    pub on_engine-Speaks :
        (k : Db W → Driver W) (ptr : Option (Db W))
        → ((db : Db W) → EngineSpeaks db.engine → Speaks (k db))
        → AllSome (λ db. EngineSpeaks db.engine) ptr
        → Speaks (with_conn k ptr)
    on_engine-Speaks k ptr f h = with_conn-Speaks k ptr (AllSome-map ptr f h)

    -- What an engine's connect, status, close and free make of a database.
    pub either-Speaks :
        (pick : DbSql W → Option (Driver W)) (pick' : DbNosql W → Option (Driver W)) (e : Engine W)
        → ((api : DbSql W) → EngineSpeaks (sql (some api)) → AllSome Speaks (pick api))
        → ((api : DbNosql W) → EngineSpeaks (nosql (some api)) → AllSome Speaks (pick' api))
        → EngineSpeaks e
        → Speaks (either pick pick' e)
    unfolding either on_sql on_nosql db_err is_listed
    either-Speaks pick pick' (sql none) p q h w = inr (inr refl)
    either-Speaks pick pick' (sql (some api)) p q h w = call-Speaks (pick api) (λ f. f) (p api h) w
    either-Speaks pick pick' (nosql none) p q h w = inr (inr refl)
    either-Speaks pick pick' (nosql (some api)) p q h w =
        call-Speaks (pick' api) (λ f. f) (q api h) w
    either-Speaks pick pick' unknown p q h w = inr (inr refl)

    pub only_sql-Speaks :
        {F : Type 0} (pick : DbSql W → Option F) (k : F → Driver W) (e : Engine W)
        → ((api : DbSql W) → EngineSpeaks (sql (some api)) → AllSome (λ f. Speaks (k f)) (pick api))
        → EngineSpeaks e
        → Speaks (only_sql (on_sql pick k) e)
    unfolding only_sql on_sql db_err is_listed
    only_sql-Speaks pick k (sql none) p h w = inr (inr refl)
    only_sql-Speaks pick k (sql (some api)) p h w = call-Speaks (pick api) k (p api h) w
    only_sql-Speaks pick k (nosql api) p h w = inr (inr refl)
    only_sql-Speaks pick k unknown p h w = inr (inr refl)

    pub only_nosql-Speaks :
        {F : Type 0} (pick : DbNosql W → Option F) (k : F → Driver W) (e : Engine W)
        → ((api : DbNosql W)
            → EngineSpeaks (nosql (some api))
            → AllSome (λ f. Speaks (k f)) (pick api))
        → EngineSpeaks e
        → Speaks (only_nosql (on_nosql pick k) e)
    unfolding only_nosql on_nosql db_err is_listed
    only_nosql-Speaks pick k (nosql none) p h w = inr (inr refl)
    only_nosql-Speaks pick k (nosql (some api)) p h w = call-Speaks (pick api) k (p api h) w
    only_nosql-Speaks pick k (sql api) p h w = inr (inr refl)
    only_nosql-Speaks pick k unknown p h w = inr (inr refl)

    pub freeing_if_ok-IsCode :
        (ptr : Option (Db W)) (r : Ret W) → IsCode r.0 → IsCode (freeing_if_ok conn ptr r).0
    freeing_if_ok-IsCode ptr (ret, w) h = if_ind (λ (r : Ret W). IsCode r.0) (ret ==ℤ pos 0) _ _ h h

    pub query_by-Speaks :
        (ptr : Option (Db W)) (query : Text) (clear : Bool) (e : Engine W)
        → EngineSpeaks e
        → Speaks (query_by conn ptr query clear e)
    unfolding query_by on_sql db_err is_listed
    query_by-Speaks ptr query clear (sql none) h w = inr (inr refl)
    query_by-Speaks ptr query clear (sql (some api)) h w =
        call-Speaks api.query _
          (AllSome-map api.query
            (λ f sf v. if_ind (λ (r : Ret W). IsCode r.0) clear _ _ (sf query v) (sf query v)) h.1)
          w
    query_by-Speaks ptr query clear (nosql api) h w =
        if_ind (λ (r : Ret W). IsCode r.0) clear _ _ (inr (inr refl)) (inr (inr refl))
    query_by-Speaks ptr query clear unknown h w =
        if_ind (λ (r : Ret W). IsCode r.0) clear _ _ (inr (inr refl)) (inr (inr refl))

    pub statement-Speaks :
        (word : Text) (after : Ret W → Ret W) (ptr : Option (Db W)) (query : Text)
        → ((r : Ret W) → IsCode r.0 → IsCode (after r).0)
        → AllSome (λ db. EngineSpeaks db.engine) ptr
        → Speaks (statement conn word after ptr query)
    unfolding statement db_err is_listed
    statement-Speaks word after ptr query keeps h = with_conn-Speaks _ ptr (
        AllSome-map ptr
          (λ db e.
            only_sql-Speaks (λ a. a.query) _ db.engine
              (λ api s.
                AllSome-map api.query
                  (λ f sf v.
                    if_ind (λ (r : Ret W). IsCode r.0) (has_prefix query word) _ _
                      (keeps (f query v) (sf query v)) (inr (inr refl)))
                  s.1)
              e)
          h)

    reconnect-Speaks :
        (ptr : Option (Db W)) (k : ℕ → Driver W) (n : ℕ)
        → ((m : ℕ) → Speaks (k m))
        → Speaks (reconnect conn ptr k n)
    unfolding reconnect db_err is_listed
    reconnect-Speaks ptr k zero h w = inr (inr refl)
    reconnect-Speaks ptr k (suc n) h w =
        if_ind (λ (r : Ret W). IsCode r.0)
          (ltb_ℤ (db_connect conn ptr (db_close conn ptr (db_free_result conn ptr w).1).1).0
            (pos 0))
          _ _ (reconnect-Speaks ptr k n h _) (h (suc n) _)

    pub again-Speaks :
        (ptr : Option (Db W)) (f : Text → Driver W) (str : Text) (c n : ℕ)
        → Speaks (f str)
        → Speaks (again conn ptr f str c n)
    unfolding again db_err is_listed
    again-Speaks ptr f str zero n h w = inr (inr refl)
    again-Speaks ptr f str (suc c) n h w =
        if_ind (λ (r : Ret W). IsCode r.0) (ltb_ℤ (f str w).0 (pos 0)) _ _
          (reconnect-Speaks ptr (again conn ptr f str c) n (λ m. again-Speaks ptr f str c m h)
            (f str w).1)
          (h w)
