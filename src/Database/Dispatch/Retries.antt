-- ===== src/Database/Dispatch/Retries.antt =====
-- The commands that db_command sends when the engine fails.
use rate_engine.Base.{
  ℕ, zero, suc, ◌≡◌, ◌+◌, ◌⊎◌, inl, inr, Bool, true, false, List, [], ◌∷◌, Option, none, some,
  arith, refl, ◌≤◌, if◌then◌else◌, ℤ, pos, ltb_ℤ, Text, if_ind,
}
use rate_engine.Database.Dispatch.Speaks.{AllSome, is_listed}
use rate_engine.Database.Dispatch.{
  Conn, Driver, Engine, sql, nosql, unknown, Db, Ret, call, on_nosql, with_conn, only_nosql,
  db_err_dbp_nul, db_err_conn_nul, db_err_conn_nook, db_err_nosql_nul, db_err_type_unk,
  db_err_func_nul,
}
use rate_engine.Database.Dispatch.Calls.{
  db_connect, db_status, db_close, db_free_result, reconnect, again, db_command,
}

unfoldable pub own_codes : List ℤ
own_codes =
    db_err_dbp_nul ∷ db_err_conn_nul ∷ db_err_conn_nook ∷ db_err_nosql_nul ∷ db_err_type_unk
    ∷ db_err_func_nul ∷ []

-- A value of success, or one of these errors of db.h.
abbrev pub IsOwnCode : ℤ → Type 0
IsOwnCode ret = (ltb_ℤ ret (pos 0) ≡ false) ⊎ (is_listed own_codes ret ≡ true)

-- The command of an engine, where it has one.
abbrev pub CommandOf : {W : Type 0} → ((Text → Driver W) → Type 0) → Engine W → Type 0
CommandOf F (sql api) = Unit
CommandOf F (nosql none) = Unit
CommandOf F (nosql (some api)) = AllSome F api.command
CommandOf F unknown = Unit

if_false :
    {A : Type 0} (P : A → Type 0) (b : Bool) (x y : A)
    → P x
    → (b ≡ false → P y)
    → P (if b then x else y)
if_false P true x y p q = p
if_false P false x y p q = q refl

module _ {W : Type 0} (conn : Conn W) (sent : W → ℕ) where
  -- A call that sends no command.
  abbrev pub IsQuiet : Driver W → Type 0
  IsQuiet f = (w : W) → sent (f w).1 ≡ sent w

  -- A call sends at most `n` commands.
  abbrev pub SendsUpTo : ℕ → Driver W → Type 0
  SendsUpTo n f = (w : W) → sent (f w).1 ≤ n + sent w

  reconnect-SendsUpTo :
      (ptr : Option (Db W)) (k : ℕ → Driver W) (c n : ℕ)
      → IsQuiet (db_connect conn ptr)
      → IsQuiet (db_status conn ptr)
      → IsQuiet (db_close conn ptr)
      → IsQuiet (db_free_result conn ptr)
      → ((m : ℕ) → SendsUpTo c (k m))
      → SendsUpTo c (reconnect conn ptr k n)
  unfolding reconnect
  reconnect-SendsUpTo ptr k c zero q1 q2 q3 q4 h w = omega arith
  reconnect-SendsUpTo ptr k c (suc n) q1 q2 q3 q4 h w =
      let w0 = (db_close conn ptr (db_free_result conn ptr w).1).1 in
      let w1 = (db_connect conn ptr w0).1 in
      let a = q4 w in
      let b = q3 (db_free_result conn ptr w).1 in
      let d = q1 w0 in
      let failed = reconnect-SendsUpTo ptr k c n q1 q2 q3 q4 h w1 in
      let e = q2 w1 in
      let back = h (suc n) (db_status conn ptr w1).1 in
      if_ind (λ (r : Ret W). sent r.1 ≤ c + sent w) (ltb_ℤ (db_connect conn ptr w0).0 (pos 0)) _ _
        (omega arith) (omega arith)

  again-SendsUpTo :
      (ptr : Option (Db W)) (f : Text → Driver W) (str : Text) (c n : ℕ)
      → IsQuiet (db_connect conn ptr)
      → IsQuiet (db_status conn ptr)
      → IsQuiet (db_close conn ptr)
      → IsQuiet (db_free_result conn ptr)
      → SendsUpTo 1 (f str)
      → SendsUpTo c (again conn ptr f str c n)
  unfolding again
  again-SendsUpTo ptr f str zero n q1 q2 q3 q4 h w = omega arith
  again-SendsUpTo ptr f str (suc c) n q1 q2 q3 q4 h w =
      let a = h w in
      let retried =
        reconnect-SendsUpTo ptr (again conn ptr f str c) c n q1 q2 q3 q4
          (λ m. again-SendsUpTo ptr f str c m q1 q2 q3 q4 h) (f str w).1 in
      if_ind (λ (r : Ret W). sent r.1 ≤ suc c + sent w) (ltb_ℤ (f str w).0 (pos 0)) _ _
        (omega arith) (omega arith)

  reconnect-IsOwnCode :
      (ptr : Option (Db W)) (k : ℕ → Driver W) (n : ℕ)
      → ((m : ℕ) (w : W) → IsOwnCode (k m w).0)
      → (w : W) → IsOwnCode (reconnect conn ptr k n w).0
  unfolding reconnect own_codes is_listed
  reconnect-IsOwnCode ptr k zero h w = inr refl
  reconnect-IsOwnCode ptr k (suc n) h w =
      if_ind (λ (r : Ret W). IsOwnCode r.0)
        (ltb_ℤ (db_connect conn ptr (db_close conn ptr (db_free_result conn ptr w).1).1).0 (pos 0))
        _ _ (reconnect-IsOwnCode ptr k n h _) (h (suc n) _)

  again-IsOwnCode :
      (ptr : Option (Db W)) (f : Text → Driver W) (str : Text) (c n : ℕ) (w : W)
      → IsOwnCode (again conn ptr f str c n w).0
  unfolding again own_codes is_listed
  again-IsOwnCode ptr f str zero n w = inr refl
  again-IsOwnCode ptr f str (suc c) n w =
      if_false (λ (r : Ret W). IsOwnCode r.0) (ltb_ℤ (f str w).0 (pos 0)) _ _
        (reconnect-IsOwnCode ptr (again conn ptr f str c) n (again-IsOwnCode ptr f str c)
          (f str w).1)
        inl

  -- The codes of a call that reaches no command, and the call that does.
  call_lem :
      (P : Ret W → Type 0) (F : (Text → Driver W) → Type 0) (o : Option (Text → Driver W))
      (k : (Text → Driver W) → Driver W) (w : W)
      → AllSome F o
      → ((ret : ℤ) → is_listed own_codes ret ≡ true → P (ret, w))
      → ((f : Text → Driver W) → F f → P (k f w))
      → P (call o k w)
  unfolding call own_codes is_listed
  call_lem P F none k w h p q = p db_err_func_nul refl
  call_lem P F (some f) k w h p q = q f h

  only_nosql_lem :
      (P : Ret W → Type 0) (F : (Text → Driver W) → Type 0) (e : Engine W)
      (k : (Text → Driver W) → Driver W) (w : W)
      → CommandOf F e
      → ((ret : ℤ) → is_listed own_codes ret ≡ true → P (ret, w))
      → ((f : Text → Driver W) → F f → P (k f w))
      → P (only_nosql (on_nosql (λ a. a.command) k) e w)
  unfolding only_nosql on_nosql own_codes is_listed
  only_nosql_lem P F (sql api) k w h p q = p db_err_type_unk refl
  only_nosql_lem P F (nosql none) k w h p q = p db_err_nosql_nul refl
  only_nosql_lem P F (nosql (some api)) k w h p q = call_lem P F api.command k w h p q
  only_nosql_lem P F unknown k w h p q = p db_err_type_unk refl

  db_command_lem :
      (P : Ret W → Type 0) (F : (Text → Driver W) → Type 0) (ptr : Option (Db W)) (str : Text)
      (w : W)
      → AllSome (λ db. CommandOf F db.engine) ptr
      → ((ret : ℤ) → is_listed own_codes ret ≡ true → P (ret, w))
      → ((f : Text → Driver W) → F f → P (again conn ptr f str 5 5 w))
      → P (db_command conn ptr str w)
  unfolding db_command with_conn own_codes is_listed
  db_command_lem P F none str w h p q = p db_err_dbp_nul refl
  db_command_lem P F (some db) str w h p q =
      if_ind P db.has_conn _ _ (only_nosql_lem P F db.engine _ w h p q) (p db_err_conn_nul refl)

  any_command : (e : Engine W) → CommandOf (λ f. Unit) e
  any_command (sql api) = tt
  any_command (nosql none) = tt
  any_command (nosql (some api)) = any api.command
    where
      any : (o : Option (Text → Driver W)) → AllSome (λ f. Unit) o
      any none = tt
      any (some f) = tt
  any_command unknown = tt

  any_database : (ptr : Option (Db W)) → AllSome (λ db. CommandOf (λ f. Unit) db.engine) ptr
  any_database none = tt
  any_database (some db) = any_command db.engine

  -- However the functions of the engine behave, an error that db_command returns is one of the
  -- layer's own codes; and when each call of the command counts as at most one in `sent`, and the
  -- functions that the layer calls to connect again count as none, db_command sends at most five
  -- commands.
  pub db_command-sent :
      (ptr : Option (Db W)) (str : Text) (w : W)
      → IsQuiet (db_connect conn ptr)
      → IsQuiet (db_status conn ptr)
      → IsQuiet (db_close conn ptr)
      → IsQuiet (db_free_result conn ptr)
      → AllSome (λ db. CommandOf (λ f. SendsUpTo 1 (f str)) db.engine) ptr
      → IsOwnCode (db_command conn ptr str w).0 × sent (db_command conn ptr str w).1 ≤ 5 + sent w
  db_command-sent ptr str w q1 q2 q3 q4 h = (
    db_command_lem (λ r. IsOwnCode r.0) (λ f. Unit) ptr str w (any_database ptr) (λ ret. inr)
        (λ f u. again-IsOwnCode ptr f str 5 5 w),
    db_command_lem (λ r. sent r.1 ≤ 5 + sent w) (λ f. SendsUpTo 1 (f str)) ptr str w h
        (λ ret l. omega arith) (λ f hf. again-SendsUpTo ptr f str 5 5 q1 q2 q3 q4 hf w),
  )
