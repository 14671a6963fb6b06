-- ===== src/Database/Dispatch/Tests.antt =====
-- Runs of the functions of db.c, with an engine that counts the commands in its connection.
use rate_engine.Base.{ℕ, suc, ◌≡◌, refl, ◌≤◌, true, none, some, arith, pos, negsuc, text, ◌+◌, ℤ}
use rate_engine.Database.Dispatch.{
  Conn, Driver, only_nosql, with_conn, either, on_nosql, call, nosql, Db,
}
use rate_engine.Database.Dispatch.Calls.{
  again, reconnect, closing, db_connect, db_status, db_close, db_free_result, db_command,
}
use rate_engine.Database.Dispatch.Retries.{IsOwnCode, IsQuiet, db_command-sent}

abbrev conn : Conn ℕ
conn = record { has_res = λ w. true; drop_result = λ w. w }

abbrev fine : Driver ℕ
fine w = (pos 0, w)

-- An engine with a command that always fails, and without a function for `get`.
abbrev failing : Db ℕ
failing = record {
  engine = nosql (
      some (record {
        connect = some fine;
        command = some (λ txt w. (negsuc 11, suc w));
        set = some (λ key value w. (pos 0, suc w));
        get = none;
        status = some fine;
        close = some fine;
        free_reply = some fine;
      }));
  has_conn = true;
}

-- The command is sent five times, and the error is DB_ERR_CONN_NOOK.
command_test : db_command conn (some failing) (text "GET x") 0 ≡ (negsuc 2, 5)
unfolding db_command with_conn only_nosql on_nosql call again reconnect db_connect either db_status
    db_close closing db_free_result
command_test = refl

-- The error of the command is its own, -12.
abbrev Own : ℤ → Type 0
Own ret = ret ≡ negsuc 11

failing_connect-IsQuiet : IsQuiet conn (λ w. w) (db_connect conn (some failing))
unfolding db_connect with_conn either on_nosql call
failing_connect-IsQuiet w = refl

failing_status-IsQuiet : IsQuiet conn (λ w. w) (db_status conn (some failing))
unfolding db_status with_conn either on_nosql call
failing_status-IsQuiet w = refl

failing_close-IsQuiet : IsQuiet conn (λ w. w) (db_close conn (some failing))
unfolding db_close with_conn either on_nosql call closing
failing_close-IsQuiet w = refl

failing_free_result-IsQuiet : IsQuiet conn (λ w. w) (db_free_result conn (some failing))
unfolding db_free_result with_conn either on_nosql call
failing_free_result-IsQuiet w = refl

db_command-sent_example :
    IsOwnCode (db_command conn (some failing) (text "GET x") 3).0
    × (db_command conn (some failing) (text "GET x") 3).1 ≤ 5 + 3
db_command-sent_example =
    db_command-sent conn (λ w. w) (some failing) (text "GET x") 3 failing_connect-IsQuiet
      failing_status-IsQuiet failing_close-IsQuiet failing_free_result-IsQuiet (λ w. omega arith)
