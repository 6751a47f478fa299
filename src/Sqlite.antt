-- ===== src/Sqlite.antt =====
-- What the program takes from SQLite, a library whose source is not its own.
use dcn1003_group.Base.Int.{ℤ}
use dcn1003_group.Base.{ℕ, zero, suc, Bool, Option, none, some, List, [], ◌∷◌, Bytes, get_or}

-- The calls on a connection, with the state of the connection and its database behind them.
pub record Sqlite : Type 1 where
  pub Db : Type 0
  -- `sqlite3_exec`: whether it returned SQLITE_OK, and the text of the error, if it gave one.
  pub exec : Bytes → Db → Bool × Option Bytes × Db
  -- `sqlite3_prepare_v2`: whether it returned SQLITE_OK.
  pub prepare : Bytes → Db → Bool × Db
  -- `sqlite3_bind_text` of a text at a position, from 1 on: whether it returned SQLITE_OK.
  pub bind : Bytes → ℕ → Bytes → Db → Bool × Db
  -- The rows that `sqlite3_step` gives for a SELECT with its bound texts, each by the
  -- `sqlite3_column_text` of its columns; then whether the last step returned SQLITE_DONE.
  pub rows : Bytes → List Bytes → Db → List (List (Option Bytes))
  pub ends : Bytes → List Bytes → Db → Bool × Db
  -- `sqlite3_column_int` of the first column, if the first step of a SELECT gives a row.
  pub first_int : Bytes → Db → Option ℤ
  -- The step of a writing statement: whether it returned SQLITE_DONE, and `sqlite3_changes` after it.
  pub step : Bytes → List Bytes → Db → Bool × ℕ × Db
  pub errmsg : Db → Bytes

-- `s.c_str()`, read up to its first zero byte, as SQLite reads a text of length -1.
abbrev pub c_str : Bytes → Bytes
c_str [] = []
c_str (zero ∷ s) = []
c_str (suc c ∷ s) = suc c ∷ c_str s

abbrev pub c_str_of : Option Bytes → Option Bytes
c_str_of none = none
c_str_of (some text) = some (c_str text)

-- `sqlite3_column_text(stmt, i)` as a C string.
abbrev pub column : List (Option Bytes) → ℕ → Option Bytes
column row i = c_str_of (get_or row i none)

-- `err_msg == nullptr ? text : err_msg`
abbrev pub message_or : Option Bytes → Bytes → Bytes
message_or none text = text
message_or (some message) text = c_str message
