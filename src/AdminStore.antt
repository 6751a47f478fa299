-- ===== src/AdminStore.antt =====
-- driver/src/db_administrators_handle.cpp: `AdministratorRepository` over SQLite, and the default
-- account of programs/Server/src/server_main.cpp.
pub mod Accounts
pub mod Opening
pub mod Logins
pub mod Held
mod Tests
use dcn1003_group.Base.{
  ℕ, zero, suc, Bool, true, false, not, Option, none, some, List, [], ◌∷◌, ◌++◌, ◌==◌,
  if◌then◌else◌, Bytes, codes, bytes_eq, is_empty,
}
use dcn1003_group.Base.Int.{ℤ, pos}
use dcn1003_group.PasswordHash.{Derivation, default_iterations, is_encoded, make, verify}
use dcn1003_group.Sqlite.{Sqlite, c_str, column, message_or}
use dcn1003_group.Repository.{Administrator, AdministratorRepository}

abbrev pub select_password : Bytes
select_password = codes "SELECT password FROM administrators WHERE username = ?;"

abbrev pub update_password_sql : Bytes
update_password_sql = codes "UPDATE administrators SET password = ? WHERE username = ?;"

abbrev pub insert_sql : Bytes
insert_sql =
    codes
      "INSERT INTO administrators(username, password) VALUES(?, ?) ON CONFLICT(username) DO UPDATE SET password=excluded.password;"

abbrev pub select_names : Bytes
select_names = codes "SELECT username FROM administrators ORDER BY username;"

abbrev pub select_exists : Bytes
select_exists = codes "SELECT 1 FROM administrators WHERE username = ? LIMIT 1;"

abbrev pub update_name_sql : Bytes
update_name_sql = codes "UPDATE administrators SET username = ? WHERE username = ?;"

abbrev pub delete_sql : Bytes
delete_sql = codes "DELETE FROM administrators WHERE username = ?;"

abbrev pub schema_sql : Bytes
schema_sql =
    codes "CREATE TABLE IF NOT EXISTS administrators ("
    ++ codes "username TEXT NOT NULL PRIMARY KEY,"
    ++ codes "password TEXT NOT NULL"
    ++ codes ");"
    ++ codes "CREATE INDEX IF NOT EXISTS idx_admin_username ON administrators(username);"

module _ (q : Sqlite) (d : Derivation) where
  -- The repository's `Database`: its handle, null when it is not open, and its last error; and the
  -- random generator.
  pub record Store : Type 0 where
    pub handle : Option q.Db
    pub last_error : Bytes
    pub rng : d.Rng

  abbrev not_open : Store → Store
  not_open r = record r { last_error = codes "Database is not open." }

  -- `set_error(sqlite3_errmsg(db))`
  abbrev sql_error : q.Db → Store → Store
  sql_error db r = record r { handle = some db; last_error = q.errmsg db }

  abbrev schema_done : Bool × Option Bytes × q.Db → Store → Bool × Store
  schema_done (true, e, db) r = (true, record r { handle = some db })
  schema_done (false, e, db) r = (
    false,
    record r {
      handle = some db;
      last_error = message_or e (codes "Failed to initialize administrator schema.");
    },
  )

  abbrev schema_at : Option q.Db → Store → Bool × Store
  schema_at none r = (false, not_open r)
  schema_at (some db) r = schema_done (q.exec schema_sql db) r

  unfoldable pub initialize_schema : Store → Bool × Store
  initialize_schema r = schema_at r.handle r

  abbrev first_text : List (List (Option Bytes)) → Option Bytes
  first_text [] = none
  first_text (row ∷ rows) = column row 0

  unfoldable pub fetch_password : q.Db → Bytes → Option Bytes
  fetch_password db username =
      if (q.prepare select_password db).0
      then first_text (q.rows select_password (c_str username ∷ []) db)
      else none

  -- The result of `write_password`, which its caller ignores, and the database.
  unfoldable pub write_password : q.Db → Bytes → Bytes → Bool × q.Db
  write_password db username encoded =
      let (ok, db') = q.prepare update_password_sql db in
      let (done, changes, db'') =
        q.step update_password_sql (c_str encoded ∷ c_str username ∷ []) db' in
      if ok then (done, db'') else (false, db')

  abbrev stored_text : Bytes → d.Rng → Bytes × d.Rng
  stored_text password rng =
      if is_encoded password then (password, rng) else make d password default_iterations rng

  -- The INSERT of a text that is not empty.
  abbrev insert_text : q.Db → Bytes → Bytes → Store → Bool × Store
  insert_text db username stored r =
      let (ok, db') = q.prepare insert_sql db in
      let (done, changes, db'') = q.step insert_sql (c_str username ∷ c_str stored ∷ []) db' in
      if not ok
      then (false, sql_error db' r)
      else if not done
      then (false, sql_error db'' r)
      else (true, record r { handle = some db'' })

  abbrev insert_stored : q.Db → Bytes → Bytes × d.Rng → Store → Bool × Store
  insert_stored db username (stored, rng) r =
      if is_empty stored
      then (false, record r { last_error = codes "Failed to hash password."; rng = rng })
      else insert_text db username stored (record r { rng = rng })

  abbrev insert_at : Option q.Db → Administrator → Store → Bool × Store
  insert_at none admin r = (false, not_open r)
  insert_at (some db) admin r = insert_stored db admin.username (stored_text admin.password r.rng) r

  unfoldable pub insert_or_replace : Administrator → Store → Bool × Store
  insert_or_replace admin r = insert_at r.handle admin r

  -- A plain password that matched is written back encoded, unless the hashing failed.
  abbrev upgraded : q.Db → Bytes → Bytes × d.Rng → Store → Bool × Store
  upgraded db username (text, rng) r =
      if is_empty text
      then (true, record r { rng = rng })
      else (true, record r { handle = some (write_password db username text).1; rng = rng })

  abbrev verify_stored : q.Db → Bytes → Bytes → Option Bytes → Store → Bool × Store
  verify_stored db username password none r = (false, r)
  verify_stored db username password (some stored) r =
      if is_encoded stored
      then (verify d password stored, r)
      else if bytes_eq stored password
      then upgraded db username (make d password default_iterations r.rng) r
      else (false, r)

  abbrev verify_at : Option q.Db → Bytes → Bytes → Store → Bool × Store
  verify_at none username password r = (false, not_open r)
  verify_at (some db) username password r =
      verify_stored db username password (fetch_password db username) r

  unfoldable pub verify_login : Bytes → Bytes → Store → Bool × Store
  unfolding write_password
  verify_login username password r = verify_at r.handle username password r

  -- A NULL in the column is left out.
  abbrev push_text : Option Bytes → List Bytes → List Bytes
  push_text none names = names
  push_text (some text) names = text ∷ names

  abbrev texts : List (List (Option Bytes)) → List Bytes
  texts [] = []
  texts (row ∷ rows) = push_text (column row 0) (texts rows)

  abbrev list_at : Option q.Db → Store → List Bytes × Store
  list_at none r = ([], not_open r)
  list_at (some db) r =
      let (ok, db') = q.prepare select_names db in
      if not ok then ([], sql_error db' r) else (texts (q.rows select_names [] db'), r)

  unfoldable pub list_usernames : Store → List Bytes × Store
  list_usernames r = list_at r.handle r

  abbrev exists_at : Option q.Db → Bytes → Bool
  exists_at none username = false
  exists_at (some db) username =
      if (q.prepare select_exists db).0
      then not (is_empty (q.rows select_exists (c_str username ∷ []) db))
      else false

  unfoldable pub exists : Bytes → Store → Bool
  exists username r = exists_at r.handle username

  abbrev rename_row : q.Db → Bytes → Bytes → Store → Bool × Store
  rename_row db old_username new_username r =
      let (ok, db') = q.prepare update_name_sql db in
      let (done, changes, db'') =
        q.step update_name_sql (c_str new_username ∷ c_str old_username ∷ []) db' in
      if not ok then (false, sql_error db' r) else (done, record r { handle = some db'' })

  abbrev rename_at : Option q.Db → Bytes → Bytes → Store → Bool × Store
  rename_at none old_username new_username r = (false, not_open r)
  rename_at (some db) old_username new_username r =
      if bytes_eq old_username new_username
      then (true, r)
      else if not (exists old_username r)
      then (false, record r { last_error = codes "Old username not found." })
      else if exists new_username r
      then (false, record r { last_error = codes "New username already taken." })
      else rename_row db old_username new_username r

  unfoldable pub rename : Bytes → Bytes → Store → Bool × Store
  rename old_username new_username r = rename_at r.handle old_username new_username r

  abbrev remove_at : Option q.Db → Bytes → Store → Bool × Store
  remove_at none username r = (false, not_open r)
  remove_at (some db) username r =
      let (ok, db') = q.prepare delete_sql db in
      let (done, changes, db'') = q.step delete_sql (c_str username ∷ []) db' in
      if not ok
      then (false, sql_error db' r)
      else if not done
      then (false, record r { handle = some db'' })
      else if changes == 0
      then (false, record r { handle = some db''; last_error = codes "Username not found." })
      else (true, record r { handle = some db'' })

  unfoldable pub remove : Bytes → Store → Bool × Store
  remove username r = remove_at r.handle username r

  -- The repository as the handlers use it.
  abbrev pub sqlite_admins : AdministratorRepository
  sqlite_admins = record {
    Repo = Store;
    insert_or_replace = insert_or_replace;
    verify_login = verify_login;
    list_usernames = list_usernames;
    rename = rename;
    remove = remove;
    exists = exists;
    last_error = λ r. r.last_error;
  }

module _ (a : AdministratorRepository) where
  abbrev default_account : Administrator
  default_account = record { username = codes "admin"; password = codes "admin123" }

  -- What `main` does before it listens: the result of the insertion is ignored.
  unfoldable pub inject_default : a.Repo → a.Repo
  inject_default r =
      let (known, r') = a.verify_login (codes "admin") (codes "admin123") r in
      if not known then (a.insert_or_replace default_account r').1 else r'
