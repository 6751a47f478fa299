-- ===== src/Database.antt =====
-- driver/src/database.cpp: the class `Database`, a SQLite connection that is opened, moved and closed.
pub mod Owned
pub mod Opened
mod Tests
use dcn1003_group.Base.{
  ℕ, ◌⊎◌, inl, inr, Bool, true, false, not, Option, none, some, [], ◌++◌, ◌&&◌, Bytes, codes,
  bytes_eq, is_empty, length, take,
}
use dcn1003_group.Sqlite.{Sqlite, c_str, message_or}

-- What the class takes from the file system and from SQLite's calls that make and end a connection.
pub record Files (q : Sqlite) : Type 1 where
  pub Disk : Type 0
  -- `std::filesystem::path(p).parent_path()`
  pub parent_path : Bytes → Bytes
  pub path_exists : Bytes → Disk → Bool
  -- The message of the error, if there was one.
  pub create_directories : Bytes → Disk → Option Bytes × Disk
  -- `sqlite3_open_v2`: either whether it returned SQLITE_OK, and the connection, which a failed call
  -- gives too; or no connection, for want of memory, and `sqlite3_errstr` of what it returned.
  pub open_v2 : Bytes → Disk → ((Bool × q.Db) ⊎ Bytes) × Disk
  pub busy_timeout : ℕ → q.Db → Bool × q.Db
  pub wal_checkpoint : q.Db → q.Db
  pub close : q.Db → Disk → Disk

abbrev busy_timeout_ms : ℕ
busy_timeout_ms = 5000

-- `p.rfind(prefix, 0) == 0`
abbrev starts_with : Bytes → Bytes → Bool
starts_with prefix p = bytes_eq (take (length prefix) p) prefix

pub record Database (Db : Type 0) : Type 0 where
  pub handle : Option Db
  pub last_error : Bytes

-- `sqlite3* db_ = nullptr;` and an empty error.
abbrev pub new_database : (Db : Type 0) → Database Db
new_database Db = record { handle = none; last_error = [] }

abbrev pub wal_sql : Bytes
wal_sql = codes "PRAGMA journal_mode=WAL;"

abbrev pub keys_sql : Bytes
keys_sql = codes "PRAGMA foreign_keys = ON;"

-- What `enable_wal_mode` writes when it fails.
abbrev wal_error : Option Bytes → Bytes
wal_error e = message_or e (codes "Failed to enable WAL mode.")

module _ {Db : Type 0} where
  abbrev pub set_error : Bytes → Database Db → Database Db
  set_error message r = record r { last_error = message }

  abbrev pub set_handle : Db → Database Db → Database Db
  set_handle db r = record r { handle = some db }

  -- The database that took the connection, and the one that was moved from: a string moved from
  -- is `left`.
  unfoldable pub move_construct : Bytes → Database Db → Database Db × Database Db
  move_construct left other = (other, record { handle = none; last_error = left })

module _ {q : Sqlite} (f : Files q) where
  abbrev close_at : Option q.Db → Database q.Db → f.Disk → Database q.Db × f.Disk
  close_at none r disk = (r, disk)
  close_at (some db) r disk = (record r { handle = none }, f.close (f.wal_checkpoint db) disk)

  unfoldable pub close : Database q.Db → f.Disk → Database q.Db × f.Disk
  close r disk = close_at r.handle r disk

  unfoldable pub destroy : Database q.Db → f.Disk → f.Disk
  unfolding close
  destroy r disk = (close r disk).1

  -- `operator=` of two different databases; the string moved from is `left`.
  unfoldable pub move_assign :
      Bytes → Database q.Db → Database q.Db → f.Disk → (Database q.Db × Database q.Db) × f.Disk
  unfolding close
  move_assign left other r disk = (move_construct left other, (close r disk).1)

  -- `set_error(message); close(); return false;`
  abbrev gave_up : Bytes → Database q.Db → f.Disk → Bool × Database q.Db × f.Disk
  unfolding close
  gave_up message r disk = let (r', disk') = close (set_error message r) disk in (false, r', disk')

  abbrev keys_set :
      Bool × Option Bytes × q.Db → Database q.Db → f.Disk → Bool × Database q.Db × f.Disk
  keys_set (true, e, db) r disk = (true, set_handle db r, disk)
  keys_set (false, e, db) r disk =
      gave_up (message_or e (codes "Failed to enable foreign keys.")) (set_handle db r) disk

  abbrev wal_set :
      Bool × Option Bytes × q.Db → Database q.Db → f.Disk → Bool × Database q.Db × f.Disk
  wal_set (true, e, db) r disk = keys_set (q.exec keys_sql db) r disk
  wal_set (false, e, db) r disk = gave_up (wal_error e) (set_handle db r) disk

  abbrev timeout_set : Bool × q.Db → Database q.Db → f.Disk → Bool × Database q.Db × f.Disk
  timeout_set (true, db) r disk = wal_set (q.exec wal_sql db) r disk
  timeout_set (false, db) r disk = gave_up (q.errmsg db) (set_handle db r) disk

  abbrev opened_at :
      ((Bool × q.Db) ⊎ Bytes) × f.Disk → Database q.Db → Bool × Database q.Db × f.Disk
  unfolding close
  opened_at (inl (true, db), disk) r = timeout_set (f.busy_timeout busy_timeout_ms db) r disk
  opened_at (inl (false, db), disk) r = gave_up (q.errmsg db) (set_handle db r) disk
  opened_at (inr errstr, disk) r = gave_up errstr (record r { handle = none }) disk

  abbrev directory_made :
      Bytes → Bytes → Option Bytes × f.Disk → Database q.Db → Bool × Database q.Db × f.Disk
  directory_made db_path parent (some message, disk) r = (
    false,
    set_error (codes "Failed to create database directory '" ++ parent ++ codes "': " ++ message) r,
    disk,
  )
  directory_made db_path parent (none, disk) r = opened_at (f.open_v2 (c_str db_path) disk) r

  -- Whether the directory of the path is looked at: not for a path in memory or a URI.
  abbrev on_disk : Bytes → Bool
  on_disk db_path =
      not (is_empty db_path)
      && not (bytes_eq db_path (codes ":memory:"))
      && not (starts_with (codes "file:") db_path)

  abbrev needs_directory : Bytes → f.Disk → Bool
  needs_directory db_path disk =
      on_disk db_path
      && not (is_empty (f.parent_path db_path))
      && not (f.path_exists (f.parent_path db_path) disk)

  abbrev directory_at : Bool → Bytes → Database q.Db × f.Disk → Bool × Database q.Db × f.Disk
  directory_at true db_path (r, disk) =
      directory_made db_path (f.parent_path db_path)
        (f.create_directories (f.parent_path db_path) disk) r
  directory_at false db_path (r, disk) = opened_at (f.open_v2 (c_str db_path) disk) r

  unfoldable pub open_path : Bytes → Database q.Db → f.Disk → Bool × Database q.Db × f.Disk
  unfolding close
  open_path db_path r disk =
      let (r', disk') = close r disk in
      directory_at (needs_directory db_path disk') db_path (r', disk')
