-- ===== src/Database/Opened.antt =====
-- Which connection a database holds after it was opened.
use dcn1003_group.Base.{
  ℕ, ◌≡◌, refl, sym, ap, ◌⊎◌, inl, inr, Bool, true, false, Option, none, some, Bytes,
}
use dcn1003_group.Sqlite.{Sqlite, c_str}
use dcn1003_group.Database.{
  Files, Database, set_error, set_handle, close, close_at, gave_up, busy_timeout_ms, keys_sql,
  wal_sql, keys_set, wal_set, timeout_set, opened_at, directory_made, directory_at, needs_directory,
  open_path,
}
use dcn1003_group.Database.Owned.{Connections, Counted, Settled, open_path-Settled}

module _ {q : Sqlite} (f : Files q) where
  -- The disk without the connection that was held, whose log was merged into the file.
  abbrev pub without : Option q.Db → f.Disk → f.Disk
  without none disk = disk
  without (some db) disk = f.close (f.wal_checkpoint db) disk

  -- The connection is the one that `sqlite3_open_v2` gave for the path in this call, behind the end of the
  -- connection that was held and, where it was missing, the making of the directory; it has the timeout,
  -- the journal and the foreign keys, each set without error.
  pub record Fresh (db_path : Bytes) (held : Option q.Db) (disk : f.Disk) (db : q.Db)
      (disk' : f.Disk) : Type 0 where
    pub before : f.Disk
    pub given : q.Db
    pub timed : q.Db
    pub logged : q.Db
    pub wal_message : Option Bytes
    pub keys_message : Option Bytes
    pub closed :
        (before ≡ without held disk)
        ⊎ (f.create_directories (f.parent_path db_path) (without held disk) ≡ (none, before))
    pub opens : f.open_v2 (c_str db_path) before ≡ (inl (true, given), disk')
    pub times : f.busy_timeout busy_timeout_ms given ≡ (true, timed)
    pub logs : q.exec wal_sql timed ≡ (true, wal_message, logged)
    pub keys : q.exec keys_sql logged ≡ (true, keys_message, db)

  -- After true a connection with the property is held, and after false none.
  abbrev pub Holds : (q.Db → f.Disk → Type 0) → Bool × Database q.Db × f.Disk → Type 0
  Holds P (false, r, disk) = r.handle ≡ none
  Holds P (true, r, disk) = (db : q.Db) × (r.handle ≡ some db) × P db disk

  close_at-without :
      (handle : Option q.Db) (r : Database q.Db) (disk : f.Disk)
      → r.handle ≡ handle
      → ((close_at f handle r disk).0.handle ≡ none)
        × ((close_at f handle r disk).1 ≡ without handle disk)
  close_at-without none r disk same = (same, refl)
  close_at-without (some db) r disk same = (refl, refl)

  module _ (P : q.Db → f.Disk → Type 0) where
    gave_up-Holds :
        (message : Bytes) (r : Database q.Db) (disk : f.Disk) → Holds P (gave_up f message r disk)
    unfolding close
    gave_up-Holds message r disk = (close_at-without r.handle (set_error message r) disk refl).0

    keys_set-Holds :
        (answer : Bool × Option Bytes × q.Db) (r : Database q.Db) (disk : f.Disk)
        → ((e : Option Bytes) (db : q.Db) → answer ≡ (true, e, db) → P db disk)
        → Holds P (keys_set f answer r disk)
    keys_set-Holds (true, e, db) r disk h = (db, refl, h e db refl)
    keys_set-Holds (false, e, db) r disk h = gave_up-Holds _ (set_handle db r) disk

    wal_set-Holds :
        (answer : Bool × Option Bytes × q.Db) (r : Database q.Db) (disk : f.Disk)
        → ((e e' : Option Bytes) (db db' : q.Db)
            → answer ≡ (true, e, db)
            → q.exec keys_sql db ≡ (true, e', db')
            → P db' disk)
        → Holds P (wal_set f answer r disk)
    wal_set-Holds (true, e, db) r disk h =
        keys_set-Holds (q.exec keys_sql db) r disk (λ e' db' k. h e e' db db' refl k)
    wal_set-Holds (false, e, db) r disk h = gave_up-Holds _ (set_handle db r) disk

    timeout_set-Holds :
        (answer : Bool × q.Db) (r : Database q.Db) (disk : f.Disk)
        → ((e e' : Option Bytes) (db0 db db' : q.Db)
            → answer ≡ (true, db0)
            → q.exec wal_sql db0 ≡ (true, e, db)
            → q.exec keys_sql db ≡ (true, e', db')
            → P db' disk)
        → Holds P (timeout_set f answer r disk)
    timeout_set-Holds (true, db0) r disk h =
        wal_set-Holds (q.exec wal_sql db0) r disk (λ e e' db db' k k'. h e e' db0 db db' refl k k')
    timeout_set-Holds (false, db0) r disk h = gave_up-Holds (q.errmsg db0) (set_handle db0 r) disk

  module _ (db_path : Bytes) (held : Option q.Db) (disk : f.Disk) where
    opened_at-Holds :
        (before : f.Disk) (answer : ((Bool × q.Db) ⊎ Bytes) × f.Disk) (r : Database q.Db)
        → ((before ≡ without held disk)
            ⊎ (f.create_directories (f.parent_path db_path) (without held disk) ≡ (none, before)))
        → f.open_v2 (c_str db_path) before ≡ answer
        → Holds (Fresh db_path held disk) (opened_at f answer r)
    unfolding opened_at
    opened_at-Holds before (inl (true, given), disk') r closed opens =
        timeout_set-Holds (Fresh db_path held disk) (f.busy_timeout busy_timeout_ms given) r disk'
          (λ e e' timed logged db times logs keys. record {
            before = before;
            given = given;
            timed = timed;
            logged = logged;
            wal_message = e;
            keys_message = e';
            closed = closed;
            opens = opens;
            times = times;
            logs = logs;
            keys = keys;
          })
    opened_at-Holds before (inl (false, db), disk') r closed opens =
        gave_up-Holds (Fresh db_path held disk) (q.errmsg db) (set_handle db r) disk'
    opened_at-Holds before (inr errstr, disk') r closed opens =
        gave_up-Holds (Fresh db_path held disk) errstr (record r { handle = none }) disk'

    directory_made-Holds :
        (answer : Option Bytes × f.Disk) (r : Database q.Db)
        → r.handle ≡ none
        → f.create_directories (f.parent_path db_path) (without held disk) ≡ answer
        → Holds
            (Fresh db_path held disk)
            (directory_made f db_path (f.parent_path db_path) answer r)
    directory_made-Holds (some message, disk') r shut made = shut
    directory_made-Holds (none, disk') r shut made =
        opened_at-Holds disk' (f.open_v2 (c_str db_path) disk') r (inr made) refl

    directory_at-Holds :
        (needed : Bool) (r : Database q.Db) (disk' : f.Disk)
        → r.handle ≡ none
        → disk' ≡ without held disk
        → Holds (Fresh db_path held disk) (directory_at f needed db_path (r, disk'))
    directory_at-Holds true r disk' shut ended =
        directory_made-Holds (f.create_directories (f.parent_path db_path) disk') r shut
          (ap (f.create_directories (f.parent_path db_path)) (sym ended))
    directory_at-Holds false r disk' shut ended =
        opened_at-Holds disk' (f.open_v2 (c_str db_path) disk') r (inl ended) refl

  open_path-Holds :
      (db_path : Bytes) (r : Database q.Db) (disk : f.Disk)
      → Holds (Fresh db_path r.handle disk) (open_path f db_path r disk)
  unfolding open_path close
  open_path-Holds db_path r disk =
      let (shut, ended) = close_at-without r.handle r disk refl in
      directory_at-Holds db_path r.handle disk (needs_directory f db_path (close f r disk).1)
        (close f r disk).0 (close f r disk).1 shut ended

  -- Whatever SQLite and the file system answer, `Database::open` first ends the connection that the
  -- database held. If it returns true, the database holds the connection that `sqlite3_open_v2` gave for
  -- the path in this call, with the timeout, the journal and the foreign keys set without error; if it
  -- returns false, it holds none. No other connection is left open. SQLite counts its connections as
  -- documented.
  pub open_path-Fresh :
      (laws : Connections f) (n : ℕ) (db_path : Bytes) (r : Database q.Db) (disk : f.Disk)
      → Counted f laws n r disk
      → Holds (Fresh db_path r.handle disk) (open_path f db_path r disk)
        × Settled f laws n (open_path f db_path r disk)
  open_path-Fresh laws n db_path r disk counted =
      (open_path-Holds db_path r disk, open_path-Settled f laws n db_path r disk counted)
