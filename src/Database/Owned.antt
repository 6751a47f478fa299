-- ===== src/Database/Owned.antt =====
-- Which connections are open after a database was opened, closed or moved.
use dcn1003_group.Base.{
  ℕ, suc, ◌≡◌, refl, ap, sym, ◌∙◌, ◌⊎◌, inl, inr, Bool, true, false, Option, none, some, Bytes,
  arith,
}
use dcn1003_group.Sqlite.{Sqlite, c_str}
use dcn1003_group.Database.{
  Files, Database, set_error, set_handle, close, close_at, gave_up, busy_timeout_ms, keys_sql,
  wal_sql, keys_set, wal_set, timeout_set, opened_at, directory_made, directory_at, needs_directory,
  open_path, move_construct, move_assign,
}

-- One more if there is one.
abbrev pub counting {ℓ} : {A : Type ℓ} → Option A → ℕ → ℕ
counting none n = n
counting (some a) n = suc n

abbrev counting_given {ℓ κ} : {A : Type ℓ} {B : Type κ} → A ⊎ B → ℕ → ℕ
counting_given (inl a) n = suc n
counting_given (inr b) n = n

abbrev pub is_some {ℓ} : {A : Type ℓ} → Option A → Bool
is_some none = false
is_some (some a) = true

pub counting_same {ℓ κ} :
    {A : Type ℓ} {B : Type κ} (o : Option A) (o' : Option B) (n : ℕ)
    → is_some o ≡ is_some o'
    → counting o n ≡ counting o' n
counting_same none none n h = refl
counting_same none (some b) n h = absurd (ground arith)
counting_same (some a) none n h = absurd (ground arith)
counting_same (some a) (some b) n h = refl

pub counting_swap {ℓ κ} :
    {A : Type ℓ} {B : Type κ} (o : Option A) (o' : Option B) (n : ℕ)
    → counting o (counting o' n) ≡ counting o' (counting o n)
counting_swap none none n = refl
counting_swap none (some b) n = refl
counting_swap (some a) none n = refl
counting_swap (some a) (some b) n = refl

-- What SQLite says of the number of open connections: `sqlite3_open_v2` makes one exactly if it gives
-- one, `sqlite3_close` ends one; no directory is a connection.
pub record Connections {q : Sqlite} (f : Files q) : Type 0 where
  pub live : f.Disk → ℕ
  pub makes :
      (path : Bytes) (disk : f.Disk)
      → live (f.open_v2 path disk).1 ≡ counting_given (f.open_v2 path disk).0 (live disk)
  pub ends : (db : q.Db) (disk : f.Disk) (n : ℕ) → live disk ≡ suc n → live (f.close db disk) ≡ n
  pub directories :
      (path : Bytes) (disk : f.Disk) → live (f.create_directories path disk).1 ≡ live disk

module _ {q : Sqlite} (f : Files q) (laws : Connections f) where
  -- The connections are those of others, `n` of them, and the one that the database holds.
  abbrev pub Counted : ℕ → Database q.Db → f.Disk → Type 0
  Counted n r disk = laws.live disk ≡ counting r.handle n

  -- The call was successful exactly if the database holds a connection, and no other one was left open.
  abbrev pub Settled : ℕ → Bool × Database q.Db × f.Disk → Type 0
  Settled n (ok, r, disk) = (is_some r.handle ≡ ok) × Counted n r disk

  close_at-Counted :
      (n : ℕ) (handle : Option q.Db) (r : Database q.Db) (disk : f.Disk)
      → r.handle ≡ handle
      → Counted n r disk
      → ((close_at f handle r disk).0.handle ≡ none) × (laws.live (close_at f handle r disk).1 ≡ n)
  close_at-Counted n none r disk same h = (same, h ∙ ap (λ (o : Option q.Db). counting o n) same)
  close_at-Counted n (some db) r disk same h = (
    refl,
    laws.ends (f.wal_checkpoint db) disk n (h ∙ ap (λ (o : Option q.Db). counting o n) same),
  )

  -- `Database::close` ends the connection that the database held, and no other.
  pub close-Counted :
      (n : ℕ) (r : Database q.Db) (disk : f.Disk)
      → Counted n r disk
      → ((close f r disk).0.handle ≡ none) × (laws.live (close f r disk).1 ≡ n)
  unfolding close
  close-Counted n r disk h = close_at-Counted n r.handle r disk refl h

  gave_up-Settled :
      (n : ℕ) (message : Bytes) (r : Database q.Db) (disk : f.Disk)
      → Counted n r disk
      → Settled n (gave_up f message r disk)
  unfolding close
  gave_up-Settled n message r disk h =
      let (shut, count) = close_at-Counted n r.handle (set_error message r) disk refl h in
      (ap is_some shut, count ∙ ap (λ (o : Option q.Db). counting o n) (sym shut))

  keys_set-Settled :
      (n : ℕ) (answer : Bool × Option Bytes × q.Db) (r : Database q.Db) (disk : f.Disk)
      → laws.live disk ≡ suc n
      → Settled n (keys_set f answer r disk)
  keys_set-Settled n (true, e, db) r disk h = (refl, h)
  keys_set-Settled n (false, e, db) r disk h = gave_up-Settled n _ (set_handle db r) disk h

  wal_set-Settled :
      (n : ℕ) (answer : Bool × Option Bytes × q.Db) (r : Database q.Db) (disk : f.Disk)
      → laws.live disk ≡ suc n
      → Settled n (wal_set f answer r disk)
  wal_set-Settled n (true, e, db) r disk h = keys_set-Settled n (q.exec keys_sql db) r disk h
  wal_set-Settled n (false, e, db) r disk h = gave_up-Settled n _ (set_handle db r) disk h

  timeout_set-Settled :
      (n : ℕ) (answer : Bool × q.Db) (r : Database q.Db) (disk : f.Disk)
      → laws.live disk ≡ suc n
      → Settled n (timeout_set f answer r disk)
  timeout_set-Settled n (true, db) r disk h = wal_set-Settled n (q.exec wal_sql db) r disk h
  timeout_set-Settled n (false, db) r disk h = gave_up-Settled n _ (set_handle db r) disk h

  opened_at-Settled :
      (n : ℕ) (answer : ((Bool × q.Db) ⊎ Bytes) × f.Disk) (r : Database q.Db)
      → laws.live answer.1 ≡ counting_given answer.0 n
      → Settled n (opened_at f answer r)
  unfolding opened_at
  opened_at-Settled n (inl (true, db), disk) r h =
      timeout_set-Settled n (f.busy_timeout busy_timeout_ms db) r disk h
  opened_at-Settled n (inl (false, db), disk) r h =
      gave_up-Settled n (q.errmsg db) (set_handle db r) disk h
  opened_at-Settled n (inr errstr, disk) r h =
      gave_up-Settled n errstr (record r { handle = none }) disk h

  tried-Settled :
      (n : ℕ) (path : Bytes) (r : Database q.Db) (disk : f.Disk)
      → laws.live disk ≡ n
      → Settled n (opened_at f (f.open_v2 path disk) r)
  tried-Settled n path r disk h =
      opened_at-Settled n (f.open_v2 path disk) r
        (laws.makes path disk ∙ ap (λ k. counting_given (f.open_v2 path disk).0 k) h)

  directory_made-Settled :
      (n : ℕ) (db_path parent : Bytes) (answer : Option Bytes × f.Disk) (r : Database q.Db)
      → r.handle ≡ none
      → laws.live answer.1 ≡ n
      → Settled n (directory_made f db_path parent answer r)
  directory_made-Settled n db_path parent (some message, disk) r shut h =
      (ap is_some shut, h ∙ ap (λ (o : Option q.Db). counting o n) (sym shut))
  directory_made-Settled n db_path parent (none, disk) r shut h =
      tried-Settled n (c_str db_path) r disk h

  directory_at-Settled :
      (n : ℕ) (needed : Bool) (db_path : Bytes) (closed : Database q.Db × f.Disk)
      → closed.0.handle ≡ none
      → laws.live closed.1 ≡ n
      → Settled n (directory_at f needed db_path closed)
  directory_at-Settled n true db_path (r, disk) shut h =
      directory_made-Settled n db_path (f.parent_path db_path) _ r shut
        (laws.directories (f.parent_path db_path) disk ∙ h)
  directory_at-Settled n false db_path (r, disk) shut h = tried-Settled n (c_str db_path) r disk h

  -- Whatever SQLite and the file system answer, `Database::open` closes the connection that the database
  -- held, returns true exactly if the database holds a new one, and leaves no other connection open.
  pub open_path-Settled :
      (n : ℕ) (db_path : Bytes) (r : Database q.Db) (disk : f.Disk)
      → Counted n r disk
      → Settled n (open_path f db_path r disk)
  unfolding open_path
  open_path-Settled n db_path r disk h =
      let (shut, count) = close_at-Counted n r.handle r disk refl h in
      directory_at-Settled n (needs_directory f db_path (close f r disk).1) db_path (close f r disk)
        shut count

  -- After a move into an open database its own connection is closed and the other's is in its place.
  move_assign-Counted :
      (n : ℕ) (left : Bytes) (other r : Database q.Db) (disk : f.Disk)
      → laws.live disk ≡ counting r.handle (counting other.handle n)
      → Counted n (move_assign f left other r disk).0.0 (move_assign f left other r disk).1
  unfolding close move_assign move_construct
  move_assign-Counted n left other r disk h =
      (close_at-Counted (counting other.handle n) r.handle r disk refl h).1
