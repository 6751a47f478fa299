-- ===== src/AdminStore/Logins.antt =====
-- Who can log in, as a function of the table `administrators`, and what SQLite promises of the statements
-- that change it.
pub mod Renamed
pub mod Removed
pub mod Upgraded
mod Tests
use dcn1003_group.Base.{
  ℕ, ◌≡◌, ◌≢◌, refl, sym, ap, ◌∙◌, Bool, true, false, not, Option, none, some, List, [], ◌∷◌, ◌==◌,
  if◌then◌else◌, arith, Bytes, bytes_eq, is_empty,
}
use dcn1003_group.PasswordHash.{Derivation, default_iterations, is_encoded, make, verify}
use dcn1003_group.Database.Owned.{is_some}
use dcn1003_group.Sqlite.{Sqlite, c_str, c_str_of}
use dcn1003_group.AdminStore.{
  select_password, select_exists, update_name_sql, update_password_sql, delete_sql, insert_sql,
  Store, fetch_password, first_text, verify_stored, verify_at, verify_login, exists_at,
}
use dcn1003_group.AdminStore.Accounts.{Table, one_row}

-- What SQLite promises of the other statements on the table, by its documentation: a statement that is not
-- done changes no row; one that is done changes the rows of its name only; and a name is a key.
pub record Statements {q : Sqlite} (table : Table q) : Type 0 where
  pub finds :
      (u : Bytes) (db : q.Db)
      → is_empty (q.rows select_exists (u ∷ []) db) ≡ not (is_some (table.password_of db u))
  pub undone :
      (sql : Bytes) (binds : List Bytes) (n : ℕ) (db db' : q.Db) (v : Bytes)
      → q.step sql binds db ≡ (false, n, db')
      → table.password_of db' v ≡ table.password_of db v
  pub renames :
      (old_name new_name v : Bytes) (n : ℕ) (db db' : q.Db)
      → q.step update_name_sql (new_name ∷ old_name ∷ []) db ≡ (true, n, db')
      → is_some (table.password_of db old_name) ≡ true
      → table.password_of db' v ≡ (
          if bytes_eq new_name v
          then table.password_of db old_name
          else if bytes_eq old_name v
          then none
          else table.password_of db v)
  pub deletes :
      (u v : Bytes) (n : ℕ) (db db' : q.Db)
      → q.step delete_sql (u ∷ []) db ≡ (true, n, db')
      → ((n == 0) ≡ not (is_some (table.password_of db u)))
        × (table.password_of db' v ≡ (if bytes_eq u v then none else table.password_of db v))
  pub updates :
      (u text v : Bytes) (n : ℕ) (db db' : q.Db)
      → q.step update_password_sql (text ∷ u ∷ []) db ≡ (true, n, db')
      → is_some (table.password_of db u) ≡ true
      → table.password_of db' v ≡ (if bytes_eq u v then some text else table.password_of db v)

module _ {q : Sqlite} (d : Derivation) (table : Table q) where
  abbrev pub passwords_at : Option q.Db → Bytes → Option Bytes
  passwords_at none v = none
  passwords_at (some db) v = table.password_of db v

  -- The table as the repository sees it: nothing when it is not open.
  abbrev pub passwords : Store q d → Bytes → Option Bytes
  passwords r v = passwords_at r.handle v

  -- Whether a stored text accepts a password.
  abbrev pub accepts : Bytes → Option Bytes → Bool
  accepts password none = false
  accepts password (some stored) =
      if is_encoded stored then verify d password stored else bytes_eq stored password

  verify_stored_lem :
      (db : q.Db) (username password : Bytes) (stored : Option Bytes) (r : Store q d)
      → (verify_stored q d db username password stored r).0 ≡ accepts password stored
  verify_stored_lem db username password none r = refl
  verify_stored_lem db username password (some stored) r = ground arith

  first_text-one_row : (o : Option Bytes) → first_text q d (one_row o) ≡ c_str_of o
  first_text-one_row none = refl
  first_text-one_row (some text) = refl

  pub exists_lem :
      (laws : Statements table) (o : Option q.Db) (u : Bytes)
      → exists_at q d o u ≡ true
      → is_some (passwords_at o (c_str u)) ≡ true
  exists_lem laws none u h = absurd (ground arith)
  exists_lem laws (some db) u h = ground (arith, laws.finds (c_str u) db)

  pub exists_same :
      (o : Option q.Db) (u v : Bytes) → c_str u ≡ c_str v → exists_at q d o u ≡ exists_at q d o v
  exists_same none u v e = refl
  exists_same (some db) u v e = rw e refl

  module _ (ready : (db : q.Db) → (q.prepare select_password db).0 ≡ true) where
    pub fetch_password_lem :
        (db : q.Db) (username : Bytes)
        → fetch_password q d db username ≡ c_str_of (table.password_of db (c_str username))
    unfolding fetch_password
    fetch_password_lem db username =
        rw (ready db, table.selects (c_str username) db)
          (first_text-one_row (table.password_of db (c_str username)))

    verify_at_lem :
        (o : Option q.Db) (username password : Bytes) (r : Store q d)
        → (verify_at q d o username password r).0
          ≡ accepts password (c_str_of (passwords_at o (c_str username)))
    verify_at_lem none username password r = refl
    verify_at_lem (some db) username password r =
        verify_stored_lem db username password (fetch_password q d db username) r
        ∙ ap (accepts password) (fetch_password_lem db username)

    -- `verify_login` answers by the stored text of the name in the table.
    pub verify_login_lem :
        (username password : Bytes) (r : Store q d)
        → (verify_login q d username password r).0
          ≡ accepts password (c_str_of (passwords r (c_str username)))
    unfolding verify_login
    verify_login_lem username password r = verify_at_lem r.handle username password r

    -- Whether the name logs in with the password.
    abbrev pub login : Bytes → Bytes → Store q d → Bool
    login username password r = (verify_login q d username password r).0

    pub login_same :
        (u v password : Bytes) (r r' : Store q d)
        → passwords r (c_str u) ≡ passwords r' (c_str v)
        → login u password r ≡ login v password r'
    login_same u v password r r' e =
        verify_login_lem u password r
        ∙ ap (λ o. accepts password (c_str_of o)) e
        ∙ sym (verify_login_lem v password r')

    pub login_none :
        (u password : Bytes) (r : Store q d)
        → passwords r (c_str u) ≡ none
        → login u password r ≡ false
    login_none u password r e =
        verify_login_lem u password r ∙ ap (λ o. accepts password (c_str_of o)) e
