-- ===== src/AdminStore/Held.antt =====
-- The connection of `AdministratorRepository` after each of its operations.
use dcn1003_group.Base.{◌≡◌, Bool, Bytes, codes, arith}
use dcn1003_group.PasswordHash.{Derivation}
use dcn1003_group.Repository.{Administrator}
use dcn1003_group.Sqlite.{Sqlite}
use dcn1003_group.Database.Owned.{is_some}
use dcn1003_group.AdminStore.{
  Store, initialize_schema, insert_or_replace, verify_login, list_usernames, rename, remove,
  sqlite_admins, inject_default, default_account,
}

module _ (q : Sqlite) (d : Derivation) where
  -- Whether the repository holds a connection.
  abbrev pub has_connection : Store q d → Bool
  has_connection r = is_some r.handle

  pub initialize_schema_held :
      (r : Store q d) → has_connection (initialize_schema q d r).1 ≡ has_connection r
  unfolding initialize_schema
  initialize_schema_held r = ground arith

  pub insert_or_replace_held :
      (admin : Administrator) (r : Store q d)
      → has_connection (insert_or_replace q d admin r).1 ≡ has_connection r
  unfolding insert_or_replace
  insert_or_replace_held admin r = ground arith

  pub verify_login_held :
      (username password : Bytes) (r : Store q d)
      → has_connection (verify_login q d username password r).1 ≡ has_connection r
  unfolding verify_login
  verify_login_held username password r = ground arith

  pub list_usernames_held :
      (r : Store q d) → has_connection (list_usernames q d r).1 ≡ has_connection r
  unfolding list_usernames
  list_usernames_held r = ground arith

  pub rename_held :
      (o n : Bytes) (r : Store q d) → has_connection (rename q d o n r).1 ≡ has_connection r
  unfolding rename
  rename_held o n r = ground arith

  pub remove_held :
      (u : Bytes) (r : Store q d) → has_connection (remove q d u r).1 ≡ has_connection r
  unfolding remove
  remove_held u r = ground arith

  pub inject_default_held :
      (r : Store q d) → has_connection (inject_default (sqlite_admins q d) r) ≡ has_connection r
  unfolding inject_default
  inject_default_held r =
      let known = verify_login_held (codes "admin") (codes "admin123") r in
      let written =
        insert_or_replace_held (default_account (sqlite_admins q d))
          (verify_login q d (codes "admin") (codes "admin123") r).1 in
      ground (arith, known, written)
