-- ===== src/AdminStore/Opening.antt =====
-- The constructors, `open` and `close` of `AdministratorRepository` in
-- driver/src/db_administrators_handle.cpp.
use dcn1003_group.Base.{Bool, Bytes, codes, [], none}
use dcn1003_group.PasswordHash.{Derivation}
use dcn1003_group.Sqlite.{Sqlite}
use dcn1003_group.Database
use dcn1003_group.Database.{Files, Database, new_database}
use dcn1003_group.AdminStore.{Store}

module _ {q : Sqlite} (f : Files q) (d : Derivation) where
  -- The member `db_`.
  abbrev pub database_of : Store q d → Database q.Db
  database_of r = record { handle = r.handle; last_error = r.last_error }

  abbrev with_database : Store q d → Database q.Db → Store q d
  with_database r b = record r { handle = b.handle; last_error = b.last_error }

  unfoldable pub open_path : Bytes → Store q d → f.Disk → Bool × Store q d × f.Disk
  open_path db_path r disk =
      let (ok, b, disk') = Database.open_path f db_path (database_of r) disk in
      (ok, with_database r b, disk')

  unfoldable pub close : Store q d → f.Disk → Store q d × f.Disk
  close r disk =
      let (b, disk') = Database.close f (database_of r) disk in (with_database r b, disk')

  abbrev new_store : d.Rng → Store q d
  new_store rng = record { handle = none; last_error = []; rng = rng }

  -- The constructor with a path: whether the database could be opened is not looked at.
  unfoldable pub construct_at : Bytes → d.Rng → f.Disk → Store q d × f.Disk
  unfolding open_path
  construct_at db_path rng disk =
      let (ok, r, disk') = open_path db_path (new_store rng) disk in (r, disk')

  unfoldable pub construct : d.Rng → f.Disk → Store q d × f.Disk
  unfolding construct_at
  construct rng disk = construct_at (codes "data/DCN.db") rng disk
