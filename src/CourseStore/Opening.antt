-- ===== src/CourseStore/Opening.antt =====
-- The constructors, `open` and `close` of `CourseRepository` in driver/src/db_courses_handle.cpp.
use dcn1003_group.Base.{Bool, Bytes, codes}
use dcn1003_group.Sqlite.{Sqlite}
use dcn1003_group.Database
use dcn1003_group.Database.{Files, Database, new_database}

module _ {q : Sqlite} (f : Files q) where
  unfoldable pub open_path : Bytes → Database q.Db → f.Disk → Bool × Database q.Db × f.Disk
  open_path db_path r disk = Database.open_path f db_path r disk

  unfoldable pub close : Database q.Db → f.Disk → Database q.Db × f.Disk
  close r disk = Database.close f r disk

  -- The constructor with a path: whether the database could be opened is not looked at.
  unfoldable pub construct_at : Bytes → f.Disk → Database q.Db × f.Disk
  unfolding open_path
  construct_at db_path disk =
      let (ok, r, disk') = open_path db_path (new_database q.Db) disk in (r, disk')

  unfoldable pub construct : f.Disk → Database q.Db × f.Disk
  unfolding construct_at
  construct disk = construct_at (codes "data/DCN.db") disk
