-- ===== src/CourseStore.antt =====
-- driver/src/db_courses_handle.cpp: `CourseRepository` over SQLite.
pub mod Statements
pub mod Queries
pub mod Transactions
pub mod Stored
pub mod Opening
mod Tests
use dcn1003_group.Base.{ℕ, Bool, true, false, Option, none, some, List, [], ◌∷◌, map, Bytes, codes}
use dcn1003_group.Wire.{Course}
use dcn1003_group.Sqlite.{Sqlite, c_str, message_or}
use dcn1003_group.Database.{Database, set_error, set_handle}
use dcn1003_group.CourseStore.Statements.{
  schema_sql, begin_sql, commit_sql, rollback_sql, insert_course_sql, insert_schedule_sql,
  update_course_sql, update_schedule_sql, delete_course_sql, delete_schedule_sql,
}

-- The texts that are bound, read up to a zero byte.
abbrev pub course_binds : Course → List Bytes
course_binds c = map c_str (c.code ∷ c.title ∷ c.section ∷ c.instructor ∷ [])

abbrev pub schedule_binds : Course → List Bytes
schedule_binds c =
    map c_str (c.code ∷ c.section ∷ c.day ∷ c.duration ∷ c.semester ∷ c.classroom ∷ [])

abbrev pub course_changes : Course → List Bytes
course_changes c = map c_str (c.title ∷ c.instructor ∷ c.code ∷ c.section ∷ [])

abbrev pub schedule_changes : Course → List Bytes
schedule_changes c =
    map c_str (c.classroom ∷ c.code ∷ c.section ∷ c.day ∷ c.duration ∷ c.semester ∷ [])

module _ (q : Sqlite) where
  -- What the continuation of a call is given: the connection and the object.
  abbrev Next : Type 0
  Next = q.Db → Database q.Db → Bool × Database q.Db

  abbrev not_open : Database q.Db → Database q.Db
  not_open r = set_error (codes "Database is not open.") r

  -- `set_error(sqlite3_errmsg(db))`
  abbrev sql_error : q.Db → Database q.Db → Database q.Db
  sql_error db r = set_error (q.errmsg db) (set_handle db r)

  abbrev run_at : Next → Option q.Db → Database q.Db → Bool × Database q.Db
  run_at next none r = (false, not_open r)
  run_at next (some db) r = next db r

  abbrev schema_done : Bool × Option Bytes × q.Db → Database q.Db → Bool × Database q.Db
  schema_done (true, e, db) r = (true, set_handle db r)
  schema_done (false, e, db) r =
      (false, set_error (message_or e (codes "Failed to initialize schema.")) (set_handle db r))

  unfoldable pub initialize_schema : Database q.Db → Bool × Database q.Db
  initialize_schema r = run_at (λ db r'. schema_done (q.exec schema_sql db) r') r.handle r

  -- `sqlite3_exec(db, "ROLLBACK;", …); return false;`
  abbrev pub rolled_back : q.Db → Database q.Db → Bool × Database q.Db
  rolled_back db r = (false, set_handle (q.exec rollback_sql db).2 r)

  abbrev committed : Bool × Option Bytes × q.Db → Database q.Db → Bool × Database q.Db
  committed (true, e, db) r = (true, set_handle db r)
  committed (false, e, db) r =
      rolled_back db (set_error (message_or e (codes "Failed to commit transaction.")) r)

  abbrev commit : Next
  commit db r = committed (q.exec commit_sql db) r

  -- A statement of a transaction and what comes after it.
  abbrev stepped : Next → Bool × ℕ × q.Db → Database q.Db → Bool × Database q.Db
  stepped next (true, changes, db) r = next db r
  stepped next (false, changes, db) r = rolled_back db (sql_error db r)

  abbrev prepared : Bytes → List Bytes → Next → Bool × q.Db → Database q.Db → Bool × Database q.Db
  prepared sql binds next (true, db) r = stepped next (q.step sql binds db) r
  prepared sql binds next (false, db) r = rolled_back db (sql_error db r)

  -- The answers of the calls of `sqlite3_bind_text`, which the source does not test, are left out.
  abbrev statement : Bytes → List Bytes → Next → Next
  statement sql binds next db r = prepared sql binds next (q.prepare sql db) r

  abbrev begun : Next → Bool × Option Bytes × q.Db → Database q.Db → Bool × Database q.Db
  begun next (true, e, db) r = next db r
  begun next (false, e, db) r =
      (false, set_error (message_or e (codes "Failed to begin transaction.")) (set_handle db r))

  unfoldable pub insert_or_replace : Course → Database q.Db → Bool × Database q.Db
  insert_or_replace course r =
      run_at
        (λ db r'.
          begun
            (statement insert_course_sql (course_binds course)
              (statement insert_schedule_sql (schedule_binds course) commit))
            (q.exec begin_sql db) r')
        r.handle r

  unfoldable pub update : Course → Database q.Db → Bool × Database q.Db
  update course r =
      run_at
        (λ db r'.
          begun
            (statement update_course_sql (course_changes course)
              (statement update_schedule_sql (schedule_changes course) commit))
            (q.exec begin_sql db) r')
        r.handle r

  -- A writing statement on its own.
  abbrev single_stepped : Bool × ℕ × q.Db → Database q.Db → Bool × Database q.Db
  single_stepped (true, changes, db) r = (true, set_handle db r)
  single_stepped (false, changes, db) r = (false, sql_error db r)

  abbrev single_prepared : Bytes → List Bytes → Bool × q.Db → Database q.Db → Bool × Database q.Db
  single_prepared sql binds (true, db) r = single_stepped (q.step sql binds db) r
  single_prepared sql binds (false, db) r = (false, sql_error db r)

  abbrev single : Bytes → List Bytes → Next
  single sql binds db r = single_prepared sql binds (q.prepare sql db) r

  unfoldable pub delete_course : Bytes → Bytes → Database q.Db → Bool × Database q.Db
  delete_course code section r =
      run_at (single delete_course_sql (map c_str (code ∷ section ∷ []))) r.handle r

  unfoldable pub delete_schedule :
      Bytes → Bytes → Bytes → Bytes → Bytes → Database q.Db → Bool × Database q.Db
  delete_schedule code section day duration semester r =
      run_at
        (single delete_schedule_sql (map c_str (code ∷ section ∷ day ∷ duration ∷ semester ∷ [])))
        r.handle r
