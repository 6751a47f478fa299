-- ===== src/CourseStore/Queries.antt =====
-- driver/src/db_courses_handle.cpp: the queries of `CourseRepository`, and the repository as a whole.
pub mod Kept
pub mod Held
pub mod Pages
mod Tests
use dcn1003_group.Base.{
  ℕ, suc, Bool, true, false, Option, none, some, List, [], ◌∷◌, ◌++◌, map, if◌then◌else◌, Bytes,
  codes,
}
use dcn1003_group.Base.Int.{ℤ, pos, ltb_ℤ, leb_ℤ}
use dcn1003_group.Number.{to_string}
use dcn1003_group.Wire.{Course}
use dcn1003_group.Sqlite.{Sqlite, c_str, column}
use dcn1003_group.Database.{Database, set_handle}
use dcn1003_group.Repository.{CourseRepository}
use dcn1003_group.CourseStore.{not_open, sql_error, insert_or_replace, update, delete_course}
use dcn1003_group.CourseStore.Statements.{
  join_select, count_sql, by_code, by_instructor, by_classroom, by_day, by_semester, all_order,
  page_order,
}

-- `text == nullptr ? "" : text`
abbrev text_or_empty : Option Bytes → Bytes
text_or_empty none = []
text_or_empty (some text) = text

abbrev safe_col_text : List (Option Bytes) → ℕ → Bytes
safe_col_text row col = text_or_empty (column row col)

abbrev pub course_from_stmt : List (Option Bytes) → Course
course_from_stmt row = record {
  code = safe_col_text row 0;
  title = safe_col_text row 1;
  section = safe_col_text row 2;
  instructor = safe_col_text row 3;
  day = safe_col_text row 4;
  duration = safe_col_text row 5;
  semester = safe_col_text row 6;
  classroom = safe_col_text row 7;
}

module _ (q : Sqlite) where
  -- The result of `prepare_and_collect`, the rows it collected, and the object.
  abbrev Collected : Type 0
  Collected = Bool × List Course × Database q.Db

  abbrev all_stepped : List Course → Bool × q.Db → Database q.Db → Collected
  all_stepped courses (true, db) r = (true, courses, set_handle db r)
  all_stepped courses (false, db) r = (false, courses, sql_error q db r)

  -- The rows that came before a failure stay collected.
  abbrev step_rows : Bytes → List Bytes → q.Db → Database q.Db → Collected
  step_rows sql binds db r =
      all_stepped (map course_from_stmt (q.rows sql binds db)) (q.ends sql binds db) r

  abbrev bound_from : Bool × q.Db → (q.Db → Collected) → Database q.Db → Collected
  bound_from (true, db) next r = next db
  bound_from (false, db) next r = (false, [], sql_error q db r)

  -- The texts that are still to be bound, the first of them at position i + 1.
  bind_from : Bytes → ℕ → List Bytes → (q.Db → Collected) → q.Db → Database q.Db → Collected
  bind_from sql i [] next db r = next db
  bind_from sql i (text ∷ texts) next db r =
      bound_from (q.bind sql (suc i) (c_str text) db)
        (λ db'. bind_from sql (suc i) texts next db' r) r

  abbrev collect_prepared : Bytes → List Bytes → Bool × q.Db → Database q.Db → Collected
  unfolding bind_from
  collect_prepared sql bindings (true, db) r =
      bind_from sql 0 bindings (λ db'. step_rows sql (map c_str bindings) db' r) db r
  collect_prepared sql bindings (false, db) r = (false, [], sql_error q db r)

  abbrev collect_at : Bytes → List Bytes → Option q.Db → Database q.Db → Collected
  unfolding collect_prepared
  collect_at sql bindings none r = (false, [], not_open q r)
  collect_at sql bindings (some db) r = collect_prepared sql bindings (q.prepare sql db) r

  unfoldable pub prepare_and_collect : Bytes → List Bytes → Database q.Db → Collected
  unfolding collect_at
  prepare_and_collect sql bindings r = collect_at (c_str sql) bindings r.handle r

  -- A query takes what was collected and ignores whether it failed.
  abbrev query : Bytes → List Bytes → Database q.Db → List Course × Database q.Db
  unfolding prepare_and_collect
  query sql bindings r = let (ok, courses, r') = prepare_and_collect sql bindings r in (courses, r')

  unfoldable pub search_by_course_code : Bytes → Database q.Db → List Course × Database q.Db
  unfolding query
  search_by_course_code code r = query (join_select ++ by_code) (code ∷ []) r

  unfoldable pub search_by_instructor : Bytes → Database q.Db → List Course × Database q.Db
  unfolding query
  search_by_instructor instructor r =
      query (join_select ++ by_instructor) ((codes "%" ++ instructor ++ codes "%") ∷ []) r

  unfoldable pub search_by_classroom : Bytes → Database q.Db → List Course × Database q.Db
  unfolding query
  search_by_classroom classroom r =
      query (join_select ++ by_classroom) ((codes "%" ++ classroom ++ codes "%") ∷ []) r

  unfoldable pub search_by_day : Bytes → Database q.Db → List Course × Database q.Db
  unfolding query
  search_by_day day r = query (join_select ++ by_day) (day ∷ []) r

  unfoldable pub view_courses_by_semester : Bytes → Database q.Db → List Course × Database q.Db
  unfolding query
  view_courses_by_semester semester r = query (join_select ++ by_semester) (semester ∷ []) r

  unfoldable pub view_all_courses : Database q.Db → List Course × Database q.Db
  unfolding query
  view_all_courses r = query (join_select ++ all_order) [] r

  abbrev page_sql : ℤ → ℤ → Bytes
  page_sql offset limit =
      join_select
      ++ page_order
      ++ codes " LIMIT "
      ++ to_string limit
      ++ codes " OFFSET "
      ++ to_string offset
      ++ codes ";"

  unfoldable pub view_all_courses_paged : ℤ → ℤ → Database q.Db → List Course × Database q.Db
  unfolding query
  view_all_courses_paged offset limit r =
      if leb_ℤ limit (pos 0)
      then ([], r)
      else if ltb_ℤ offset (pos 0)
      then query (page_sql (pos 0) limit) [] r
      else query (page_sql offset limit) [] r

  abbrev counted : Option ℤ → q.Db → Database q.Db → ℤ × Database q.Db
  counted none db r = (pos 0, set_handle db r)
  counted (some n) db r = (n, set_handle db r)

  abbrev count_prepared : Bool × q.Db → Database q.Db → ℤ × Database q.Db
  count_prepared (true, db) r = counted (q.first_int count_sql db) db r
  count_prepared (false, db) r = (pos 0, sql_error q db r)

  abbrev count_at : Option q.Db → Database q.Db → ℤ × Database q.Db
  count_at none r = (pos 0, not_open q r)
  count_at (some db) r = count_prepared (q.prepare count_sql db) r

  unfoldable pub count_courses : Database q.Db → ℤ × Database q.Db
  count_courses r = count_at r.handle r

  -- The repository as the handlers use it.
  abbrev pub sqlite_courses : CourseRepository
  sqlite_courses = record {
    Repo = Database q.Db;
    insert_or_replace = insert_or_replace q;
    search_by_course_code = search_by_course_code;
    search_by_instructor = search_by_instructor;
    view_courses_by_semester = view_courses_by_semester;
    view_all_courses = view_all_courses;
    view_all_courses_paged = view_all_courses_paged;
    delete_course = delete_course q;
    update = update q;
    last_error = λ (r : Database q.Db). r.last_error;
  }
