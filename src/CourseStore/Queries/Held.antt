-- ===== src/CourseStore/Queries/Held.antt =====
-- The connection of `CourseRepository` after each of its operations.
use dcn1003_group.Base.{
  ℕ, suc, ◌≡◌, refl, ap, Bool, true, false, Option, none, some, List, [], ◌∷◌, ◌++◌, codes, Bytes,
  map, arith,
}
use dcn1003_group.Base.Int.{ℤ, pos}
use dcn1003_group.Wire.{Course}
use dcn1003_group.Sqlite.{Sqlite, c_str}
use dcn1003_group.Database.{Database}
use dcn1003_group.Database.Owned.{is_some}
use dcn1003_group.CourseStore.{initialize_schema, insert_or_replace, update, delete_course}
use dcn1003_group.CourseStore.Statements.{
  join_select, by_code, by_instructor, by_semester, all_order,
}
use dcn1003_group.CourseStore.Queries.{
  Collected, all_stepped, bound_from, bind_from, collect_prepared, collect_at, prepare_and_collect,
  query, search_by_course_code, search_by_instructor, view_courses_by_semester, view_all_courses,
  view_all_courses_paged, page_sql,
}

module _ (q : Sqlite) where
  -- Whether the repository holds a connection.
  abbrev pub has_connection : Database q.Db → Bool
  has_connection r = is_some r.handle

  pub initialize_schema_held :
      (r : Database q.Db) → has_connection (initialize_schema q r).1 ≡ has_connection r
  unfolding initialize_schema
  initialize_schema_held r = ground arith

  pub insert_or_replace_held :
      (course : Course) (r : Database q.Db)
      → has_connection (insert_or_replace q course r).1 ≡ has_connection r
  unfolding insert_or_replace
  insert_or_replace_held course r = ground arith

  pub update_held :
      (course : Course) (r : Database q.Db)
      → has_connection (update q course r).1 ≡ has_connection r
  unfolding update
  update_held course r = ground arith

  pub delete_course_held :
      (code section : Bytes) (r : Database q.Db)
      → has_connection (delete_course q code section r).1 ≡ has_connection r
  unfolding delete_course
  delete_course_held code section r = ground arith

  all_stepped_held :
      (courses : List Course) (end : Bool × q.Db) (r : Database q.Db)
      → is_some (all_stepped q courses end r).2.handle ≡ true
  all_stepped_held courses (true, db) r = refl
  all_stepped_held courses (false, db) r = refl

  bound_from_held :
      (answer : Bool × q.Db) (next : q.Db → Collected q) (r : Database q.Db)
      → ((db : q.Db) → is_some (next db).2.handle ≡ true)
      → is_some (bound_from q answer next r).2.handle ≡ true
  bound_from_held (true, db) next r h = h db
  bound_from_held (false, db) next r h = refl

  bind_from_held :
      (sql : Bytes) (i : ℕ) (texts : List Bytes) (next : q.Db → Collected q) (db : q.Db)
      (r : Database q.Db)
      → ((db' : q.Db) → is_some (next db').2.handle ≡ true)
      → is_some (bind_from q sql i texts next db r).2.handle ≡ true
  unfolding bind_from
  bind_from_held sql i [] next db r h = h db
  bind_from_held sql i (text ∷ texts) next db r h =
      bound_from_held (q.bind sql (suc i) (c_str text) db) _ r
        (λ db'. bind_from_held sql (suc i) texts next db' r h)

  collect_prepared_held :
      (sql : Bytes) (bindings : List Bytes) (answer : Bool × q.Db) (r : Database q.Db)
      → is_some (collect_prepared q sql bindings answer r).2.handle ≡ true
  unfolding collect_prepared
  collect_prepared_held sql bindings (true, db) r =
      bind_from_held sql 0 bindings _ db r
        (λ db'. all_stepped_held _ (q.ends sql (map c_str bindings) db') r)
  collect_prepared_held sql bindings (false, db) r = refl

  collect_at_held :
      (sql : Bytes) (bindings : List Bytes) (o : Option q.Db) (r : Database q.Db)
      → r.handle ≡ o
      → is_some (collect_at q sql bindings o r).2.handle ≡ is_some o
  unfolding collect_at
  collect_at_held sql bindings none r same = ap is_some same
  collect_at_held sql bindings (some db) r same =
      collect_prepared_held sql bindings (q.prepare sql db) r

  query_held :
      (sql : Bytes) (bindings : List Bytes) (r : Database q.Db)
      → has_connection (query q sql bindings r).1 ≡ has_connection r
  unfolding query prepare_and_collect
  query_held sql bindings r = collect_at_held (c_str sql) bindings r.handle r refl

  pub search_by_course_code_held :
      (code : Bytes) (r : Database q.Db)
      → has_connection (search_by_course_code q code r).1 ≡ has_connection r
  unfolding search_by_course_code
  search_by_course_code_held code r = query_held (join_select ++ by_code) (code ∷ []) r

  pub search_by_instructor_held :
      (name : Bytes) (r : Database q.Db)
      → has_connection (search_by_instructor q name r).1 ≡ has_connection r
  unfolding search_by_instructor
  search_by_instructor_held name r =
      query_held (join_select ++ by_instructor) ((codes "%" ++ name ++ codes "%") ∷ []) r

  pub view_courses_by_semester_held :
      (semester : Bytes) (r : Database q.Db)
      → has_connection (view_courses_by_semester q semester r).1 ≡ has_connection r
  unfolding view_courses_by_semester
  view_courses_by_semester_held semester r =
      query_held (join_select ++ by_semester) (semester ∷ []) r

  pub view_all_courses_held :
      (r : Database q.Db) → has_connection (view_all_courses q r).1 ≡ has_connection r
  unfolding view_all_courses
  view_all_courses_held r = query_held (join_select ++ all_order) [] r

  pub view_all_courses_paged_held :
      (offset limit : ℤ) (r : Database q.Db)
      → has_connection (view_all_courses_paged q offset limit r).1 ≡ has_connection r
  unfolding view_all_courses_paged
  view_all_courses_paged_held offset limit r =
      let asked = query_held (page_sql q offset limit) [] r in
      let from_start = query_held (page_sql q (pos 0) limit) [] r in
      ground (arith, asked, from_start)
