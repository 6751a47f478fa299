-- ===== src/CourseStore/Queries/Kept.antt =====
-- What a query leaves in the database, whatever SQLite answers to its calls.
use dcn1003_group.Base.{
  ℕ, suc, ◌≡◌, refl, ap, ◌∙◌, Bool, true, false, Option, none, some, List, [], ◌∷◌, map, Bytes,
  codes, ◌++◌, both_branches,
}
use dcn1003_group.Base.Int.{ℤ, pos, leb_ℤ, ltb_ℤ}
use dcn1003_group.Wire.{Course}
use dcn1003_group.Sqlite.{Sqlite, c_str}
use dcn1003_group.Database.{Database}
use dcn1003_group.CourseStore.Statements.{
  join_select, count_sql, by_code, by_instructor, by_classroom, by_day, by_semester, all_order,
}
use dcn1003_group.CourseStore.Queries.{
  Collected, all_stepped, bound_from, bind_from, collect_prepared, collect_at, prepare_and_collect,
  query, counted, count_prepared, count_at, count_courses, search_by_course_code,
  search_by_instructor, search_by_classroom, search_by_day, view_courses_by_semester,
  view_all_courses, page_sql, view_all_courses_paged,
}
use dcn1003_group.CourseStore.Transactions.{Transactions, AtRest, some_injective, none-some}

-- The calls that read.
pub data Query : Type 0 where
  of_code : Bytes → Query
  of_instructor : Bytes → Query
  of_classroom : Bytes → Query
  of_day : Bytes → Query
  of_semester : Bytes → Query
  of_all : Query
  of_page : ℤ → ℤ → Query
  count : Query

-- The object after the call.
unfoldable pub look : (q : Sqlite) → Query → Database q.Db → Database q.Db
unfolding search_by_course_code search_by_instructor search_by_classroom search_by_day
    view_courses_by_semester view_all_courses view_all_courses_paged count_courses
look q (of_code code) r = (search_by_course_code q code r).1
look q (of_instructor instructor) r = (search_by_instructor q instructor r).1
look q (of_classroom classroom) r = (search_by_classroom q classroom r).1
look q (of_day day) r = (search_by_day q day r).1
look q (of_semester semester) r = (view_courses_by_semester q semester r).1
look q of_all r = (view_all_courses q r).1
look q (of_page offset limit) r = (view_all_courses_paged q offset limit r).1
look q count r = (count_courses q r).1

module _ (q : Sqlite) (laws : Transactions q) where
  -- A connection with no transaction open and the content `c`.
  abbrev pub Idle : laws.Content → q.Db → Type 0
  Idle c db = (laws.content db ≡ c) × (laws.saved db ≡ none)

  abbrev Kept : laws.Content → Collected q → Type 0
  Kept c (ok, courses, r) = AtRest q laws r c

  -- A call that keeps what the connection shows and saves keeps it idle.
  keeps-Idle :
      (c : laws.Content) (db db' : q.Db)
      → Idle c db
      → (laws.content db' ≡ laws.content db) × (laws.saved db' ≡ laws.saved db)
      → Idle c db'
  keeps-Idle c db db' (same, idle) (shown, kept) = (shown ∙ same, kept ∙ idle)

  all_stepped-Kept :
      (c : laws.Content) (courses : List Course) (answer : Bool × q.Db) (r : Database q.Db)
      → Idle c answer.1
      → Kept c (all_stepped q courses answer r)
  all_stepped-Kept c courses (true, db) r (same, idle) = (db, refl, idle, same)
  all_stepped-Kept c courses (false, db) r (same, idle) = (db, refl, idle, same)

  bound_from-Kept :
      (c : laws.Content) (answer : Bool × q.Db) (next : q.Db → Collected q) (r : Database q.Db)
      → ((db : q.Db) → Idle c db → Kept c (next db))
      → Idle c answer.1
      → Kept c (bound_from q answer next r)
  bound_from-Kept c (true, db) next r goes i = goes db i
  bound_from-Kept c (false, db) next r goes (same, idle) = (db, refl, idle, same)

  bind_from-Kept :
      (c : laws.Content) (sql : Bytes) (i : ℕ) (texts : List Bytes) (next : q.Db → Collected q)
      (db : q.Db) (r : Database q.Db)
      → ((db' : q.Db) → Idle c db' → Kept c (next db'))
      → Idle c db
      → Kept c (bind_from q sql i texts next db r)
  unfolding bind_from
  bind_from-Kept c sql i [] next db r goes h = goes db h
  bind_from-Kept c sql i (text ∷ texts) next db r goes h =
      bound_from-Kept c (q.bind sql (suc i) (c_str text) db) _ r
        (λ db' h'. bind_from-Kept c sql (suc i) texts next db' r goes h')
        (keeps-Idle c db _ h (laws.binds_text sql (suc i) (c_str text) db))

  collect_prepared-Kept :
      (c : laws.Content) (sql : Bytes) (bindings : List Bytes) (answer : Bool × q.Db)
      (r : Database q.Db)
      → Idle c answer.1
      → Kept c (collect_prepared q sql bindings answer r)
  unfolding collect_prepared
  collect_prepared-Kept c sql bindings (true, db) r h =
      bind_from-Kept c sql 0 bindings _ db r
        (λ db' h'.
          all_stepped-Kept c _ (q.ends sql (map c_str bindings) db') r
            (keeps-Idle c db' _ h' (laws.selects sql (map c_str bindings) db')))
        h
  collect_prepared-Kept c sql bindings (false, db) r (same, idle) = (db, refl, idle, same)

  collect_at-Kept :
      (c : laws.Content) (sql : Bytes) (bindings : List Bytes) (handle : Option q.Db)
      (r : Database q.Db)
      → (db : q.Db) × (handle ≡ some db) × (laws.saved db ≡ none) × (laws.content db ≡ c)
      → Kept c (collect_at q sql bindings handle r)
  unfolding collect_at
  collect_at-Kept c sql bindings none r (db, closed, idle, same) = absurd (none-some db closed)
  collect_at-Kept c sql bindings (some db0) r (db, open_now, idle, same) =
      let e = some_injective db0 db open_now in
      collect_prepared-Kept c sql bindings (q.prepare sql db0) r (
        keeps-Idle c db0 _ (ap laws.content e ∙ same, ap laws.saved e ∙ idle)
          (laws.prepares sql db0))

  query-AtRest :
      (sql : Bytes) (bindings : List Bytes) (r : Database q.Db) (c : laws.Content)
      → AtRest q laws r c
      → AtRest q laws (query q sql bindings r).1 c
  unfolding query prepare_and_collect
  query-AtRest sql bindings r c h = collect_at-Kept c (c_str sql) bindings r.handle r h

  counted-AtRest :
      (n : Option ℤ) (c : laws.Content) (db : q.Db) (r : Database q.Db)
      → Idle c db
      → AtRest q laws (counted q n db r).1 c
  counted-AtRest none c db r (same, idle) = (db, refl, idle, same)
  counted-AtRest (some n) c db r (same, idle) = (db, refl, idle, same)

  count_prepared-AtRest :
      (c : laws.Content) (answer : Bool × q.Db) (r : Database q.Db)
      → Idle c answer.1
      → AtRest q laws (count_prepared q answer r).1 c
  count_prepared-AtRest c (true, db) r (same, idle) =
      counted-AtRest (q.first_int count_sql db) c db r (same, idle)
  count_prepared-AtRest c (false, db) r (same, idle) = (db, refl, idle, same)

  count_at-AtRest :
      (c : laws.Content) (handle : Option q.Db) (r : Database q.Db)
      → (db : q.Db) × (handle ≡ some db) × (laws.saved db ≡ none) × (laws.content db ≡ c)
      → AtRest q laws (count_at q handle r).1 c
  count_at-AtRest c none r (db, closed, idle, same) = absurd (none-some db closed)
  count_at-AtRest c (some db0) r (db, open_now, idle, same) =
      let e = some_injective db0 db open_now in
      count_prepared-AtRest c (q.prepare count_sql db0) r (
        keeps-Idle c db0 _ (ap laws.content e ∙ same, ap laws.saved e ∙ idle)
          (laws.prepares count_sql db0))

  page-AtRest :
      (offset limit : ℤ) (r : Database q.Db) (c : laws.Content)
      → AtRest q laws r c
      → AtRest q laws (view_all_courses_paged q offset limit r).1 c
  unfolding view_all_courses_paged
  page-AtRest offset limit r c h =
      both_branches (λ (p : List Course × Database q.Db). AtRest q laws p.1 c) (leb_ℤ limit (pos 0))
        h
        (both_branches (λ (p : List Course × Database q.Db). AtRest q laws p.1 c)
          (ltb_ℤ offset (pos 0)) (query-AtRest (page_sql q (pos 0) limit) [] r c h)
          (query-AtRest (page_sql q offset limit) [] r c h))

  -- Whatever SQLite answers, a query on an open database with no transaction open leaves it so, with the
  -- content unchanged.
  pub look-AtRest :
      (p : Query) (r : Database q.Db) (c : laws.Content)
      → AtRest q laws r c
      → AtRest q laws (look q p r) c
  unfolding look search_by_course_code search_by_instructor search_by_classroom search_by_day
      view_courses_by_semester view_all_courses count_courses
  look-AtRest (of_code code) r c h = query-AtRest (join_select ++ by_code) (code ∷ []) r c h
  look-AtRest (of_instructor instructor) r c h =
      query-AtRest (join_select ++ by_instructor) ((codes "%" ++ instructor ++ codes "%") ∷ []) r c
        h
  look-AtRest (of_classroom classroom) r c h =
      query-AtRest (join_select ++ by_classroom) ((codes "%" ++ classroom ++ codes "%") ∷ []) r c h
  look-AtRest (of_day day) r c h = query-AtRest (join_select ++ by_day) (day ∷ []) r c h
  look-AtRest (of_semester semester) r c h =
      query-AtRest (join_select ++ by_semester) (semester ∷ []) r c h
  look-AtRest of_all r c h = query-AtRest (join_select ++ all_order) [] r c h
  look-AtRest (of_page offset limit) r c h = page-AtRest offset limit r c h
  look-AtRest count r c h = count_at-AtRest c r.handle r h
