-- ===== src/CourseStore/Queries/Pages.antt =====
-- The pages of `view_all_courses_paged` against the list of `view_all_courses`.
use dcn1003_group.Base.{
  ℕ, zero, suc, ◌+◌, ◌*◌, ◌≤◌, ◌≡◌, refl, sym, ap, ◌∙◌, ◌≢◌, Bool, true, false, Option, none, some,
  All, get_or, codes, List, [], ◌∷◌, ◌++◌, map, arith, Bytes, length, take, drop, take_all,
  drop-drop,
}
use mathlib.Core.List.{map-append, append_assoc}
use mathlib.Core.Path.{subst, ap₂}
use native.Mathlib.Nat.{zero-add, suc-add, zero-mul, suc-mul}
use dcn1003_group.Number.{to_string}
use dcn1003_group.Base.Int.{pos, leb_ℤ, ltb_ℤ}
use dcn1003_group.Wire.{Course}
use dcn1003_group.Sqlite.{Sqlite, c_str}
use dcn1003_group.Database.{Database}
use dcn1003_group.CourseStore.Statements.{join_select, all_order, page_order}
use dcn1003_group.CourseStore.Queries.{
  course_from_stmt, all_stepped, bind_from, collect_at, collect_prepared, prepare_and_collect,
  query, page_sql, view_all_courses, view_all_courses_paged,
}

-- The texts of the two statements as SQLite reads them.
abbrev pub all_text : Bytes
all_text = c_str (join_select ++ all_order)

abbrev pub page_text : (q : Sqlite) → ℕ → ℕ → Bytes
page_text q offset limit = c_str (page_sql q (pos offset) (pos limit))

-- The columns that the SELECT of `kJoinSelect` names.
pub data Column : Type 0 where
  code title section instructor day duration semester classroom : Column

abbrev pub name : Column → Bytes
name Column.code = codes "c.code"
name Column.title = codes "c.title"
name Column.section = codes "c.section"
name Column.instructor = codes "c.instructor"
name Column.day = codes "s.day"
name Column.duration = codes "s.duration"
name Column.semester = codes "s.semester"
name Column.classroom = codes "s.classroom"

abbrev position : Column → ℕ
position Column.code = 0
position Column.title = 1
position Column.section = 2
position Column.instructor = 3
position Column.day = 4
position Column.duration = 5
position Column.semester = 6
position Column.classroom = 7

abbrev pub names : Column → List Column → Bytes
names col [] = name col
names col (next ∷ cols) = name col ++ (codes ", " ++ names next cols)

-- The SELECT in the order of some columns, and the piece of it behind `offset` rows, at most `limit` long.
abbrev pub ordered_text : Column → List Column → Bytes
ordered_text col cols = c_str (join_select ++ codes " ORDER BY " ++ (names col cols ++ codes ";"))

abbrev pub sliced_text : Column → List Column → ℕ → ℕ → Bytes
sliced_text col cols offset limit = c_str (
    join_select
    ++ codes " ORDER BY "
    ++ (names col cols
        ++ (codes " LIMIT "
            ++ (to_string (pos limit)
                ++ (codes " OFFSET " ++ (to_string (pos offset) ++ codes ";"))))))

abbrev pub Row : Type 0
Row = List (Option Bytes)

abbrev key : Column → List Column → Row → List (Option Bytes)
key col cols row = map (λ c. get_or row (position c) none) (col ∷ cols)

-- No two rows agree in all of the columns.
abbrev pub Apart : Column → List Column → List Row → Type 0
Apart col cols [] = Unit
Apart col cols (row ∷ rows) =
    All (λ other. key col cols other ≢ key col cols row) rows × Apart col cols rows

-- What SQLite promises of reading: preparing and stepping a SELECT change no row; and if the columns of an
-- ORDER BY tell all the rows apart, so that there is one order only, LIMIT and OFFSET give a piece of the
-- same statement's rows without them.
pub record Slices (q : Sqlite) : Type 0 where
  pub prepares :
      (sql sql' : Bytes) (db : q.Db) → q.rows sql [] (q.prepare sql' db).1 ≡ q.rows sql [] db
  pub ends : (sql sql' : Bytes) (db : q.Db) → q.rows sql [] (q.ends sql' [] db).1 ≡ q.rows sql [] db
  pub slices :
      (col : Column) (cols : List Column) (offset limit : ℕ) (db : q.Db)
      → Apart col cols (q.rows (ordered_text col cols) [] db)
      → q.rows (sliced_text col cols offset limit) [] db
        ≡ take limit (drop offset (q.rows (ordered_text col cols) [] db))

-- The columns of the two statements.
abbrev pub rest_of_key : List Column
rest_of_key = Column.section ∷ Column.semester ∷ Column.day ∷ []

all_text_lem : ordered_text Column.code rest_of_key ≡ all_text
unfolding codes
all_text_lem = refl

page_text_lem :
    (q : Sqlite) (offset limit : ℕ)
    → sliced_text Column.code rest_of_key offset limit ≡ page_text q offset limit
unfolding codes
page_text_lem q offset limit =
    ap (λ s. c_str (join_select ++ page_order ++ codes " LIMIT " ++ s))
      (sym (append_assoc (to_string (pos limit)) (codes " OFFSET ") _)
        ∙ sym (
            append_assoc (to_string (pos limit) ++ codes " OFFSET ") (to_string (pos offset))
              (codes ";")))

take_nil {ℓ} : {A : Type ℓ} (n : ℕ) → take {A = A} n [] ≡ []
take_nil zero = refl
take_nil (suc n) = refl

take_add {ℓ} :
    {A : Type ℓ} (a b : ℕ) (xs : List A) → take (a + b) xs ≡ take a xs ++ take b (drop a xs)
take_add zero b xs = rw zero-add refl
take_add (suc a) b [] = rw suc-add (sym (take_nil b))
take_add (suc a) b (x ∷ xs) = rw suc-add (ap (λ ys. x ∷ ys) (take_add a b xs))

length-map {ℓ κ} :
    {A : Type ℓ} {B : Type κ} (f : A → B) (xs : List A) → length (map f xs) ≡ length xs
length-map f [] = refl
length-map f (x ∷ xs) = ap suc (length-map f xs)

module _ (q : Sqlite) where
  -- `count` pages one after another, from this offset on.
  abbrev pub pages : ℕ → ℕ → ℕ → Database q.Db → List Course × Database q.Db
  pages limit offset zero r = ([], r)
  pages limit offset (suc count) r =
      let (page, r') = view_all_courses_paged q (pos offset) (pos limit) r in
      let (rest, r'') = pages limit (offset + limit) count r' in (page ++ rest, r'')

  module _ (laws : Slices q) (ready : (sql : Bytes) (db : q.Db) → (q.prepare sql db).0 ≡ true) where
    -- The object has a connection on which all courses are these rows.
    abbrev Shows : List Row → Database q.Db → Type 0
    Shows all r = (db : q.Db) × (r.handle ≡ some db) × (q.rows all_text [] db ≡ all)

    -- A collection whose courses are those of the rows, and which leaves them.
    abbrev Found : List Row → List Row → List Course × Database q.Db → Type 0
    Found all rows (courses, r) = (courses ≡ map course_from_stmt rows) × Shows all r

    stepped-Found :
        (all rows : List Row) (answer : Bool × q.Db) (r : Database q.Db)
        → q.rows all_text [] answer.1 ≡ all
        → Found all rows (
          (all_stepped q (map course_from_stmt rows) answer r).1,
          (all_stepped q (map course_from_stmt rows) answer r).2,
        )
    stepped-Found all rows (true, db) r h = (refl, (db, refl, h))
    stepped-Found all rows (false, db) r h = (refl, (db, refl, h))

    collect_at-Found :
        (all : List Row) (text : Bytes) (db : q.Db) (r : Database q.Db)
        → q.rows all_text [] db ≡ all
        → Found all
            (q.rows text [] db)
            ((collect_at q text [] (some db) r).1, (collect_at q text [] (some db) r).2)
    unfolding collect_at collect_prepared bind_from
    collect_at-Found all text db r same =
        let (ok, db1) = q.prepare text db in
        let (courses, shown) =
          stepped-Found all (q.rows text [] db1) (q.ends text [] db1) r
            (laws.ends all_text text db1 ∙ laws.prepares all_text text db ∙ same) in
        rw (ready text db) (courses ∙ ap (map course_from_stmt) (laws.prepares text text db), shown)

    query-Found :
        (all : List Row) (sql : Bytes) (r : Database q.Db)
        → (shows : Shows all r) → Found all (q.rows (c_str sql) [] shows.0) (query q sql [] r)
    unfolding query prepare_and_collect
    query-Found all sql r (db, opened, same) =
        subst
          (λ (o : Option q.Db).
            Found all (q.rows (c_str sql) [] db)
              ((collect_at q (c_str sql) [] o r).1, (collect_at q (c_str sql) [] o r).2))
          (sym opened) (collect_at-Found all (c_str sql) db r same)

    page_lem :
        (offset k : ℕ) (r : Database q.Db)
        → view_all_courses_paged q (pos offset) (pos (suc k)) r
          ≡ query q (page_sql q (pos offset) (pos (suc k))) [] r
    unfolding view_all_courses_paged
    page_lem offset k r = rw (some_limit, some_offset) refl
      where
        some_limit : leb_ℤ (pos (suc k)) (pos 0) ≡ false
        some_limit = ground arith

        some_offset : ltb_ℤ (pos offset) (pos 0) ≡ false
        some_offset = ground arith

    slice_lem :
        (all : List Row) (offset limit : ℕ) (db : q.Db)
        → Apart Column.code rest_of_key all
        → q.rows all_text [] db ≡ all
        → q.rows (page_text q offset limit) [] db ≡ take limit (drop offset all)
    slice_lem all offset limit db apart same =
        let whole = ap (λ sql. q.rows sql [] db) all_text_lem ∙ same in
        ap (λ sql. q.rows sql [] db) (sym (page_text_lem q offset limit))
        ∙ laws.slices Column.code rest_of_key offset limit db
            (subst (Apart Column.code rest_of_key) (sym whole) apart)
        ∙ ap (λ rows. take limit (drop offset rows)) whole

    page-Found :
        (all : List Row) (offset k : ℕ) (r : Database q.Db)
        → Apart Column.code rest_of_key all
        → Shows all r
        → Found all
            (take (suc k) (drop offset all))
            (view_all_courses_paged q (pos offset) (pos (suc k)) r)
    page-Found all offset k r apart (db, opened, same) =
        let (courses, shown) =
          query-Found all (page_sql q (pos offset) (pos (suc k))) r (db, opened, same) in
        subst (Found all (take (suc k) (drop offset all))) (sym (page_lem offset k r))
          (courses ∙ ap (map course_from_stmt) (slice_lem all offset (suc k) db apart same), shown)

    pages-Found :
        (all : List Row) (k offset count : ℕ) (r : Database q.Db)
        → Apart Column.code rest_of_key all
        → Shows all r
        → (pages (suc k) offset count r).0
          ≡ map course_from_stmt (take (count * suc k) (drop offset all))
    pages-Found all k offset zero r apart shows = rw zero-mul refl
    pages-Found all k offset (suc count) r apart shows =
        let (page, r') = view_all_courses_paged q (pos offset) (pos (suc k)) r in
        let (found, shows') = page-Found all offset k r apart shows in
        let rest = pages-Found all k (offset + suc k) count r' apart shows' in
        ap₂ (λ (a b : List Course). a ++ b) found
          (rest
            ∙ ap (λ rows. map course_from_stmt (take (count * suc k) rows))
                (sym (drop-drop offset (suc k) all)))
        ∙ sym (
            map-append course_from_stmt (take (suc k) (drop offset all))
              (take (count * suc k) (drop (suc k) (drop offset all))))
        ∙ ap (map course_from_stmt) (sym (take_add (suc k) (count * suc k) (drop offset all)))
        ∙ ap (λ n. map course_from_stmt (take n (drop offset all)))
            (sym (suc-mul count (suc k) ∙ omega arith))

    -- The pages of one size, read one after another until their sizes cover the list, are together exactly
    -- the list of `view_all_courses`, in its order, if no two rows agree in the code, the section, the
    -- semester and the day, by which both statements order them. The database is open, its statements can
    -- be prepared, and LIMIT and OFFSET do what SQLite documents of an order without ties.
    pub pages-view_all_courses :
        (k count : ℕ) (r : Database q.Db) (db : q.Db)
        → r.handle ≡ some db
        → Apart Column.code rest_of_key (q.rows all_text [] db)
        → length (view_all_courses q r).0 ≤ count * suc k
        → (pages (suc k) 0 count r).0 ≡ (view_all_courses q r).0
    unfolding view_all_courses
    pages-view_all_courses k count r db opened apart enough =
        let all = q.rows all_text [] db in
        let (whole, shown) = query-Found all (join_select ++ all_order) r (db, opened, refl) in
        pages-Found all k 0 count r apart (db, opened, refl)
        ∙ ap (map course_from_stmt) (
            take_all (count * suc k) all (
              subst (λ n. n ≤ count * suc k) (ap length whole ∙ length-map course_from_stmt all)
                enough))
        ∙ sym whole
