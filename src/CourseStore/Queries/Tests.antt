-- ===== src/CourseStore/Queries/Tests.antt =====
-- A table of courses whose rows are cut by the numbers behind LIMIT and OFFSET.
use dcn1003_group.Base.{
  ◌<◌, ◌⊎◌, inl, inr, ◌≢◌, All-append, ◌==◌, false, ℕ, zero, suc, ◌≡◌, refl, sym, ap, ◌∙◌, true,
  false, if◌then◌else◌, Option, none, some, List, [], ◌∷◌, ◌++◌, arith, All, Lacks, Bytes, codes,
  length, take, drop,
}
use dcn1003_group.Number.{is_digit, read_digits, decimal, to_string}
use dcn1003_group.Number.RoundTrip.{
  IsDigit, decimal-IsDigit, decimal-Lacks, read_digits-decimal_append,
}
use dcn1003_group.Sqlite.{Sqlite, c_str}
use dcn1003_group.Database.{Database}
use dcn1003_group.CourseStore.Statements.{join_select}
use dcn1003_group.CourseStore.Queries.{view_all_courses, prepare_and_collect}
use dcn1003_group.CourseStore.Queries.Pages.{
  Column, name, names, ordered_text, sliced_text, Row, Apart, Slices, all_text, rest_of_key, pages,
  pages-view_all_courses,
}

abbrev Rows : Type 0
Rows = List (List (Option Bytes))

abbrev front : Bytes
front = join_select ++ codes " ORDER BY "

abbrev value_of : Option ℕ → ℕ
value_of none = 0
value_of (some n) = n

abbrev number : Bytes → ℕ
number s = value_of (read_digits s (some 0))

abbrev behind_digits : Bytes → Bytes
behind_digits [] = []
behind_digits (c ∷ s) = if is_digit c then behind_digits s else c ∷ s

-- The page for the text behind " LIMIT ".
page_rows : Bytes → Rows → Rows
page_rows s db = take (number s) (drop (number (drop 8 (behind_digits s))) db)

-- The rows for the text behind " ORDER BY ": a piece of them, if an L stands there.
rows_behind : Bytes → Rows → Rows
rows_behind [] db = db
rows_behind (c ∷ s) db = elim (c == b'L') [
  | true ↦ page_rows (drop 5 s) db
  | false ↦ rows_behind s db
]

rows_of : Bytes → Rows → Rows
rows_of sql db = rows_behind (drop (length front) sql) db

abbrev sliced : Sqlite
sliced = record {
  Db = Rows;
  exec = λ sql db. (true, none, db);
  prepare = λ sql db. (true, db);
  bind = λ sql i text db. (true, db);
  rows = λ sql binds db. rows_of sql db;
  first_int = λ sql db. none;
  ends = λ sql binds db. (true, db);
  step = λ sql binds db. (true, 0, db);
  errmsg = λ db. [];
}

-- What stands behind the number of LIMIT.
abbrev behind : ℕ → Bytes
behind offset = codes " OFFSET " ++ (decimal offset ++ codes ";")

c_str-append : (s t : Bytes) → Lacks 0 s → c_str (s ++ t) ≡ s ++ c_str t
c_str-append [] t h = refl
c_str-append (zero ∷ s) t (hc, h) = absurd (hc refl)
c_str-append (suc c ∷ s) t (hc, h) = ap (λ rest. suc c ∷ rest) (c_str-append s t h)

front_lem : (s : Bytes) → c_str (front ++ s) ≡ front ++ c_str s
unfolding codes
front_lem s = refl

decimal_lem : (n : ℕ) (s : Bytes) → c_str (decimal n ++ s) ≡ decimal n ++ c_str s
decimal_lem n s = c_str-append (decimal n) s (decimal-Lacks 0 n (λ h. ground arith))

behind_lem : (offset : ℕ) → c_str (behind offset) ≡ behind offset
unfolding codes
behind_lem offset = ap (λ s. codes " OFFSET " ++ s) (decimal_lem offset (codes ";"))

name-Lacks : (b : ℕ) (col : Column) → b < 32 ⊎ (b ≡ b'L') → Lacks b (name col)
unfolding codes
name-Lacks b Column.code h = ground arith
name-Lacks b Column.title h = ground arith
name-Lacks b Column.section h = ground arith
name-Lacks b Column.instructor h = ground arith
name-Lacks b Column.day h = ground arith
name-Lacks b Column.duration h = ground arith
name-Lacks b Column.semester h = ground arith
name-Lacks b Column.classroom h = ground arith

comma-Lacks : (b : ℕ) → b < 32 ⊎ (b ≡ b'L') → Lacks b (codes ", ")
unfolding codes
comma-Lacks b h = ground arith

names-Lacks :
    (b : ℕ) (col : Column) (cols : List Column) → b < 32 ⊎ (b ≡ b'L') → Lacks b (names col cols)
names-Lacks b col [] h = name-Lacks b col h
names-Lacks b col (next ∷ cols) h =
    All-append (λ c. c ≢ b) (name col) (codes ", " ++ names next cols) (name-Lacks b col h)
      (All-append (λ c. c ≢ b) (codes ", ") (names next cols) (comma-Lacks b h)
        (names-Lacks b next cols h))

-- What stands behind the columns of a page.
abbrev window : ℕ → ℕ → Bytes
window offset limit = codes " LIMIT " ++ (decimal limit ++ behind offset)

window_lem : (offset limit : ℕ) → c_str (window offset limit) ≡ window offset limit
unfolding codes
window_lem offset limit =
    ap (λ s. codes " LIMIT " ++ s)
      (decimal_lem limit (behind offset) ∙ ap (λ s. decimal limit ++ s) (behind_lem offset))

-- A text behind the columns, as SQLite reads it.
ordered_lem :
    (col : Column) (cols : List Column) (s : Bytes)
    → c_str s ≡ s
    → c_str (front ++ (names col cols ++ s)) ≡ front ++ (names col cols ++ s)
ordered_lem col cols s h =
    front_lem (names col cols ++ s)
    ∙ ap (λ t. front ++ t)
        (c_str-append (names col cols) s (names-Lacks 0 col cols (inl (omega arith)))
          ∙ ap (λ t. names col cols ++ t) h)

behind_digits-append :
    (s t : Bytes) (c : ℕ) → All IsDigit s → is_digit c ≡ false → behind_digits (s ++ c ∷ t) ≡ c ∷ t
behind_digits-append [] t c h other = rw other refl
behind_digits-append (b ∷ s) t c (hb, h) other = ground (arith, behind_digits-append s t c h other)

page_rows_lem :
    (offset limit : ℕ) (db : Rows)
    → page_rows (decimal limit ++ behind offset) db ≡ take limit (drop offset db)
unfolding page_rows codes
page_rows_lem offset limit db =
    rw
      (
        read_digits-decimal_append limit 32 (drop 1 (behind offset)) refl,
        behind_digits-append (decimal limit) (drop 1 (behind offset)) 32 (decimal-IsDigit limit)
            refl,
        read_digits-decimal_append offset b';' [] refl,
      )
      refl

rows_lem : (s : Bytes) (db : Rows) → rows_of (front ++ s) db ≡ rows_behind s db
unfolding rows_of codes
rows_lem s db = refl

rows_behind-append :
    (s t : Bytes) (db : Rows) → Lacks b'L' s → rows_behind (s ++ t) db ≡ rows_behind t db
unfolding rows_behind
rows_behind-append [] t db h = refl
rows_behind-append (c ∷ s) t db (hc, h) = ground (arith, rows_behind-append s t db h)

-- The rows for a text behind the columns.
columns_lem :
    (col : Column) (cols : List Column) (s : Bytes) (db : Rows)
    → c_str s ≡ s
    → rows_of (c_str (front ++ (names col cols ++ s))) db ≡ rows_behind s db
columns_lem col cols s db h =
    ap (λ sql. rows_of sql db) (ordered_lem col cols s h)
    ∙ rows_lem (names col cols ++ s) db
    ∙ rows_behind-append (names col cols) s db (names-Lacks b'L' col cols (inr refl))

ordered_rows :
    (col : Column) (cols : List Column) (db : Rows) → rows_of (ordered_text col cols) db ≡ db
unfolding rows_behind codes
ordered_rows col cols db = columns_lem col cols (codes ";") db refl

window_rows :
    (offset limit : ℕ) (db : Rows)
    → rows_behind (window offset limit) db ≡ page_rows (decimal limit ++ behind offset) db
unfolding rows_behind codes
window_rows offset limit db = refl

sliced_rows :
    (col : Column) (cols : List Column) (offset limit : ℕ) (db : Rows)
    → rows_of (sliced_text col cols offset limit) db ≡ take limit (drop offset db)
unfolding to_string
sliced_rows col cols offset limit db =
    columns_lem col cols (window offset limit) db (window_lem offset limit)
    ∙ window_rows offset limit db
    ∙ page_rows_lem offset limit db

sliced-Slices : Slices sliced
sliced-Slices = record {
  prepares = λ sql sql' db. refl;
  ends = λ sql sql' db. refl;
  slices = λ col cols offset limit db apart.
      sliced_rows col cols offset limit db
      ∙ ap (λ rows. take limit (drop offset rows)) (sym (ordered_rows col cols db));
}

-- A row for each code, whose other columns are empty.
abbrev row : Bytes → Row
row text = some text ∷ none ∷ some (codes "1001") ∷ []

abbrev three_rows : Database Rows
three_rows = record {
  handle = some (row (codes "CS101") ∷ row (codes "MA101") ∷ row (codes "PH101") ∷ []);
  last_error = [];
}

three-Apart :
    Apart Column.code rest_of_key (
      sliced.rows all_text []
        (row (codes "CS101") ∷ row (codes "MA101") ∷ row (codes "PH101") ∷ []))
unfolding codes rows_of rows_behind
three-Apart = ground arith

pages-view_all_courses_example :
    (pages sliced 2 0 2 three_rows).0 ≡ (view_all_courses sliced three_rows).0
unfolding view_all_courses prepare_and_collect rows_of rows_behind codes
pages-view_all_courses_example =
    pages-view_all_courses sliced sliced-Slices (λ sql db. refl) 1 2 three_rows
      (row (codes "CS101") ∷ row (codes "MA101") ∷ row (codes "PH101") ∷ []) refl three-Apart
      (omega arith)
