-- ===== src/Wire.antt =====
-- The text of a response: `serialize_courses` and the list of administrators in
-- programs/Server/src/cmdreg.cpp, and `split`, `parse_courses` and the reading of that list in
-- programs/Client/src/cmdreg.cpp. `Course` is of driver/include/database.h.
pub mod Split
pub mod RoundTrip
mod Tests
use dcn1003_group.Base.{
  ℕ, Bool, true, false, List, [], ◌∷◌, ◌++◌, ltb, ◌==◌, if◌then◌else◌, Bytes, is_empty, length,
  get_or, drop,
}
use dcn1003_group.Number.{decimal}

pub record Course : Type 0 where
  pub code : Bytes
  pub title : Bytes
  pub section : Bytes
  pub instructor : Bytes
  pub day : Bytes
  pub duration : Bytes
  pub semester : Bytes
  pub classroom : Bytes

-- 0x1F stands between fields, 0x1E before each record.
abbrev pub field_sep : ℕ
field_sep = 0x1F

abbrev pub record_sep : ℕ
record_sep = 0x1E

pub course_record : Course → Bytes
course_record c =
    c.code
    ++ (field_sep
        ∷ (c.title
            ++ (field_sep
                ∷ (c.section
                    ++ (field_sep
                        ∷ (c.instructor
                            ++ (field_sep
                                ∷ (c.day
                                    ++ (field_sep
                                        ∷ (c.duration
                                            ++ (field_sep
                                                ∷ (c.semester
                                                    ++ (field_sep ∷ c.classroom)))))))))))))

pub course_records : List Course → Bytes
course_records [] = []
course_records (c ∷ cs) = record_sep ∷ (course_record c ++ course_records cs)

unfoldable pub serialize_courses : List Course → Bytes
unfolding course_record course_records
serialize_courses courses = decimal (length courses) ++ course_records courses

pub name_records : List Bytes → Bytes
name_records [] = []
name_records (n ∷ names) = record_sep ∷ (n ++ name_records names)

-- The payload that `handle_admin_list` builds.
unfoldable pub serialize_names : List Bytes → Bytes
unfolding name_records
serialize_names names = decimal (length names) ++ name_records names

-- The loop of `split`, over the parts so far and the current part.
pub split_loop : ℕ → Bytes → List Bytes → Bytes → List Bytes
split_loop sep [] out cur = out ++ cur ∷ []
split_loop sep (c ∷ s) out cur = elim (c == sep) [
  | true ↦ split_loop sep s (out ++ cur ∷ []) []
  | false ↦ split_loop sep s out (cur ++ c ∷ [])
]

unfoldable pub split : Bytes → ℕ → List Bytes
unfolding split_loop
split s sep = split_loop sep s [] []

-- `{f[0], f[1], f[2], f[3], f[4], f[5], f[6], f[7]}`
abbrev pub course_of_fields : List Bytes → Course
course_of_fields f = record {
  code = get_or f 0 [];
  title = get_or f 1 [];
  section = get_or f 2 [];
  instructor = get_or f 3 [];
  day = get_or f 4 [];
  duration = get_or f 5 [];
  semester = get_or f 6 [];
  classroom = get_or f 7 [];
}

-- The loop of `parse_courses`: a record of fewer than eight fields is skipped.
pub parse_records : List Bytes → List Course
parse_records [] = []
parse_records (r ∷ records) =
    let f = split r field_sep in
    let rest = parse_records records in if ltb (length f) 8 then rest else course_of_fields f ∷ rest

-- The loop starts at index 1: the first part is the count.
unfoldable pub parse_courses : Bytes → List Course
unfolding parse_records
parse_courses payload =
    if is_empty payload then [] else parse_records (drop 1 (split payload record_sep))

pub keep_names : List Bytes → List Bytes
keep_names [] = []
keep_names (r ∷ records) = let rest = keep_names records in if is_empty r then rest else r ∷ rest

-- How `send_and_recv` reads a list of administrators.
unfoldable pub parse_names : Bytes → List Bytes
unfolding keep_names
parse_names text = keep_names (drop 1 (split text record_sep))
