-- ===== src/Wire/RoundTrip.antt =====
-- The client reads back what the server wrote.
use dcn1003_group.Base.{
  ℕ, ◌≡◌, ◌≢◌, refl, ap, false, List, [], ◌∷◌, ◌++◌, append-nil, arith, Bytes, Lacks, All,
  All-append, is_empty, length, map,
}
use dcn1003_group.Number.{decimal}
use dcn1003_group.Number.RoundTrip.{decimal-ne-nil, decimal-Lacks}
use dcn1003_group.Wire.{
  Course, field_sep, record_sep, course_record, course_records, serialize_courses, name_records,
  serialize_names, split, parse_records, parse_courses, keep_names, parse_names,
}
use dcn1003_group.Wire.Split.{separated, split-separated}

-- Neither separator stands in a field.
abbrev IsPlain : Bytes → Type 0
IsPlain s = Lacks field_sep s × Lacks record_sep s

pub record IsPlainCourse (c : Course) : Type 0 where
  pub code : IsPlain c.code
  pub title : IsPlain c.title
  pub section : IsPlain c.section
  pub instructor : IsPlain c.instructor
  pub day : IsPlain c.day
  pub duration : IsPlain c.duration
  pub semester : IsPlain c.semester
  pub classroom : IsPlain c.classroom

abbrev fields_behind : Course → List Bytes
fields_behind c =
    c.title ∷ c.section ∷ c.instructor ∷ c.day ∷ c.duration ∷ c.semester ∷ c.classroom ∷ []

course_record-separated :
    (c : Course) → course_record c ≡ c.code ++ separated field_sep (fields_behind c)
unfolding course_record
course_record-separated c = rw append-nil

split-course_record :
    (c : Course) → IsPlainCourse c → split (course_record c) field_sep ≡ c.code ∷ fields_behind c
split-course_record c h = rw course_record-separated (
    split-separated field_sep c.code (fields_behind c) h.code.0 (
      h.title.0,
      (
        h.section.0,
        (h.instructor.0, (h.day.0, (h.duration.0, (h.semester.0, (h.classroom.0, tt))))),
      ),
    ))

Lacks-cons_append : (b s : ℕ) (x y : Bytes) → s ≢ b → Lacks b x → Lacks b y → Lacks b (x ++ (s ∷ y))
Lacks-cons_append b s x y ne hx hy = All-append _ x (s ∷ y) hx (ne, hy)

course_record-Lacks : (c : Course) → IsPlainCourse c → Lacks record_sep (course_record c)
unfolding course_record
course_record-Lacks c h =
    let ne : field_sep ≢ record_sep = omega arith in
    Lacks-cons_append record_sep field_sep c.code _ ne h.code.1 (
      Lacks-cons_append record_sep field_sep c.title _ ne h.title.1 (
        Lacks-cons_append record_sep field_sep c.section _ ne h.section.1 (
          Lacks-cons_append record_sep field_sep c.instructor _ ne h.instructor.1 (
            Lacks-cons_append record_sep field_sep c.day _ ne h.day.1 (
              Lacks-cons_append record_sep field_sep c.duration _ ne h.duration.1 (
                Lacks-cons_append record_sep field_sep c.semester _ ne h.semester.1
                  h.classroom.1))))))

course_records-separated :
    (cs : List Course) → course_records cs ≡ separated record_sep (map course_record cs)
unfolding course_records
course_records-separated [] = refl
course_records-separated (c ∷ cs) = rw (course_records-separated cs)

map-Lacks :
    (cs : List Course) → All IsPlainCourse cs → All (Lacks record_sep) (map course_record cs)
map-Lacks [] h = tt
map-Lacks (c ∷ cs) (hc, hcs) = (course_record-Lacks c hc, map-Lacks cs hcs)

parse_records-map :
    (cs : List Course) → All IsPlainCourse cs → parse_records (map course_record cs) ≡ cs
unfolding parse_records
parse_records-map [] h = refl
parse_records-map (c ∷ cs) (hc, hcs) =
    rw (split-course_record c hc) (ap (λ rest. c ∷ rest) (parse_records-map cs hcs))

decimal-append_not_empty : (n : ℕ) (s : Bytes) → is_empty (decimal n ++ s) ≡ false
decimal-append_not_empty n s = not_empty (decimal n) (decimal-ne-nil n)
  where
    not_empty : (d : Bytes) → d ≢ [] → is_empty (d ++ s) ≡ false
    not_empty [] h = absurd (h refl)
    not_empty (x ∷ d) h = unfold is_empty in refl

-- What the server serializes is never empty.
pub serialize_courses_not_empty : (cs : List Course) → is_empty (serialize_courses cs) ≡ false
unfolding serialize_courses
serialize_courses_not_empty cs = decimal-append_not_empty (length cs) (course_records cs)

pub serialize_names_not_empty : (names : List Bytes) → is_empty (serialize_names names) ≡ false
unfolding serialize_names
serialize_names_not_empty names = decimal-append_not_empty (length names) (name_records names)

-- The client's `parse_courses` returns exactly the courses that the server serialized, if no field of
-- a course holds a separator byte.
pub parse_courses-serialize_courses :
    (cs : List Course) → All IsPlainCourse cs → parse_courses (serialize_courses cs) ≡ cs
unfolding parse_courses
parse_courses-serialize_courses cs h =
    rw (serialize_courses_not_empty cs) (rw split_eq (parse_records-map cs h))
  where
    split_eq : split (serialize_courses cs) record_sep ≡ decimal (length cs) ∷ map course_record cs
    split_eq =
        unfold serialize_courses in
        rw course_records-separated (
          split-separated record_sep _ _ (decimal-Lacks record_sep (length cs) (omega arith))
            (map-Lacks cs h))

-- A name that survives the listing.
abbrev IsListable : Bytes → Type 0
IsListable n = (n ≢ []) × Lacks record_sep n

name_records-separated : (names : List Bytes) → name_records names ≡ separated record_sep names
unfolding name_records
name_records-separated [] = refl
name_records-separated (n ∷ names) = rw (name_records-separated names)

names-Lacks : (names : List Bytes) → All IsListable names → All (Lacks record_sep) names
names-Lacks [] h = tt
names-Lacks (n ∷ names) (hn, hns) = (hn.1, names-Lacks names hns)

keep_names_listable : (names : List Bytes) → All IsListable names → keep_names names ≡ names
unfolding keep_names is_empty
keep_names_listable [] h = refl
keep_names_listable ([] ∷ names) h = absurd (h.0.0 refl)
keep_names_listable ((x ∷ n) ∷ names) h =
    ap (λ rest. (x ∷ n) ∷ rest) (keep_names_listable names h.1)

-- The client reads back the list of administrators, if every name is non-empty and lacks the record
-- separator.
pub parse_names-serialize_names :
    (names : List Bytes) → All IsListable names → parse_names (serialize_names names) ≡ names
unfolding parse_names serialize_names
parse_names-serialize_names names h = rw name_records-separated (
    rw
      (split-separated record_sep (decimal (length names)) names
        (decimal-Lacks record_sep (length names) (omega arith)) (names-Lacks names h))
      (keep_names_listable names h))
