-- ===== src/Examples/Memory.antt =====
-- Repositories in memory, for the tests of the handlers.
use dcn1003_group.Base.{
  Bool, true, false, List, [], ◌∷◌, map, if◌then◌else◌, ◌&&◌, Bytes, codes, bytes_eq, take, drop,
}
use dcn1003_group.Base.Int.{pos_part}
use dcn1003_group.Wire.{Course}
use dcn1003_group.Repository.{Administrator, CourseRepository, AdministratorRepository}

abbrev keep_courses : (Course → Bool) → List Course → List Course
keep_courses test [] = []
keep_courses test (x ∷ xs) = if test x then x ∷ keep_courses test xs else keep_courses test xs

abbrev pub memory_courses : CourseRepository
memory_courses = record {
  Repo = List Course;
  insert_or_replace = λ x r. (true, x ∷ r);
  search_by_course_code = λ code r. (keep_courses (λ x. bytes_eq x.code code) r, r);
  search_by_instructor = λ name r. (keep_courses (λ x. bytes_eq x.instructor name) r, r);
  view_courses_by_semester = λ sem r. (keep_courses (λ x. bytes_eq x.semester sem) r, r);
  view_all_courses = λ r. (r, r);
  view_all_courses_paged = λ offset limit r. (take (pos_part limit) (drop (pos_part offset) r), r);
  delete_course = λ code section r. (true, r);
  update = λ x r. (false, r);
  last_error = λ r. codes "read only";
}

abbrev knows : Bytes → Bytes → List Administrator → Bool
knows name password [] = false
knows name password (x ∷ xs) =
    if bytes_eq x.username name && bytes_eq x.password password
    then true
    else knows name password xs

abbrev has_name : Bytes → List Administrator → Bool
has_name name [] = false
has_name name (x ∷ xs) = if bytes_eq x.username name then true else has_name name xs

abbrev pub memory_admins : AdministratorRepository
memory_admins = record {
  Repo = List Administrator;
  insert_or_replace = λ x r. (true, x ∷ r);
  verify_login = λ name password r. (knows name password r, r);
  list_usernames = λ r. (map (λ (x : Administrator). x.username) r, r);
  rename = λ old_name new_name r. (false, r);
  remove = λ name r. (false, r);
  exists = λ name r. has_name name r;
  last_error = λ r. codes "read only";
}
