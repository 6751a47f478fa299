-- ===== src/Server/Query.antt =====
-- The handlers that only read courses.
use dcn1003_group.Base.{
  ℕ, ◌||◌, Option, none, some, List, ltb, if◌then◌else◌, Bytes, codes, is_empty, length,
}
use dcn1003_group.Base.Int.{ℤ, pos, ltb_ℤ, leb_ℤ}
use dcn1003_group.CmdType.{cmd_error, cmd_query_resp}
use dcn1003_group.Number.{stoi}
use dcn1003_group.Wire.{Course, serialize_courses}
use dcn1003_group.Repository.{CourseRepository, AdministratorRepository}
use dcn1003_group.Dispatch.{Payload, json, respond, Outcome, returned, Context, HandlerFn}

-- An absent position is the empty string.
abbrev pub field_at : Payload → ℕ → Bytes
field_at = json

abbrev int_or : Option ℤ → ℤ → ℤ
int_or none d = d
int_or (some z) d = z

-- `if (limit <= 0 || limit > 1000) limit = 200;`
abbrev clamp_limit : ℤ → ℤ
clamp_limit limit = if leb_ℤ limit (pos 0) || ltb_ℤ (pos 1000) limit then pos 200 else limit

-- `if (offset < 0) offset = 0;`
abbrev clamp_offset : ℤ → ℤ
clamp_offset offset = if ltb_ℤ offset (pos 0) then pos 0 else offset

-- The offset and the limit that `handle_view_all_page` settles on; an exception of `stoi` leaves the
-- default.
unfoldable pub page_of : Payload → ℤ × ℤ
page_of p = (
  clamp_offset (if ltb (length p) 1 then pos 0 else int_or (stoi (json p 0)) (pos 0)),
  clamp_limit (if ltb (length p) 2 then pos 200 else int_or (stoi (json p 1)) (pos 200)),
)

module _ (c : CourseRepository) (a : AdministratorRepository) where
  -- A response with the courses that a query found.
  abbrev found_courses : List Course × c.Repo → Context c a → Outcome × Context c a
  found_courses (courses, repo) w =
      (returned (respond cmd_query_resp (serialize_courses courses)), record w { courses = repo })

  unfoldable pub handle_query_code : HandlerFn c a
  handle_query_code body w =
      let code = field_at body.payload 0 in
      if is_empty code
      then (returned (respond cmd_error (codes "Course code required")), w)
      else found_courses (c.search_by_course_code code w.courses) w

  unfoldable pub handle_query_instructor : HandlerFn c a
  handle_query_instructor body w =
      let instructor = field_at body.payload 0 in
      if is_empty instructor
      then (returned (respond cmd_error (codes "Instructor name required")), w)
      else found_courses (c.search_by_instructor instructor w.courses) w

  unfoldable pub handle_query_semester : HandlerFn c a
  handle_query_semester body w =
      let semester = field_at body.payload 0 in
      if is_empty semester
      then (returned (respond cmd_error (codes "Semester required")), w)
      else found_courses (c.view_courses_by_semester semester w.courses) w

  unfoldable pub handle_view_all : HandlerFn c a
  handle_view_all body w = found_courses (c.view_all_courses w.courses) w

  unfoldable pub handle_view_all_page : HandlerFn c a
  unfolding page_of
  handle_view_all_page body w =
      let (offset, limit) = page_of body.payload in
      found_courses (c.view_all_courses_paged offset limit w.courses) w
