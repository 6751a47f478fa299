-- ===== src/Server/CourseAdmin.antt =====
-- `handle_add`, `handle_update` and `handle_delete`.
use dcn1003_group.Base.{
  Bool, true, false, ◌||◌, ◌++◌, ltb, if◌then◌else◌, Bytes, codes, is_empty, length,
}
use dcn1003_group.CmdType.{cmd_error, cmd_server_error, cmd_admin_resp}
use dcn1003_group.Wire.{course_of_fields}
use dcn1003_group.Repository.{CourseRepository, AdministratorRepository}
use dcn1003_group.Dispatch.{json, respond, Outcome, returned, Context, HandlerFn}

module _ (c : CourseRepository) (a : AdministratorRepository) where
  -- The response to a write; a failure shows the repository's last error behind `failed`.
  abbrev pub written : Bytes → Bool × c.Repo → Context c a → Outcome × Context c a
  written failed (false, repo) w = (
    returned (respond cmd_server_error (failed ++ c.last_error repo)),
    record w { courses = repo },
  )
  written failed (true, repo) w =
      (returned (respond cmd_admin_resp (codes "OK")), record w { courses = repo })

  unfoldable pub handle_add : HandlerFn c a
  handle_add body w =
      let p = body.payload in
      let course = course_of_fields p in
      if ltb (length p) 8
      then (
        returned (
            respond cmd_error (
              codes
                "Add requires 8 fields (code/title/section/instructor/day/duration/semester/classroom)")),
        w,
      )
      else if is_empty course.code || is_empty course.section
      then (returned (respond cmd_error (codes "Course code and section cannot be empty")), w)
      else written (codes "Failed to insert course: ") (c.insert_or_replace course w.courses) w

  unfoldable pub handle_update : HandlerFn c a
  handle_update body w =
      let p = body.payload in
      let course = course_of_fields p in
      if ltb (length p) 8
      then (returned (respond cmd_error (codes "Update requires 8 fields")), w)
      else if is_empty course.code || is_empty course.section
      then (returned (respond cmd_error (codes "Course code and section cannot be empty")), w)
      else written (codes "Failed to update course: ") (c.update course w.courses) w

  unfoldable pub handle_delete : HandlerFn c a
  handle_delete body w =
      let p = body.payload in
      let code = json p 0 in
      let section = json p 1 in
      if ltb (length p) 2
      then (returned (respond cmd_error (codes "Delete requires code and section")), w)
      else if is_empty code || is_empty section
      then (returned (respond cmd_error (codes "Course code and section cannot be empty")), w)
      else written (codes "Failed to delete course: ") (c.delete_course code section w.courses) w
