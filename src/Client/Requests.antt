-- ===== src/Client/Requests.antt =====
-- What the server makes of the client's requests.
use dcn1003_group.Base.{
  ◌≡◌, Bool, false, [], ◌∷◌, ◌++◌, arith, if◌then◌else◌, Bytes, codes, is_empty,
}
use dcn1003_group.CmdType.{
  cmd_query_by_code_req, cmd_query_resp, cmd_add_req, cmd_update_req, cmd_admin_resp,
  cmd_server_error,
}
use dcn1003_group.Wire.{Course, serialize_courses}
use dcn1003_group.Repository.{CourseRepository, AdministratorRepository}
use dcn1003_group.Dispatch.{
  Role, MsgBody, Response, respond, Context, find_entry, guard_exceptions, run_entry, dispatch,
}
use dcn1003_group.Server.Query.{handle_query_code}
use dcn1003_group.Server.CourseAdmin.{handle_add, handle_update}
use dcn1003_group.Server.Register.{register_all_server}
use dcn1003_group.Server.Access.{serve_request}
use dcn1003_group.Client.{course_fields}

module _ (c : CourseRepository) (a : AdministratorRepository) where
  -- The answer to a write and the state after it.
  abbrev pub answer_written : Bytes → Bool × c.Repo → Context c a → Response × Context c a
  answer_written failed r w = (
    if r.0
        then respond cmd_admin_resp (codes "OK")
        else respond cmd_server_error (failed ++ c.last_error r.1),
    record w { courses = r.1 },
  )

  -- What a client that is logged in sends for an addition reaches the repository as exactly the same
  -- course, if its code and its section are not empty, and nothing but the courses changes.
  pub serve-client_add :
      (course : Course) (body : MsgBody) (w : Context c a)
      → body.cmd_type ≡ cmd_add_req
      → body.payload ≡ course_fields course
      → w.session.role ≡ Role.admin
      → is_empty course.code ≡ false
      → is_empty course.section ≡ false
      → serve_request c a body w
        ≡ answer_written
            (codes "Failed to insert course: ")
            (c.insert_or_replace course w.courses)
            w
  unfolding dispatch register_all_server find_entry run_entry guard_exceptions handle_add
  serve-client_add course body w cmd sent role code section = ground arith

  -- What a client that is logged in sends for a change of a course reaches the repository as exactly
  -- the same course, if its code and its section are not empty, and nothing but the courses changes.
  pub serve-client_update :
      (course : Course) (body : MsgBody) (w : Context c a)
      → body.cmd_type ≡ cmd_update_req
      → body.payload ≡ course_fields course
      → w.session.role ≡ Role.admin
      → is_empty course.code ≡ false
      → is_empty course.section ≡ false
      → serve_request c a body w
        ≡ answer_written (codes "Failed to update course: ") (c.update course w.courses) w
  unfolding dispatch register_all_server find_entry run_entry guard_exceptions handle_update
  serve-client_update course body w cmd sent role code section = ground arith

  -- A query by code, from any session, is answered by the courses that the repository finds.
  pub serve-client_query_code :
      (code : Bytes) (body : MsgBody) (w : Context c a)
      → body.cmd_type ≡ cmd_query_by_code_req
      → body.payload ≡ code ∷ []
      → is_empty code ≡ false
      → serve_request c a body w ≡ (
        respond cmd_query_resp (serialize_courses (c.search_by_course_code code w.courses).0),
        record w { courses = (c.search_by_course_code code w.courses).1 },
      )
  unfolding dispatch register_all_server find_entry run_entry guard_exceptions handle_query_code
  serve-client_query_code code body w cmd sent filled = ground arith
