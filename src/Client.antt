-- ===== src/Client.antt =====
-- programs/Client/src/cmdreg.cpp: the calls of the client, each of which sends a command and waits for
-- its response.
pub mod Requests
pub mod Exchange
pub mod Kept
mod Tests
use dcn1003_group.Base.{ℕ, Bool, not, ◌||◌, List, [], ◌∷◌, ◌++◌, ◌==◌, if◌then◌else◌, Bytes}
use dcn1003_group.Base.Int.{ℤ}
use dcn1003_group.CmdType.{
  cmd_login_req, cmd_logout_req, cmd_query_by_code_req, cmd_query_by_instructor_req,
  cmd_query_by_semester_req, cmd_view_all_req, cmd_view_all_page_req, cmd_query_resp, cmd_add_req,
  cmd_update_req, cmd_delete_req, cmd_admin_list_req, cmd_admin_create_req, cmd_admin_update_req,
  cmd_admin_delete_req, cmd_admin_list_resp, cmd_error, cmd_permission_err, cmd_server_error,
}
use dcn1003_group.Error.{ErrorInfo, is_success}
use dcn1003_group.Number.{to_string}
use dcn1003_group.Wire.{Course, parse_courses, parse_names}
use dcn1003_group.Dispatch.{MsgBody, json}
use dcn1003_group.Platform.{Platform}
use dcn1003_group.Protocol.{Process, received, package_send_fields, package_receive}

pub record ClientResponse : Type 0 where
  pub cmd_type : ℕ
  pub text : Bytes
  pub courses : List Course
  pub admins : List Bytes

abbrev pub new_response : ClientResponse
new_response = record { cmd_type = 0; text = []; courses = []; admins = [] }

abbrev pub is_error : ClientResponse → Bool
is_error r =
    r.cmd_type == cmd_error || r.cmd_type == cmd_permission_err || r.cmd_type == cmd_server_error

abbrev pub is_data : ClientResponse → Bool
is_data r = r.cmd_type == cmd_query_resp

abbrev pub is_admin_list : ClientResponse → Bool
is_admin_list r = r.cmd_type == cmd_admin_list_resp

-- `{c.code, c.title, …}`
abbrev pub course_fields : Course → List Bytes
course_fields c =
    c.code ∷ c.title ∷ c.section ∷ c.instructor ∷ c.day ∷ c.duration ∷ c.semester ∷ c.classroom ∷ []

-- What `send_and_recv` writes into its response. The names of a list come behind those that are there.
unfoldable pub read_response : MsgBody → ClientResponse → ClientResponse
read_response body out =
    let text = json body.payload 0 in
    let read = record out { cmd_type = body.cmd_type; text = text } in
    if body.cmd_type == cmd_query_resp
    then record read { courses = parse_courses text }
    else if body.cmd_type == cmd_admin_list_resp
    then record read { admins = out.admins ++ parse_names text }
    else read

module _ (p : Platform) (s : ℕ) where
  -- The result of a call of the client: its error, the response, and the process.
  abbrev pub Call : Type 0
  Call = ClientResponse → Process p → ErrorInfo × ClientResponse × Process p

  unfoldable pub send_and_recv : List Bytes → ℕ → Call
  send_and_recv fields cmd out h =
      let (err, h1) = package_send_fields p s fields cmd h in
      let (err', msg, h2) = package_receive p s h1 in
      if not (is_success err)
      then (err, out, h1)
      else if not (is_success err')
      then (err', out, h2)
      else (err', read_response (received msg) out, h2)

  abbrev pub client_login : Bytes → Bytes → Call
  client_login user pass = send_and_recv (user ∷ pass ∷ []) cmd_login_req

  abbrev pub client_logout : Call
  client_logout = send_and_recv [] cmd_logout_req

  abbrev pub client_query_code : Bytes → Call
  client_query_code code = send_and_recv (code ∷ []) cmd_query_by_code_req

  abbrev pub client_query_instructor : Bytes → Call
  client_query_instructor name = send_and_recv (name ∷ []) cmd_query_by_instructor_req

  abbrev pub client_query_semester : Bytes → Call
  client_query_semester sem = send_and_recv (sem ∷ []) cmd_query_by_semester_req

  abbrev pub client_view_all : Call
  client_view_all = send_and_recv [] cmd_view_all_req

  abbrev pub client_view_all_page : ℤ → ℤ → Call
  client_view_all_page offset limit =
      send_and_recv (to_string offset ∷ to_string limit ∷ []) cmd_view_all_page_req

  abbrev pub client_add : Course → Call
  client_add c = send_and_recv (course_fields c) cmd_add_req

  abbrev pub client_update : Course → Call
  client_update c = send_and_recv (course_fields c) cmd_update_req

  abbrev pub client_delete : Bytes → Bytes → Call
  client_delete code section = send_and_recv (code ∷ section ∷ []) cmd_delete_req

  abbrev pub client_admin_list : Call
  client_admin_list = send_and_recv [] cmd_admin_list_req

  abbrev pub client_admin_create : Bytes → Bytes → Call
  client_admin_create user pass = send_and_recv (user ∷ pass ∷ []) cmd_admin_create_req

  abbrev pub client_admin_update : Bytes → Bytes → Bytes → Call
  client_admin_update old_user new_user new_pass =
      send_and_recv (old_user ∷ new_user ∷ new_pass ∷ []) cmd_admin_update_req

  abbrev pub client_admin_delete : Bytes → Call
  client_admin_delete user = send_and_recv (user ∷ []) cmd_admin_delete_req
