-- ===== src/Server/Threads/Tests.antt =====
-- Two clients over repositories in memory, whose requests alternate.
use dcn1003_group.Base.{◌≡◌, refl, some, [], ◌∷◌, List, Bytes, codes, bytes_eq, is_empty, ℕ}
use dcn1003_group.CmdType.{cmd_login_req, cmd_view_all_req}
use dcn1003_group.Dispatch.{
  Role, new_session, MsgBody, find_entry, run_entry, guard_exceptions, dispatch,
}
use dcn1003_group.Server.Login.{handle_login}
use dcn1003_group.Server.Query.{handle_view_all}
use dcn1003_group.Server.Register.{register_all_server}
use dcn1003_group.Repository.{Administrator}
use dcn1003_group.Examples.Memory.{memory_courses, memory_admins}
use dcn1003_group.Server.Threads.{
  Shared, put, no_threads, began, served, begins, serves, Steps, start, after,
}
use dcn1003_group.Server.Threads.Sessions.{LoggedIn, admin-LoggedIn}

abbrev amy : Administrator
amy = record { username = codes "amy"; password = codes "pw" }

abbrev State : Type 0
State = Shared memory_courses memory_admins

abbrev request : ℕ → List Bytes → MsgBody
request cmd fields = record { cmd_type = cmd; req_id = 1; timestamp = 0; payload = fields }

abbrev login : MsgBody
login = request cmd_login_req (codes "amy" ∷ codes "pw" ∷ [])

abbrev view : MsgBody
view = request cmd_view_all_req []

abbrev two_threads : State
two_threads =
    began memory_courses memory_admins 2
      (began memory_courses memory_admins 1 (no_threads memory_courses memory_admins [] (amy ∷ [])))

abbrev first_logged_in : State
first_logged_in = (served memory_courses memory_admins 1 new_session login two_threads).1

abbrev second_viewed : State
second_viewed = (served memory_courses memory_admins 2 new_session view first_logged_in).1

path :
    Steps memory_courses memory_admins
      (no_threads memory_courses memory_admins [] (amy ∷ []))
      second_viewed
unfolding began served put
path =
    after
      (after (after (after start (begins 1 _ refl)) (begins 2 _ refl))
        (serves 1 new_session login _ refl))
      (serves 2 new_session view _ refl)

amy_session : second_viewed.sessions 1 ≡ some (record { role = Role.admin; name = codes "amy" })
unfolding began served put dispatch register_all_server find_entry run_entry guard_exceptions
    handle_login handle_view_all codes bytes_eq is_empty
amy_session = refl

admin-LoggedIn_example : LoggedIn memory_courses memory_admins 1 path
unfolding began served put dispatch register_all_server find_entry run_entry guard_exceptions
    handle_login handle_view_all codes bytes_eq is_empty
admin-LoggedIn_example =
    admin-LoggedIn memory_courses memory_admins 1 [] (amy ∷ []) second_viewed path refl
