-- ===== src/Server/Tests.antt =====
-- Requests to the server over repositories in memory, and the theorems there.
use dcn1003_group.Base.{
  ◌≢◌, ◌⊎◌, ℕ, ◌≤◌, ◌≡◌, refl, ap, List, [], ◌∷◌, Bytes, codes, bytes_eq, is_empty,
}
use dcn1003_group.Base.Int.{pos_part, neg_part}
use dcn1003_group.CmdType.{
  cmd_admin_update_req, cmd_admin_delete_req, cmd_login_req, cmd_login_resp, cmd_add_req,
  cmd_permission_err,
}
use dcn1003_group.Dispatch.{
  Role, new_session, MsgBody, Response, respond, Context, find_entry, run_entry, guard_exceptions,
  dispatch,
}
use dcn1003_group.Examples.Memory.{memory_courses, memory_admins}
use dcn1003_group.Server.Login.{handle_login}
use dcn1003_group.Server.AdminAccounts.{handle_admin_update, handle_admin_delete}
use dcn1003_group.Server.OwnAccount.{
  NameFollows, handle_admin_update-NameFollows, handle_admin_delete_keeps_own,
}
use dcn1003_group.Server.Query.{page_of}
use dcn1003_group.Server.Register.{register_all_server}
use dcn1003_group.Server.Responses.{IsSendable, dispatch-IsSendable}
use dcn1003_group.Server.Access.{serve_request, Entitled, admin_command_denied, serve-Entitled}
use dcn1003_group.Server.Session.{after, LoggedIn, admin_needs_login}
use dcn1003_group.Server.Pages.{page_of_bounds}

abbrev Ctx : Type 0
Ctx = Context memory_courses memory_admins

abbrev start : Ctx
start = record {
  session = new_session;
  courses = [];
  admins = record { username = codes "amy"; password = codes "pw" } ∷ [];
}

abbrev request : ℕ → List Bytes → MsgBody
request cmd fields = record { cmd_type = cmd; req_id = 1; timestamp = 0; payload = fields }

abbrev login : MsgBody
login = request cmd_login_req (codes "amy" ∷ codes "pw" ∷ [])

login_succeeds : serve_request memory_courses memory_admins login start ≡ (
  respond cmd_login_resp (codes "OK"),
  record start { session = record { role = Role.admin; name = codes "amy" } },
)
unfolding dispatch register_all_server find_entry run_entry guard_exceptions handle_login codes
    bytes_eq is_empty
login_succeeds = refl

dispatch-IsSendable_example :
    IsSendable
      (dispatch memory_courses memory_admins
        (register_all_server memory_courses memory_admins [])
        login
        start).0
dispatch-IsSendable_example = dispatch-IsSendable memory_courses memory_admins login start

admin_command_denied_example :
    serve_request memory_courses memory_admins (request cmd_add_req []) start
    ≡ (respond cmd_permission_err (codes "Insufficient permissions"), start)
admin_command_denied_example =
    admin_command_denied memory_courses memory_admins (request cmd_add_req []) start refl refl

serve-Entitled_example : Entitled memory_courses memory_admins login start
serve-Entitled_example =
    serve-Entitled memory_courses memory_admins login start
      (ap (λ (r : Response × Ctx). r.1.session.role) login_succeeds)

admin_needs_login_example : LoggedIn memory_courses memory_admins (login ∷ []) start
unfolding after
admin_needs_login_example =
    admin_needs_login memory_courses memory_admins (login ∷ []) start refl
      (ap (λ (r : Response × Ctx). r.1.session.role) login_succeeds)

page_of_bounds_example :
    (neg_part (page_of (codes "-5" ∷ codes "5000" ∷ [])).0 ≡ 0)
    × (neg_part (page_of (codes "-5" ∷ codes "5000" ∷ [])).1 ≡ 0)
    × (1 ≤ pos_part (page_of (codes "-5" ∷ codes "5000" ∷ [])).1)
    × (pos_part (page_of (codes "-5" ∷ codes "5000" ∷ [])).1 ≤ 1000)
page_of_bounds_example = page_of_bounds (codes "-5" ∷ codes "5000" ∷ [])

abbrev logged_in : Ctx
logged_in = record start { session = record { role = Role.admin; name = codes "amy" } }

abbrev new_name : MsgBody
new_name = request cmd_admin_update_req (codes "amy" ∷ codes "eve" ∷ codes "pw2" ∷ [])

handle_admin_update-NameFollows_example :
    NameFollows memory_courses memory_admins
      (codes "amy")
      (codes "eve")
      logged_in
      (handle_admin_update memory_courses memory_admins new_name logged_in).1
handle_admin_update-NameFollows_example =
    handle_admin_update-NameFollows memory_courses memory_admins new_name logged_in

abbrev removal : MsgBody
removal = request cmd_admin_delete_req (codes "amy" ∷ [])

handle_admin_delete_keeps_own_example :
    ((handle_admin_delete memory_courses memory_admins removal logged_in).1 ≡ logged_in)
    ⊎ ((codes "amy" ≢ codes "amy")
        × ((handle_admin_delete memory_courses memory_admins removal logged_in).1
            ≡ record logged_in {
              admins = (memory_admins.remove (codes "amy") logged_in.admins).1;
            }))
handle_admin_delete_keeps_own_example =
    handle_admin_delete_keeps_own memory_courses memory_admins removal logged_in
