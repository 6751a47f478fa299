-- ===== src/Server/Access.antt =====
-- Who may do what: the commands of an administrator, and how a session becomes one.
use dcn1003_group.Base.{
  ℕ, ◌≤◌, ◌≡◌, ◌≢◌, refl, sym, ◌∙◌, Bool, true, false, ◌||◌, ◌⊎◌, inl, inr, none, some, [], arith,
  ◌==◌, ltb, Bool-cases, Option-cases, codes, is_empty, length,
}
use dcn1003_group.CmdType.{
  cmd_logout_req, cmd_query_by_code_req, cmd_query_by_instructor_req, cmd_query_by_semester_req,
  cmd_view_all_req, cmd_view_all_page_req, cmd_login_req, cmd_add_req, cmd_update_req,
  cmd_delete_req, cmd_admin_list_req, cmd_admin_create_req, cmd_admin_update_req,
  cmd_admin_delete_req, cmd_permission_err,
}
use dcn1003_group.Repository.{CourseRepository, AdministratorRepository}
use dcn1003_group.Dispatch.{
  Role, MsgBody, json, Response, respond, Outcome, returned, thrown, Context, HandlerFn, Entry,
  role_code, find_entry, guard_exceptions, run_entry, dispatch,
}
use dcn1003_group.Dispatch.Table.{AllEntries, AllEntries-find_entry}
use dcn1003_group.Server.Login.{handle_login, handle_logout}
use dcn1003_group.Server.Query.{
  handle_query_code, handle_query_instructor, handle_query_semester, handle_view_all,
  handle_view_all_page,
}
use dcn1003_group.Server.CourseAdmin.{handle_add, handle_update, handle_delete}
use dcn1003_group.Server.AdminAccounts.{
  handle_admin_list, handle_admin_create, handle_admin_update, handle_admin_delete,
}
use dcn1003_group.Server.Register.{register_all_server}

-- The commands that the protocol reserves to administrators.
abbrev pub is_admin_command : ℕ → Bool
is_admin_command cmd =
    cmd == cmd_add_req
    || cmd == cmd_update_req
    || cmd == cmd_delete_req
    || cmd == cmd_admin_list_req
    || cmd == cmd_admin_create_req
    || cmd == cmd_admin_update_req
    || cmd == cmd_admin_delete_req

module _ (c : CourseRepository) (a : AdministratorRepository) where
  abbrev pub serve_request : MsgBody → Context c a → Response × Context c a
  serve_request = dispatch c a (register_all_server c a [])

  -- A session that is not an administrator's gets "Insufficient permissions" for each of the seven
  -- administrator's commands, and neither the session nor a repository changes.
  pub admin_command_denied :
      (body : MsgBody) (w : Context c a)
      → is_admin_command body.cmd_type ≡ true
      → w.session.role ≡ Role.student
      → serve_request body w ≡ (respond cmd_permission_err (codes "Insufficient permissions"), w)
  unfolding dispatch register_all_server find_entry run_entry
  admin_command_denied body w h r = ground arith

  -- The request is a login whose two fields, both non-empty, `verify_login` accepts in this state.
  pub record IsLogin (body : MsgBody) (w : Context c a) : Type 0 where
    pub command : body.cmd_type ≡ cmd_login_req
    pub fields : 2 ≤ length body.payload
    pub username : is_empty (json body.payload 0) ≡ false
    pub password : is_empty (json body.payload 1) ≡ false
    pub verified : (a.verify_login (json body.payload 0) (json body.payload 1) w.admins).0 ≡ true

  -- Why the session is an administrator's after a request that it made in the state `w`.
  abbrev pub Entitled : MsgBody → Context c a → Type 0
  Entitled body w =
      ((w.session.role ≡ Role.admin) × (body.cmd_type ≢ cmd_logout_req)) ⊎ IsLogin body w

  abbrev Justified : ℕ → Entry c a → Type 0
  Justified cmd e =
      (body : MsgBody) (w : Context c a)
      → body.cmd_type ≡ cmd
      → (e.fn body w).1.session.role ≡ Role.admin
      → Entitled body w

  abbrev JustifiedFn : ℕ → HandlerFn c a → Type 0
  JustifiedFn cmd fn =
      (body : MsgBody) (w : Context c a)
      → body.cmd_type ≡ cmd
      → (fn body w).1.session.role ≡ Role.admin
      → Entitled body w

  login-Justified : JustifiedFn cmd_login_req (handle_login c a)
  unfolding handle_login
  login-Justified body w k h = ground arith

  logout-Justified : JustifiedFn cmd_logout_req (handle_logout c a)
  unfolding handle_logout
  logout-Justified body w k h = ground arith

  query_code-Justified : JustifiedFn cmd_query_by_code_req (handle_query_code c a)
  unfolding handle_query_code
  query_code-Justified body w k h = ground arith

  query_instructor-Justified : JustifiedFn cmd_query_by_instructor_req (handle_query_instructor c a)
  unfolding handle_query_instructor
  query_instructor-Justified body w k h = ground arith

  query_semester-Justified : JustifiedFn cmd_query_by_semester_req (handle_query_semester c a)
  unfolding handle_query_semester
  query_semester-Justified body w k h = ground arith

  view_all-Justified : JustifiedFn cmd_view_all_req (handle_view_all c a)
  unfolding handle_view_all
  view_all-Justified body w k h = ground arith

  view_all_page-Justified : JustifiedFn cmd_view_all_page_req (handle_view_all_page c a)
  unfolding handle_view_all_page
  view_all_page-Justified body w k h = ground arith

  add-Justified : JustifiedFn cmd_add_req (handle_add c a)
  unfolding handle_add
  add-Justified body w k h = ground arith

  update-Justified : JustifiedFn cmd_update_req (handle_update c a)
  unfolding handle_update
  update-Justified body w k h = ground arith

  delete-Justified : JustifiedFn cmd_delete_req (handle_delete c a)
  unfolding handle_delete
  delete-Justified body w k h = ground arith

  admin_list-Justified : JustifiedFn cmd_admin_list_req (handle_admin_list c a)
  unfolding handle_admin_list
  admin_list-Justified body w k h = ground arith

  admin_create-Justified : JustifiedFn cmd_admin_create_req (handle_admin_create c a)
  unfolding handle_admin_create
  admin_create-Justified body w k h = ground arith

  admin_update-Justified : JustifiedFn cmd_admin_update_req (handle_admin_update c a)
  unfolding handle_admin_update
  admin_update-Justified body w k h = ground arith

  admin_delete-Justified : JustifiedFn cmd_admin_delete_req (handle_admin_delete c a)
  unfolding handle_admin_delete
  admin_delete-Justified body w k h = ground arith

  server-Justified : AllEntries c a Justified (register_all_server c a [])
  unfolding register_all_server
  server-Justified = (
    login-Justified,
    (
      logout-Justified,
      (
        query_code-Justified,
        (
          query_instructor-Justified,
          (
            query_semester-Justified,
            (
              view_all-Justified,
              (
                view_all_page-Justified,
                (
                  add-Justified,
                  (
                    update-Justified,
                    (
                      delete-Justified,
                      (
                        admin_list-Justified,
                        (
                          admin_create-Justified,
                          (admin_update-Justified, (admin_delete-Justified, tt)),
                        ),
                      ),
                    ),
                  ),
                ),
              ),
            ),
          ),
        ),
      ),
    ),
  )

  guard_role :
      (r : Outcome × Context c a) → (guard_exceptions c a r).1.session.role ≡ r.1.session.role
  unfolding guard_exceptions
  guard_role (returned resp, w) = refl
  guard_role (thrown what, w) = refl

  entry-Entitled :
      (e : Entry c a) (body : MsgBody) (w : Context c a)
      → ((e.fn body w).1.session.role ≡ Role.admin → Entitled body w)
      → (run_entry c a (some e) body w).1.session.role ≡ Role.admin
      → Entitled body w
  unfolding run_entry
  entry-Entitled e body w step h =
      elim (Bool-cases (ltb (role_code w.session.role) (role_code e.required))) [
        | inl denied ↦ absurd (no_denial e.required w.session.role denied (rw denied at h))
        | inr allowed ↦ step (sym (guard_role (e.fn body w)) ∙ (rw allowed at h))
      ]
    where
      no_denial :
          (required role : Role)
          → ltb (role_code role) (role_code required) ≡ true
          → role ≢ Role.admin
      no_denial required role denied e = ground arith

  logout_known :
      (body : MsgBody)
      → find_entry c a body.cmd_type (register_all_server c a []) ≡ none
      → body.cmd_type ≢ cmd_logout_req
  unfolding find_entry register_all_server
  logout_known body unknown k = ground arith

  -- A session is an administrator's after a request only if it was one before and the request is not
  -- a logout, or if the request is a login with two non-empty fields that `verify_login` accepts.
  pub serve-Entitled :
      (body : MsgBody) (w : Context c a)
      → (serve_request body w).1.session.role ≡ Role.admin
      → Entitled body w
  unfolding dispatch
  serve-Entitled body w h =
      elim (Option-cases (find_entry c a body.cmd_type (register_all_server c a []))) [
        | inl unknown ↦ inl (unfold run_entry in rw unknown at h, logout_known body unknown)
        | inr (e, found) ↦
            entry-Entitled e body w
              (AllEntries-find_entry c a Justified body.cmd_type e _ server-Justified found body w
                refl)
              (rw found at h)
      ]
