-- ===== src/Server/Login.antt =====
-- `handle_login` and `handle_logout`.
use dcn1003_group.Base.{
  ◌||◌, Bool, true, false, [], ltb, if◌then◌else◌, Bytes, codes, is_empty, length,
}
use dcn1003_group.CmdType.{cmd_error, cmd_login_resp, cmd_ok}
use dcn1003_group.Repository.{CourseRepository, AdministratorRepository}
use dcn1003_group.Dispatch.{Role, json, respond, Outcome, returned, Context, HandlerFn}

module _ (c : CourseRepository) (a : AdministratorRepository) where
  -- What follows the call of `verify_login`.
  abbrev finish_login : Bytes → Bool × a.Repo → Context c a → Outcome × Context c a
  finish_login username (false, repo) w = (
    returned (respond cmd_error (codes "Invalid username or password")),
    record w { admins = repo },
  )
  finish_login username (true, repo) w = (
    returned (respond cmd_login_resp (codes "OK")),
    record w { session = record { role = Role.admin; name = username }; admins = repo },
  )

  unfoldable pub handle_login : HandlerFn c a
  handle_login body w =
      let p = body.payload in
      let username = json p 0 in
      let password = json p 1 in
      if ltb (length p) 2
      then (returned (respond cmd_error (codes "Login payload requires username and password")), w)
      else if is_empty username || is_empty password
      then (returned (respond cmd_error (codes "Username or password cannot be empty")), w)
      else finish_login username (a.verify_login username password w.admins) w

  unfoldable pub handle_logout : HandlerFn c a
  handle_logout body w = (
    returned (respond cmd_ok (codes "OK")),
    record w { session = record { role = Role.student; name = [] } },
  )
