-- ===== src/Server/AdminAccounts.antt =====
-- `handle_admin_list`, `handle_admin_create`, `handle_admin_update` and `handle_admin_delete`.
use dcn1003_group.Base.{
  Bool, true, false, not, ◌||◌, ◌++◌, ltb, if◌then◌else◌, Bytes, codes, bytes_eq, is_empty, length,
}
use dcn1003_group.CmdType.{cmd_error, cmd_server_error, cmd_admin_resp, cmd_admin_list_resp}
use dcn1003_group.Wire.{serialize_names}
use dcn1003_group.Repository.{CourseRepository, AdministratorRepository}
use dcn1003_group.Dispatch.{Session, json, respond, Outcome, returned, Context, HandlerFn}
use dcn1003_group.Server.Query.{field_at}

module _ (c : CourseRepository) (a : AdministratorRepository) where
  unfoldable pub handle_admin_list : HandlerFn c a
  handle_admin_list body w =
      let (names, repo) = a.list_usernames w.admins in
      (returned (respond cmd_admin_list_resp (serialize_names names)), record w { admins = repo })

  -- What follows the write of a new account.
  abbrev account_written : Bool × a.Repo → Context c a → Outcome × Context c a
  account_written (false, repo) w = (
    returned (respond cmd_server_error (codes "Create admin failed: " ++ a.last_error repo)),
    record w { admins = repo },
  )
  account_written (true, repo) w =
      (returned (respond cmd_admin_resp (codes "OK")), record w { admins = repo })

  unfoldable pub handle_admin_create : HandlerFn c a
  handle_admin_create body w =
      let p = body.payload in
      let username = json p 0 in
      let password = json p 1 in
      if ltb (length p) 2
      then (returned (respond cmd_error (codes "Admin create requires username and password")), w)
      else if is_empty username || is_empty password
      then (returned (respond cmd_error (codes "Username or password cannot be empty")), w)
      else if a.exists username w.admins
      then (returned (respond cmd_error (codes "Username already exists")), w)
      else account_written
          (a.insert_or_replace (record { username = username; password = password }) w.admins) w

  -- `if (ctx.session.name == old_name) ctx.session.name = new_name;`
  abbrev sync_name : Bytes → Bytes → Session → Session
  sync_name old_name new_name s =
      if bytes_eq s.name old_name then record s { name = new_name } else s

  abbrev pub finish_update : Bytes → Bytes → Context c a → Outcome × Context c a
  finish_update old_name new_name w = (
    returned (respond cmd_admin_resp (codes "OK")),
    record w { session = sync_name old_name new_name w.session },
  )

  abbrev pub password_written : Bytes → Bytes → Bool × a.Repo → Context c a → Outcome × Context c a
  password_written old_name new_name (false, repo) w = (
    returned (respond cmd_server_error (codes "Password update failed: " ++ a.last_error repo)),
    record w { admins = repo },
  )
  password_written old_name new_name (true, repo) w =
      finish_update old_name new_name (record w { admins = repo })

  -- The part after the rename: an empty new password keeps the old one.
  abbrev pub update_password : Bytes → Bytes → Bytes → Context c a → Outcome × Context c a
  update_password old_name new_name new_pass w =
      if is_empty new_pass
      then finish_update old_name new_name w
      else password_written old_name new_name
          (a.insert_or_replace (record { username = new_name; password = new_pass }) w.admins) w

  abbrev pub renamed : Bytes → Bytes → Bytes → Bool × a.Repo → Context c a → Outcome × Context c a
  renamed old_name new_name new_pass (false, repo) w = (
    returned (respond cmd_error (codes "Rename failed: " ++ a.last_error repo)),
    record w { admins = repo },
  )
  renamed old_name new_name new_pass (true, repo) w =
      update_password old_name new_name new_pass (record w { admins = repo })

  unfoldable pub handle_admin_update : HandlerFn c a
  handle_admin_update body w =
      let p = body.payload in
      let old_name = json p 0 in
      let new_name = json p 1 in
      let new_pass = json p 2 in
      if ltb (length p) 3
      then (
        returned (
            respond cmd_error
              (codes "Admin update requires old_username, new_username, new_password")),
        w,
      )
      else if is_empty old_name || is_empty new_name
      then (returned (respond cmd_error (codes "Old/new username cannot be empty")), w)
      else if not (a.exists old_name w.admins)
      then (returned (respond cmd_error (codes "Old username not found")), w)
      else if bytes_eq old_name new_name
      then update_password old_name new_name new_pass w
      else renamed old_name new_name new_pass (a.rename old_name new_name w.admins) w

  abbrev account_removed : Bool × a.Repo → Context c a → Outcome × Context c a
  account_removed (false, repo) w = (
    returned (respond cmd_error (codes "Delete failed: " ++ a.last_error repo)),
    record w { admins = repo },
  )
  account_removed (true, repo) w =
      (returned (respond cmd_admin_resp (codes "OK")), record w { admins = repo })

  unfoldable pub handle_admin_delete : HandlerFn c a
  handle_admin_delete body w =
      let name = field_at body.payload 0 in
      if is_empty name
      then (returned (respond cmd_error (codes "Username required")), w)
      else if bytes_eq name w.session.name
      then (returned (respond cmd_error (codes "Cannot delete yourself")), w)
      else account_removed (a.remove name w.admins) w
