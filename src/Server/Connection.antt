-- ===== src/Server/Connection.antt =====
-- `send_response_s` of driver/src/CmdHandler.cpp and the loop of `handle_client` in
-- programs/Server/src/server_main.cpp.
pub mod Trace
pub mod Ends
mod Tests
use dcn1003_group.Base.{
  ℕ, zero, suc, Bool, true, false, not, [], Option, none, some, if◌then◌else◌, codes, is_empty,
}
use dcn1003_group.CmdType.{is_s2c, is_c2s}
use dcn1003_group.Error.{ErrorCode, ErrorInfo, no_error, is_success}
use dcn1003_group.Repository.{CourseRepository, AdministratorRepository}
use dcn1003_group.Dispatch.{Response, new_session, MsgBody, Context, Dispatcher, dispatch}
use dcn1003_group.Platform.{Platform}
use dcn1003_group.Protocol.{Process, fail, received, package_send, package_receive}

module _ (p : Platform) (s : ℕ) where
  abbrev response_sent : ErrorInfo × Process p → ErrorInfo × Process p
  response_sent (err, h) =
      if is_success err
      then (no_error, h)
      else (fail ErrorCode.send_err (codes "Failed to send response"), h)

  unfoldable pub send_response_s : Response → Process p → ErrorInfo × Process p
  send_response_s resp h =
      if not (is_s2c resp.cmd_type)
      then (fail ErrorCode.cmd_err (codes "Response cmd_type must be S2C"), h)
      else if is_empty resp.payload
      then (fail ErrorCode.dispatch_err (codes "Response payload is empty"), h)
      else response_sent (package_send p s resp.payload resp.cmd_type h)

  unfoldable pub send_response_c : Response → Process p → ErrorInfo × Process p
  send_response_c resp h =
      if not (is_c2s resp.cmd_type)
      then (fail ErrorCode.cmd_err (codes "Response cmd_type must be C2S"), h)
      else if is_empty resp.payload
      then (fail ErrorCode.dispatch_err (codes "Response payload is empty"), h)
      else response_sent (package_send p s resp.payload resp.cmd_type h)

module _ (p : Platform) (c : CourseRepository) (a : AdministratorRepository) where
  -- The state of a connection's thread: its context, and the process.
  abbrev pub Thread : Type 0
  Thread = Context c a × Process p

-- `Session_t session;` beside the repositories that every connection shares.
abbrev pub opened :
    (c : CourseRepository) (a : AdministratorRepository) → c.Repo → a.Repo → Context c a
opened c a courses admins = record { session = new_session; courses = courses; admins = admins }

module _ (p : Platform) (s : ℕ) (c : CourseRepository) (a : AdministratorRepository)
    (table : Dispatcher c a) where
  -- After a response was sent, the loop goes on or breaks.
  unfoldable pub after_response :
      (Thread p c a → Option (Thread p c a))
      → Context c a
      → ErrorInfo × Process p
      → Option (Thread p c a)
  after_response loop w (err, h) = elim (is_success err) [
    | true ↦ loop (w, h)
    | false ↦ some (w, h)
  ]

  -- One message was received: dispatch it and send the response.
  unfoldable pub answer :
      (Thread p c a → Option (Thread p c a)) → MsgBody → Thread p c a → Option (Thread p c a)
  answer loop body (w, h) =
      let (resp, w') = dispatch c a table body w in
      after_response loop w' (send_response_s p s resp h)

  -- After a receive: an error ends the loop.
  unfoldable pub after_receive :
      (Thread p c a → Option (Thread p c a))
      → Context c a
      → ErrorInfo × Option MsgBody × Process p
      → Option (Thread p c a)
  after_receive loop w (err, msg, h) = elim (is_success err) [
    | true ↦ answer loop (received msg) (w, h)
    | false ↦ some (w, h)
  ]

  -- The loop of `handle_client`; `none` means that the fuel ran out.
  unfoldable pub client_loop : ℕ → Thread p c a → Option (Thread p c a)
  client_loop zero t = none
  client_loop (suc fuel) (w, h) = after_receive (client_loop fuel) w (package_receive p s h)

  unfoldable pub handle_client : ℕ → c.Repo → a.Repo → Process p → Option (Thread p c a)
  handle_client fuel courses admins h = client_loop fuel (opened c a courses admins, h)
