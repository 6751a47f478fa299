-- ===== src/Bridge.antt =====
-- The client's bridge, `BridgeSession` and `run_bridge` of programs/Client/src/client_main.cpp: each
-- request is a line of fields, and each answer a line on the standard output.
pub mod Answers
pub mod Sockets
mod Tests
use dcn1003_group.Base.{
  ℕ, Bool, true, false, Option, none, some, List, [], ◌∷◌, ◌++◌, ltb, if◌then◌else◌, Bytes, codes,
  bytes_eq, is_empty, length, get_or, drop,
}
use dcn1003_group.Base.Int.{ℤ}
use dcn1003_group.Error.{ErrorInfo, no_error, is_success}
use dcn1003_group.Number.{atoi}
use dcn1003_group.Wire.{course_of_fields}
use dcn1003_group.Platform.{Platform}
use dcn1003_group.Protocol.{Process}
use dcn1003_group.Connect.{Winsock, Handler, close_valid, connect_to}
use dcn1003_group.Tsv.{tsv_split, join_courses_tsv, join_names_tsv}
use dcn1003_group.Client.{
  ClientResponse, new_response, is_error, is_data, is_admin_list, Call, client_login, client_logout,
  client_query_code, client_query_instructor, client_query_semester, client_view_all,
  client_view_all_page, client_add, client_update, client_delete, client_admin_list,
  client_admin_create, client_admin_update, client_admin_delete,
}

-- The session: the socket of the handler `sock`, the process, and what the bridge and the shell
-- themselves printed. What `print_log` writes to the same output, from inside a call of the client, is
-- left out.
pub record Bridge (p : Platform) : Type 0 where
  pub sock : Option ℕ
  pub process : Process p
  pub out : Bytes

-- `f[i]`
abbrev pub cell : List Bytes → ℕ → Bytes
cell f i = get_or f i []

-- A text and a line's end.
abbrev pub line : Bytes → Bytes
line text = text ++ 10 ∷ []

-- The text of `emit_resp`: an error, courses, names, or a text.
unfoldable pub response_line : ClientResponse → Bytes
response_line r =
    if is_error r
    then codes "ERR\t" ++ r.text
    else if is_data r
    then codes "DATA\t" ++ join_courses_tsv r.courses
    else if is_admin_list r
    then codes "ADMINS\t" ++ join_names_tsv r.admins
    else codes "OK\t" ++ r.text

module _ {p : Platform} where
  -- The text and a line's end, which are flushed at once.
  unfoldable pub emit : Bytes → Bridge p → Bridge p
  emit text b = record b { out = b.out ++ line text }

  abbrev pub emit_ok : Bytes → Bridge p → Bridge p
  emit_ok message = emit (codes "OK\t" ++ message)

  abbrev pub emit_err : Bytes → Bridge p → Bridge p
  emit_err message = emit (codes "ERR\t" ++ message)

  abbrev pub emit_resp : ClientResponse → Bridge p → Bridge p
  emit_resp r = emit (response_line r)

module _ {p : Platform} (w : Winsock p) where
  -- `sock.reset()`, with the destructor of the handler.
  unfoldable pub reset : Bridge p → Bridge p
  reset b = record b {
    sock = none;
    process = record b.process { net = close_valid w b.sock b.process.net };
  }

  -- The end of every request to the server: after an error the connection is given up.
  unfoldable pub finish : ErrorInfo × ClientResponse × Process p → Bridge p → Bridge p
  finish (err, r, h) b =
      if is_success err
      then emit_resp r (record b { process = h })
      else reset (emit_err err.message (record b { process = h }))

  abbrev pub request_on :
      Option ℕ → ℕ → Bytes → ((s : ℕ) → Call p s) → List Bytes → Bridge p → Bridge p
  request_on none count usage call f b = emit_err (codes "not connected") b
  request_on (some s) count usage call f b =
      if ltb (length f) count then emit_err usage b else finish (call s new_response b.process) b

  -- A request that needs a connection and `count` fields, its verb included; `usage` is the answer to
  -- fewer.
  unfoldable pub request : ℕ → Bytes → ((s : ℕ) → Call p s) → List Bytes → Bridge p → Bridge p
  request count usage call f b = request_on b.sock count usage call f b

  -- What follows `connect_to`: a socket that was connected before is closed.
  abbrev pub handle_connected : Handler × ErrorInfo × p.Net → Bridge p → Bridge p
  handle_connected (s, err, n) b =
      if is_success err
      then emit_ok (codes "connected") (record b {
        sock = s.socket;
        process = record b.process { net = close_valid w b.sock n };
      })
      else emit_err err.message (record b { process = record b.process { net = n } })

  unfoldable pub handle_disconnect : Bridge p → Bridge p
  handle_disconnect b = emit_ok (codes "disconnected") (reset b)

module _ (p : Platform) (w : Winsock p) (overflow : Bytes → ℤ) where
  unfoldable pub handle_connect : List Bytes → Bridge p → Bridge p
  handle_connect f b =
      if ltb (length f) 3
      then emit_err (codes "CONNECT requires <host> <port>") b
      else handle_connected w
          (connect_to w (cell f 1) (atoi overflow (cell f 2)) no_error b.process.net) b

  unfoldable pub handle_login : List Bytes → Bridge p → Bridge p
  handle_login f =
      request w 3 (codes "LOGIN requires <user> <pass>")
        (λ s. client_login p s (cell f 1) (cell f 2)) f

  unfoldable pub handle_logout : List Bytes → Bridge p → Bridge p
  handle_logout f = request w 0 [] (λ s. client_logout p s) f

  unfoldable pub handle_query_code : List Bytes → Bridge p → Bridge p
  handle_query_code f =
      request w 2 (codes "QUERY_CODE requires <code>") (λ s. client_query_code p s (cell f 1)) f

  unfoldable pub handle_query_instructor : List Bytes → Bridge p → Bridge p
  handle_query_instructor f =
      request w 2 (codes "QUERY_INSTRUCTOR requires <name>")
        (λ s. client_query_instructor p s (cell f 1)) f

  unfoldable pub handle_query_semester : List Bytes → Bridge p → Bridge p
  handle_query_semester f =
      request w 2 (codes "QUERY_SEMESTER requires <sem>")
        (λ s. client_query_semester p s (cell f 1)) f

  unfoldable pub handle_view_all : List Bytes → Bridge p → Bridge p
  handle_view_all f = request w 0 [] (λ s. client_view_all p s) f

  unfoldable pub handle_view_all_page : List Bytes → Bridge p → Bridge p
  handle_view_all_page f =
      request w 3 (codes "VIEW_ALL_PAGE requires <offset> <limit>")
        (λ s. client_view_all_page p s (atoi overflow (cell f 1)) (atoi overflow (cell f 2))) f

  unfoldable pub handle_add : List Bytes → Bridge p → Bridge p
  handle_add f =
      request w 9 (codes "ADD requires 8 fields")
        (λ s. client_add p s (course_of_fields (drop 1 f))) f

  unfoldable pub handle_update : List Bytes → Bridge p → Bridge p
  handle_update f =
      request w 9 (codes "UPDATE requires 8 fields")
        (λ s. client_update p s (course_of_fields (drop 1 f))) f

  unfoldable pub handle_delete : List Bytes → Bridge p → Bridge p
  handle_delete f =
      request w 3 (codes "DELETE requires <code> <section>")
        (λ s. client_delete p s (cell f 1) (cell f 2)) f

  unfoldable pub handle_admin_list : List Bytes → Bridge p → Bridge p
  handle_admin_list f = request w 0 [] (λ s. client_admin_list p s) f

  unfoldable pub handle_admin_create : List Bytes → Bridge p → Bridge p
  handle_admin_create f =
      request w 3 (codes "ADMIN_CREATE requires <user> <pass>")
        (λ s. client_admin_create p s (cell f 1) (cell f 2)) f

  unfoldable pub handle_admin_update : List Bytes → Bridge p → Bridge p
  handle_admin_update f =
      request w 4 (codes "ADMIN_UPDATE requires <old_user> <new_user> <new_pass>")
        (λ s. client_admin_update p s (cell f 1) (cell f 2) (cell f 3)) f

  unfoldable pub handle_admin_delete : List Bytes → Bridge p → Bridge p
  handle_admin_delete f =
      request w 2 (codes "ADMIN_DELETE requires <user>") (λ s. client_admin_delete p s (cell f 1)) f

  -- The body of the loop of `run_bridge` for the fields of a line; `none` is the `break` of QUIT.
  unfoldable pub perform : List Bytes → Bridge p → Option (Bridge p)
  perform f b =
      let verb = cell f 0 in
      if is_empty verb
      then some b
      else if bytes_eq verb (codes "CONNECT")
      then some (handle_connect f b)
      else if bytes_eq verb (codes "DISCONNECT")
      then some (handle_disconnect w b)
      else if bytes_eq verb (codes "LOGIN")
      then some (handle_login f b)
      else if bytes_eq verb (codes "LOGOUT")
      then some (handle_logout f b)
      else if bytes_eq verb (codes "QUERY_CODE")
      then some (handle_query_code f b)
      else if bytes_eq verb (codes "QUERY_INSTRUCTOR")
      then some (handle_query_instructor f b)
      else if bytes_eq verb (codes "QUERY_SEMESTER")
      then some (handle_query_semester f b)
      else if bytes_eq verb (codes "VIEW_ALL")
      then some (handle_view_all f b)
      else if bytes_eq verb (codes "VIEW_ALL_PAGE")
      then some (handle_view_all_page f b)
      else if bytes_eq verb (codes "ADD")
      then some (handle_add f b)
      else if bytes_eq verb (codes "UPDATE")
      then some (handle_update f b)
      else if bytes_eq verb (codes "DELETE")
      then some (handle_delete f b)
      else if bytes_eq verb (codes "ADMIN_LIST")
      then some (handle_admin_list f b)
      else if bytes_eq verb (codes "ADMIN_CREATE")
      then some (handle_admin_create f b)
      else if bytes_eq verb (codes "ADMIN_UPDATE")
      then some (handle_admin_update f b)
      else if bytes_eq verb (codes "ADMIN_DELETE")
      then some (handle_admin_delete f b)
      else if bytes_eq verb (codes "QUIT")
      then none
      else some (emit_err (codes "unknown verb: " ++ verb) b)

  -- The loop over the lines of the standard input.
  unfoldable pub bridge_loop : List Bytes → Bridge p → Bridge p
  bridge_loop [] b = b
  bridge_loop (line ∷ lines) b = elim (perform (tsv_split line) b) [
    | none ↦ b
    | some b' ↦ bridge_loop lines b'
  ]

  -- The greeting, the loop, and the destructor of the session.
  unfoldable pub run_bridge : List Bytes → Process p → Bridge p
  run_bridge lines h =
      reset w
        (bridge_loop lines (emit (codes "READY") (record { sock = none; process = h; out = [] })))
