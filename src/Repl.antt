-- ===== src/Repl.antt =====
-- The client's shell: `repl_split`, `print_resp` and `run_repl` of programs/Client/src/client_main.cpp, on
-- the state of the bridge, with the pieces that it prints.
pub mod Command
pub mod Same
pub mod Sockets
pub mod Words
mod Tests
use dcn1003_group.Base.{
  ℕ, Bool, true, false, Option, none, some, List, [], ◌∷◌, ◌++◌, ◌&&◌, ◌||◌, ltb, leb,
  if◌then◌else◌, Bytes, codes, bytes_eq, is_empty, length, drop,
}
use dcn1003_group.Base.Int.{ℤ}
use dcn1003_group.Error.{ErrorInfo, no_error, is_success}
use dcn1003_group.Number.{is_space, atoi, decimal}
use dcn1003_group.Wire.{Course, course_of_fields}
use dcn1003_group.Platform.{Platform}
use dcn1003_group.Protocol.{Process}
use dcn1003_group.Connect.{Winsock, Handler, close_valid, connect_to}
use dcn1003_group.Client.{
  ClientResponse, new_response, is_error, is_data, Call, client_login, client_logout,
  client_query_code, client_query_instructor, client_query_semester, client_view_all, client_add,
  client_update, client_delete,
}
use dcn1003_group.Bridge.{line, Bridge, cell, reset}

-- A token ends at white space or at the end of the line, and an empty one is none.
abbrev push_token : Bytes → List Bytes → List Bytes
push_token [] out = out
push_token (c ∷ cur) out = out ++ (c ∷ cur) ∷ []

-- The loop of `is >> tok`, over the tokens so far and the current one.
token_loop : Bytes → List Bytes → Bytes → List Bytes
token_loop [] out cur = push_token cur out
token_loop (c ∷ s) out cur = elim (is_space c) [
  | true ↦ token_loop s (push_token cur out) []
  | false ↦ token_loop s out (cur ++ c ∷ [])
]

unfoldable pub repl_split : Bytes → List Bytes
unfolding token_loop
repl_split s = token_loop s [] []

abbrev course_text : Course → Bytes
course_text c = line (
    codes "    "
    ++ c.code
    ++ codes " "
    ++ c.title
    ++ codes " (sec="
    ++ c.section
    ++ codes ") "
    ++ c.instructor
    ++ codes " "
    ++ c.day
    ++ codes " "
    ++ c.duration
    ++ codes "min "
    ++ codes "["
    ++ c.semester
    ++ codes "] @ "
    ++ c.classroom)

abbrev course_texts : List Course → Bytes
course_texts [] = []
course_texts (c ∷ cs) = course_text c ++ course_texts cs

unfoldable pub resp_text : ClientResponse → Bytes
resp_text r =
    if is_error r
    then line (codes "  [ERR] " ++ r.text)
    else if is_data r
    then line (codes "  [DATA] " ++ decimal (length r.courses) ++ codes " course(s):")
      ++ course_texts r.courses
    else line (codes "  [OK] " ++ r.text)

abbrev help_text : Bytes
help_text =
    line (codes "Commands:")
    ++ line (codes "  connect <host> <port>")
    ++ line (codes "  disconnect")
    ++ line (codes "  login <user> <pass>")
    ++ line (codes "  logout")
    ++ line (codes "  query_code <code>")
    ++ line (codes "  query_instructor <name>")
    ++ line (codes "  query_semester <sem>")
    ++ line (codes "  view_all")
    ++ line (
        codes "  add <code> <title> <section> <instructor> <day> <duration> <semester> <classroom>")
    ++ line (codes "  update <same as add>")
    ++ line (codes "  delete <code> <section>")
    ++ line (codes "  help / quit")

module _ {p : Platform} where
  unfoldable pub print : Bytes → Bridge p → Bridge p
  print text b = record b { out = b.out ++ text }

module _ {p : Platform} (w : Winsock p) where
  -- What follows a call of the client.
  unfoldable pub served : ErrorInfo × ClientResponse × Process p → Bridge p → Bridge p
  served (err, r, h) b =
      if is_success err
      then print (resp_text r) (record b { process = h })
      else reset w (print (line (codes "  [ERR] " ++ err.message)) (record b { process = h }))

  -- What follows `connect_to`: a socket that was connected before is closed.
  abbrev repl_connected : Handler × ErrorInfo × p.Net → Bridge p → Bridge p
  repl_connected (s, err, n) b =
      if is_success err
      then print (line (codes "  [OK] connected")) (record b {
        sock = s.socket;
        process = record b.process { net = close_valid w b.sock n };
      })
      else print (line (codes "  [ERR] " ++ err.message))
          (record b { process = record b.process { net = n } })

module _ (p : Platform) (w : Winsock p) (overflow : Bytes → ℤ) where
  abbrev repl_connect : List Bytes → Bridge p → Bridge p
  repl_connect t b =
      if ltb (length t) 3
      then print (line (codes "  usage: connect <host> <port>")) b
      else repl_connected w
          (connect_to w (cell t 1) (atoi overflow (cell t 2)) no_error b.process.net) b

  -- The command `v` with at least `count` words.
  abbrev is_command : List Bytes → Bytes → ℕ → Bool
  is_command t v count = bytes_eq (cell t 0) v && leb count (length t)

  abbrev call_of : ((s : ℕ) → Call p s) → ℕ → Bridge p → Bridge p
  call_of call s b = served w (call s new_response b.process) b

  -- The commands that need a connection.
  unfoldable pub repl_command : Option ℕ → List Bytes → Bridge p → Bridge p
  repl_command none t b = print (line (codes "  [ERR] not connected")) b
  repl_command (some s) t b =
      if is_command t (codes "login") 3
      then call_of (λ s'. client_login p s' (cell t 1) (cell t 2)) s b
      else if bytes_eq (cell t 0) (codes "logout")
      then call_of (λ s'. client_logout p s') s b
      else if is_command t (codes "query_code") 2
      then call_of (λ s'. client_query_code p s' (cell t 1)) s b
      else if is_command t (codes "query_instructor") 2
      then call_of (λ s'. client_query_instructor p s' (cell t 1)) s b
      else if is_command t (codes "query_semester") 2
      then call_of (λ s'. client_query_semester p s' (cell t 1)) s b
      else if bytes_eq (cell t 0) (codes "view_all")
      then call_of (λ s'. client_view_all p s') s b
      else if is_command t (codes "add") 9
      then call_of (λ s'. client_add p s' (course_of_fields (drop 1 t))) s b
      else if is_command t (codes "update") 9
      then call_of (λ s'. client_update p s' (course_of_fields (drop 1 t))) s b
      else if is_command t (codes "delete") 3
      then call_of (λ s'. client_delete p s' (cell t 1) (cell t 2)) s b
      else print (line (codes "  [ERR] unknown command or wrong arg count")) b

  -- The body of the loop for the words of a line; `none` is its `break`.
  unfoldable pub repl_perform : List Bytes → Bridge p → Option (Bridge p)
  repl_perform t b =
      let v = cell t 0 in
      if is_empty t
      then some b
      else if bytes_eq v (codes "help")
      then some (print help_text b)
      else if bytes_eq v (codes "quit") || bytes_eq v (codes "exit")
      then none
      else if bytes_eq v (codes "connect")
      then some (repl_connect t b)
      else if bytes_eq v (codes "disconnect")
      then some (print (line (codes "  [OK] disconnected")) (reset w b))
      else some (repl_command b.sock t b)

  abbrev prompt : Bridge p → Bridge p
  prompt b = print (codes "> ") b

  -- The loop over the lines of the standard input, each behind a prompt.
  unfoldable pub repl_loop : List Bytes → Bridge p → Bridge p
  repl_loop [] b = prompt b
  repl_loop (text ∷ lines) b = elim (repl_perform (repl_split text) (prompt b)) [
    | none ↦ prompt b
    | some b' ↦ repl_loop lines b'
  ]

  -- The greeting, the loop, and the destructor of the socket.
  unfoldable pub run_repl : List Bytes → Process p → Bridge p
  run_repl lines h = reset w (
      repl_loop lines (
        print (line (codes "DCN1003 client REPL. Type 'help' for commands."))
          (record { sock = none; process = h; out = [] })))
