-- ===== src/Repl/Sockets.antt =====
-- Which sockets are open while the shell runs and when it has ended.
use dcn1003_group.Base.{
  ℕ, ◌≡◌, ◌∙◌, Bool, false, inl, inr, Option, none, some, List, [], ◌∷◌, ◌||◌, ltb, Bytes, codes,
  bytes_eq, is_empty, length, both_branches, Bool-cases, drop,
}
use mathlib.Core.Path.{subst}
use dcn1003_group.Base.Int.{ℤ}
use dcn1003_group.Error.{ErrorInfo, no_error, is_success}
use dcn1003_group.Number.{atoi}
use dcn1003_group.CmdType.{
  cmd_add_req, cmd_delete_req, cmd_login_req, cmd_logout_req, cmd_query_by_code_req,
  cmd_query_by_instructor_req, cmd_query_by_semester_req, cmd_update_req, cmd_view_all_req,
}
use dcn1003_group.Wire.{course_of_fields}
use dcn1003_group.Platform.{Platform}
use dcn1003_group.Socket.Kept.{Transfers}
use dcn1003_group.Protocol.{Process}
use dcn1003_group.Connect.{Winsock, Handler, connect_to}
use dcn1003_group.Connect.Owned.{Sockets, Opened, connect_to-Opened}
use dcn1003_group.Connect.Moves.{connect_to_failure}
use dcn1003_group.Connect.Held.{Holds, close-Holds, replace-Holds}
use dcn1003_group.Client.{ClientResponse, new_response, course_fields, send_and_recv}
use dcn1003_group.Bridge.{Bridge, cell, reset}
use dcn1003_group.Bridge.Sockets.{Owns, quiet, reset-Owns}
use dcn1003_group.Repl.{
  repl_split, print, line, help_text, served, repl_connected, repl_connect, is_command, call_of,
  repl_command, repl_perform, prompt, repl_loop, run_repl,
}

module _ {p : Platform} {w : Winsock p} (laws : Sockets w)
    (keeps : (x : ℕ) → Transfers p (λ n. laws.is_open n x)) (others : ℕ → Bool) where
  -- The session holds its socket among the others.
  OwnsSocket : Bridge p → Type 0
  OwnsSocket b = Owns laws keeps others b

  print-OwnsSocket : (text : Bytes) (b : Bridge p) → OwnsSocket b → OwnsSocket (print text b)
  unfolding OwnsSocket print
  print-OwnsSocket text b owned = owned

  reset-OwnsSocket : (b : Bridge p) → OwnsSocket b → OwnsSocket (reset w b)
  unfolding OwnsSocket
  reset-OwnsSocket b owned = reset-Owns laws keeps others b owned

  served-OwnsSocket :
      (answer : ErrorInfo × ClientResponse × Process p) (b : Bridge p)
      → OwnsSocket (record b { process = answer.2 })
      → OwnsSocket (served w answer b)
  unfolding OwnsSocket served reset print
  served-OwnsSocket (err, r, h) b owned =
      both_branches (Owns laws keeps others) (is_success err) owned
        (close-Holds laws others b.sock h.net owned)

  repl_connected-OwnsSocket :
      (answer : Handler × ErrorInfo × p.Net) (b : Bridge p)
      → OwnsSocket b
      → Opened w laws b.process.net answer.0.socket answer.2
      → (is_success answer.1 ≡ false → answer.0.socket ≡ none)
      → OwnsSocket (repl_connected w answer b)
  unfolding OwnsSocket print
  repl_connected-OwnsSocket (s, err, n) b owned opened failure =
      elim (Bool-cases (is_success err)) [
        | inl good ↦
            rw good (replace-Holds laws others b.sock s.socket b.process.net n owned opened)
        | inr bad ↦
            rw bad (kept (subst (λ o. Opened w laws b.process.net o n) (failure bad) opened))
      ]
    where
      kept :
          ((x : ℕ) → laws.is_open n x ≡ laws.is_open b.process.net x) → Holds laws others b.sock n
      kept same = ((λ x. same x ∙ owned.0 x), owned.1)

  module _ (overflow : Bytes → ℤ) where
    repl_connect-OwnsSocket :
        (t : List Bytes) (b : Bridge p) → OwnsSocket b → OwnsSocket (repl_connect p w overflow t b)
    repl_connect-OwnsSocket t b owned =
        let port = atoi overflow (cell t 2) in
        both_branches OwnsSocket (ltb (length t) 3)
          (print-OwnsSocket (line (codes "  usage: connect <host> <port>")) b owned)
          (repl_connected-OwnsSocket (connect_to w (cell t 1) port no_error b.process.net) b owned
            (connect_to-Opened w laws (cell t 1) port no_error b.process.net)
            (connect_to_failure w (cell t 1) port no_error b.process.net))

    -- A call of the client and what follows it.
    call-OwnsSocket :
        (fields : List Bytes) (cmd s : ℕ) (b : Bridge p)
        → OwnsSocket b
        → OwnsSocket (call_of p w overflow (λ s'. send_and_recv p s' fields cmd) s b)
    unfolding OwnsSocket
    call-OwnsSocket fields cmd s b (all, apart) =
        served-OwnsSocket (send_and_recv p s fields cmd new_response b.process) b
          ((λ x. quiet laws keeps others fields cmd x s new_response b.process ∙ all x), apart)

    repl_command-OwnsSocket :
        (o : Option ℕ) (t : List Bytes) (b : Bridge p)
        → OwnsSocket b
        → OwnsSocket (repl_command p w overflow o t b)
    unfolding repl_command
    repl_command-OwnsSocket none t b owned =
        print-OwnsSocket (line (codes "  [ERR] not connected")) b owned
    repl_command-OwnsSocket (some s) t b owned =
        both_branches OwnsSocket (is_command p w overflow t (codes "login") 3)
          (call-OwnsSocket (cell t 1 ∷ cell t 2 ∷ []) cmd_login_req s b owned)
          (both_branches OwnsSocket (bytes_eq (cell t 0) (codes "logout"))
            (call-OwnsSocket [] cmd_logout_req s b owned)
            (both_branches OwnsSocket (is_command p w overflow t (codes "query_code") 2)
              (call-OwnsSocket (cell t 1 ∷ []) cmd_query_by_code_req s b owned)
              (both_branches OwnsSocket (is_command p w overflow t (codes "query_instructor") 2)
                (call-OwnsSocket (cell t 1 ∷ []) cmd_query_by_instructor_req s b owned)
                (both_branches OwnsSocket (is_command p w overflow t (codes "query_semester") 2)
                  (call-OwnsSocket (cell t 1 ∷ []) cmd_query_by_semester_req s b owned)
                  (both_branches OwnsSocket (bytes_eq (cell t 0) (codes "view_all"))
                    (call-OwnsSocket [] cmd_view_all_req s b owned)
                    (both_branches OwnsSocket (is_command p w overflow t (codes "add") 9)
                      (call-OwnsSocket (course_fields (course_of_fields (drop 1 t))) cmd_add_req s b
                        owned)
                      (both_branches OwnsSocket (is_command p w overflow t (codes "update") 9)
                        (call-OwnsSocket (course_fields (course_of_fields (drop 1 t)))
                          cmd_update_req s b owned)
                        (both_branches OwnsSocket (is_command p w overflow t (codes "delete") 3)
                          (call-OwnsSocket (cell t 1 ∷ cell t 2 ∷ []) cmd_delete_req s b owned)
                          (print-OwnsSocket
                            (line (codes "  [ERR] unknown command or wrong arg count")) b
                            owned)))))))))

    -- If the loop goes on, the session owns its socket.
    abbrev OwnsNext : Option (Bridge p) → Type 0
    OwnsNext none = Unit
    OwnsNext (some b) = OwnsSocket b

    repl_perform-OwnsNext :
        (t : List Bytes) (b : Bridge p) → OwnsSocket b → OwnsNext (repl_perform p w overflow t b)
    unfolding repl_perform
    repl_perform-OwnsNext t b owned = both_branches OwnsNext (is_empty t) owned (
        both_branches OwnsNext (bytes_eq (cell t 0) (codes "help"))
          (print-OwnsSocket help_text b owned)
          (both_branches OwnsNext
            (bytes_eq (cell t 0) (codes "quit") || bytes_eq (cell t 0) (codes "exit")) tt
            (both_branches OwnsNext (bytes_eq (cell t 0) (codes "connect"))
              (repl_connect-OwnsSocket t b owned)
              (both_branches OwnsNext (bytes_eq (cell t 0) (codes "disconnect"))
                (print-OwnsSocket (line (codes "  [OK] disconnected")) (reset w b)
                  (reset-OwnsSocket b owned))
                (repl_command-OwnsSocket b.sock t b owned)))))

    repl_loop-OwnsSocket :
        (lines : List Bytes) (b : Bridge p)
        → OwnsSocket b
        → OwnsSocket (repl_loop p w overflow lines b)
    unfolding repl_loop
    repl_loop-OwnsSocket [] b owned = print-OwnsSocket (codes "> ") b owned
    repl_loop-OwnsSocket (text ∷ lines) b owned =
        next (repl_perform p w overflow (repl_split text) (prompt p w overflow b))
          (λ b' h. repl_loop-OwnsSocket lines b' h)
          (repl_perform-OwnsNext (repl_split text) (prompt p w overflow b)
            (print-OwnsSocket (codes "> ") b owned))
      where
        next :
            (o : Option (Bridge p))
            → ((b' : Bridge p) → OwnsSocket b' → OwnsSocket (repl_loop p w overflow lines b'))
            → OwnsNext o
            → OwnsSocket (elim o [
              | none ↦ prompt p w overflow b
              | some b' ↦ repl_loop p w overflow lines b'
            ])
        next none ih h = print-OwnsSocket (codes "> ") b owned
        next (some b') ih h = ih b' h

    -- The shell begins with no socket, and its end closes the one that it held.
    pub run_repl-OwnsSocket :
        (lines : List Bytes) (h : Process p)
        → Holds laws others none h.net
        → Holds laws others none (run_repl p w overflow lines h).process.net
    unfolding OwnsSocket run_repl print reset
    run_repl-OwnsSocket lines h start =
        let b : Bridge p = record {
          sock = none;
          process = h;
          out = line (codes "DCN1003 client REPL. Type 'help' for commands.");
        } in
        reset-Owns laws keeps others (repl_loop p w overflow lines b)
          (repl_loop-OwnsSocket lines b start)
