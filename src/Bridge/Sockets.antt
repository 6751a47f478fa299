-- ===== src/Bridge/Sockets.antt =====
-- Which sockets are open while the bridge runs and when it has ended.
use Prim.Native.String.{String}
use dcn1003_group.Base.{
  ℕ, ◌≡◌, ◌∙◌, Bool, false, inl, inr, Option, none, some, List, [], ◌∷◌, ltb, if◌then◌else◌, Bytes,
  codes, bytes_eq, is_empty, length, both_branches, Bool-cases,
}
use mathlib.Core.Path.{subst}
use dcn1003_group.Base.Int.{ℤ}
use dcn1003_group.Error.{ErrorInfo, no_error, is_success}
use dcn1003_group.Number.{atoi}
use dcn1003_group.Platform.{Platform}
use dcn1003_group.Socket.Kept.{Transfers}
use dcn1003_group.Protocol.{Process}
use dcn1003_group.Connect.{Winsock, Handler, connect_to}
use dcn1003_group.Connect.Owned.{Sockets, Opened, connect_to-Opened}
use dcn1003_group.Connect.Moves.{connect_to_failure}
use dcn1003_group.Connect.Held.{Holds, close-Holds, replace-Holds}
use dcn1003_group.Tsv.{tsv_split}
use dcn1003_group.Client.{ClientResponse, Call, new_response, send_and_recv}
use dcn1003_group.Client.Kept.{Keeps, send_and_recv-Keeps}
use dcn1003_group.Bridge.{
  line, Bridge, cell, emit, reset, finish, request_on, request, handle_connected, handle_disconnect,
  handle_connect, handle_login, handle_logout, handle_query_code, handle_query_instructor,
  handle_query_semester, handle_view_all, handle_view_all_page, handle_add, handle_update,
  handle_delete, handle_admin_list, handle_admin_create, handle_admin_update, handle_admin_delete,
  perform, bridge_loop, run_bridge,
}

module _ {p : Platform} {w : Winsock p} (laws : Sockets w)
    (keeps : (x : ℕ) → Transfers p (λ n. laws.is_open n x)) (others : ℕ → Bool) where
  -- The session holds its socket among the others.
  abbrev pub Owns : Bridge p → Type 0
  Owns b = Holds laws others b.sock b.process.net

  -- The call leaves every socket open or closed as it was.
  abbrev pub Quiet : ((s : ℕ) → Call p s) → Type 0
  Quiet call = (x : ℕ) → Keeps p (λ n. laws.is_open n x) call

  pub quiet : (fields : List Bytes) (cmd : ℕ) → Quiet (λ s. send_and_recv p s fields cmd)
  quiet fields cmd x = send_and_recv-Keeps p (λ n. laws.is_open n x) (keeps x) fields cmd

  pub reset-Owns : (b : Bridge p) → Owns b → Owns (reset w b)
  unfolding reset
  reset-Owns b h = close-Holds laws others b.sock b.process.net h

  finish-Owns :
      (answer : ErrorInfo × ClientResponse × Process p) (b : Bridge p)
      → Owns (record b { process = answer.2 })
      → Owns (finish w answer b)
  unfolding finish reset emit
  finish-Owns (err, r, h) b owned =
      both_branches Owns (is_success err) owned (close-Holds laws others b.sock h.net owned)

  request_on-Owns :
      (o : Option ℕ) (count : ℕ) (usage : Bytes) (call : (s : ℕ) → Call p s) (f : List Bytes)
      (b : Bridge p)
      → Quiet call
      → Owns b
      → Owns (request_on w o count usage call f b)
  unfolding emit
  request_on-Owns none count usage call f b same owned = owned
  request_on-Owns (some s) count usage call f b same (all, apart) =
      both_branches Owns (ltb (length f) count) (all, apart)
        (finish-Owns (call s new_response b.process) b
          ((λ x. same x s new_response b.process ∙ all x), apart))

  request-Owns :
      (count : ℕ) (usage : Bytes) (call : (s : ℕ) → Call p s) (f : List Bytes) (b : Bridge p)
      → Quiet call
      → Owns b
      → Owns (request w count usage call f b)
  unfolding request
  request-Owns count usage call f b same owned =
      request_on-Owns b.sock count usage call f b same owned

  handle_connected-Owns :
      (answer : Handler × ErrorInfo × p.Net) (b : Bridge p)
      → Owns b
      → Opened w laws b.process.net answer.0.socket answer.2
      → (is_success answer.1 ≡ false → answer.0.socket ≡ none)
      → Owns (handle_connected w answer b)
  unfolding emit
  handle_connected-Owns (s, err, n) b owned opened failure = elim (Bool-cases (is_success err)) [
    | inl good ↦ rw good (replace-Holds laws others b.sock s.socket b.process.net n owned opened)
    | inr bad ↦ rw bad (kept (subst (λ o. Opened w laws b.process.net o n) (failure bad) opened))
  ]
    where
      kept :
          ((x : ℕ) → laws.is_open n x ≡ laws.is_open b.process.net x) → Holds laws others b.sock n
      kept same = ((λ x. same x ∙ owned.0 x), owned.1)

  handle_disconnect-Owns : (b : Bridge p) → Owns b → Owns (handle_disconnect w b)
  unfolding handle_disconnect emit
  handle_disconnect-Owns b owned = reset-Owns b owned

  module _ (overflow : Bytes → ℤ) where
    handle_connect-Owns :
        (f : List Bytes) (b : Bridge p) → Owns b → Owns (handle_connect p w overflow f b)
    unfolding handle_connect emit
    handle_connect-Owns f b owned =
        let port = atoi overflow (cell f 2) in
        both_branches Owns (ltb (length f) 3) owned (
          handle_connected-Owns (connect_to w (cell f 1) port no_error b.process.net) b owned
            (connect_to-Opened w laws (cell f 1) port no_error b.process.net)
            (connect_to_failure w (cell f 1) port no_error b.process.net))

    -- If the loop goes on, the session owns its socket.
    abbrev OwnsNext : Option (Bridge p) → Type 0
    OwnsNext none = Unit
    OwnsNext (some b) = Owns b

    perform-OwnsNext :
        (f : List Bytes) (b : Bridge p) → Owns b → OwnsNext (perform p w overflow f b)
    unfolding perform handle_login handle_logout handle_query_code handle_query_instructor
        handle_query_semester handle_view_all handle_view_all_page handle_add handle_update
        handle_delete handle_admin_list handle_admin_create handle_admin_update handle_admin_delete
        emit
    perform-OwnsNext f b owned = both_branches OwnsNext (is_empty (cell f 0)) owned (
        branch "CONNECT" _ _ (handle_connect-Owns f b owned) (
          branch "DISCONNECT" _ _ (handle_disconnect-Owns b owned) (
            branch "LOGIN" _ _ (request-Owns _ _ _ f b (quiet _ _) owned) (
              branch "LOGOUT" _ _ (request-Owns _ _ _ f b (quiet _ _) owned) (
                branch "QUERY_CODE" _ _ (request-Owns _ _ _ f b (quiet _ _) owned) (
                  branch "QUERY_INSTRUCTOR" _ _ (request-Owns _ _ _ f b (quiet _ _) owned) (
                    branch "QUERY_SEMESTER" _ _ (request-Owns _ _ _ f b (quiet _ _) owned) (
                      branch "VIEW_ALL" _ _ (request-Owns _ _ _ f b (quiet _ _) owned) (
                        branch "VIEW_ALL_PAGE" _ _ (request-Owns _ _ _ f b (quiet _ _) owned) (
                          branch "ADD" _ _ (request-Owns _ _ _ f b (quiet _ _) owned) (
                            branch "UPDATE" _ _ (request-Owns _ _ _ f b (quiet _ _) owned) (
                              branch "DELETE" _ _ (request-Owns _ _ _ f b (quiet _ _) owned) (
                                branch "ADMIN_LIST" _ _ (request-Owns _ _ _ f b (quiet _ _) owned) (
                                  branch "ADMIN_CREATE" _ _
                                    (request-Owns _ _ _ f b (quiet _ _) owned)
                                    (branch "ADMIN_UPDATE" _ _
                                      (request-Owns _ _ _ f b (quiet _ _) owned)
                                      (branch "ADMIN_DELETE" _ _
                                        (request-Owns _ _ _ f b (quiet _ _) owned)
                                        (branch "QUIT" _ _ tt owned)))))))))))))))))
      where
        branch :
            (verb : String) (x y : Option (Bridge p))
            → OwnsNext x
            → OwnsNext y
            → OwnsNext (if bytes_eq (cell f 0) (codes verb) then x else y)
        branch verb x y px py = both_branches OwnsNext (bytes_eq (cell f 0) (codes verb)) px py

    bridge_loop-Owns :
        (lines : List Bytes) (b : Bridge p) → Owns b → Owns (bridge_loop p w overflow lines b)
    unfolding bridge_loop
    bridge_loop-Owns [] b owned = owned
    bridge_loop-Owns (line ∷ lines) b owned =
        next (perform p w overflow (tsv_split line) b) (λ b' h. bridge_loop-Owns lines b' h)
          (perform-OwnsNext (tsv_split line) b owned)
      where
        next :
            (o : Option (Bridge p))
            → ((b' : Bridge p) → Owns b' → Owns (bridge_loop p w overflow lines b'))
            → OwnsNext o
            → Owns (elim o [ none ↦ b | some b' ↦ bridge_loop p w overflow lines b' ])
        next none ih h = owned
        next (some b') ih h = ih b' h

    -- The bridge begins with no socket, and its end closes the one that it held.
    pub run_bridge-Owns :
        (lines : List Bytes) (h : Process p)
        → Holds laws others none h.net
        → Holds laws others none (run_bridge p w overflow lines h).process.net
    unfolding run_bridge emit reset
    run_bridge-Owns lines h start =
        let b : Bridge p = record { sock = none; process = h; out = line (codes "READY") } in
        reset-Owns (bridge_loop p w overflow lines b) (bridge_loop-Owns lines b start)
