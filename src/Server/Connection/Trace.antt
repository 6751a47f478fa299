-- ===== src/Server/Connection/Trace.antt =====
-- A connection serves a sequence of authentic messages, and nothing else changes its context.
use mathlib.Core.Option.{some-injective}
use mathlib.Core.Path.{subst}
use dcn1003_group.Base.{
  ℕ, zero, suc, ◌≡◌, refl, sym, ap, ◌∙◌, true, false, ◌⊎◌, inl, inr, Option, some, List, [], ◌∷◌,
  arith, Bool-cases,
}
use dcn1003_group.Error.{ErrorCode, ErrorInfo, is_success}
use dcn1003_group.Repository.{CourseRepository, AdministratorRepository}
use dcn1003_group.Dispatch.{Role, MsgBody, Response, Context, dispatch}
use dcn1003_group.Platform.{Platform}
use dcn1003_group.Protocol.{received, Process, package_receive, receive_body, open_frame}
use dcn1003_group.Protocol.Receive.{Accepted, package_receive-Accepted}
use dcn1003_group.Server.Register.{register_all_server}
use dcn1003_group.Server.Responses.{IsSendable, dispatch-IsSendable}
use dcn1003_group.Server.Session.{after, LoggedIn, admin_needs_login}
use dcn1003_group.Server.Connection.{
  send_response_s, Thread, after_response, answer, opened, after_receive, client_loop,
  handle_client,
}

module _ (p : Platform) (s : ℕ) where
  -- A response that may be sent is refused only if the sending fails.
  send_response_s_error :
      (resp : Response) (h : Process p)
      → IsSendable resp
      → ((send_response_s p s resp h).0.e ≡ ErrorCode.success)
        ⊎ ((send_response_s p s resp h).0.e ≡ ErrorCode.send_err)
  unfolding send_response_s
  send_response_s_error resp h ok = ground arith

  -- A receive without error has a message.
  received_message :
      (h : Process p)
      → is_success (package_receive p s h).0 ≡ true
      → (package_receive p s h).1 ≡ some (received (package_receive p s h).1)
  unfolding package_receive receive_body open_frame
  received_message h ok = ground arith

module _ (p : Platform) (s : ℕ) (c : CourseRepository) (a : AdministratorRepository) where
  -- The response to a message, whatever the message is, passes the two checks of `send_response_s`: it
  -- returns success, or SEND_ERR when the sending failed.
  pub send_response_s-dispatch :
      (body : MsgBody) (w : Context c a) (h : Process p)
      → ((send_response_s p s (dispatch c a (register_all_server c a []) body w).0 h).0.e
          ≡ ErrorCode.success)
        ⊎ ((send_response_s p s (dispatch c a (register_all_server c a []) body w).0 h).0.e
            ≡ ErrorCode.send_err)
  send_response_s-dispatch body w h =
      send_response_s_error p s (dispatch c a (register_all_server c a []) body w).0 h
        (dispatch-IsSendable c a body w)

  -- The response to a message in the state `w`, and the state behind it.
  abbrev replied : MsgBody → Context c a → Response × Context c a
  replied body w = dispatch c a (register_all_server c a []) body w

  -- What sending that response made of the process that `package_receive` left.
  abbrev sent : MsgBody → Thread p c a → ErrorInfo × Process p
  sent body (w, h) = send_response_s p s (replied body w).0 (package_receive p s h).2

  -- Package_receive, called in this process, has no error, accepts the message and returns it.
  abbrev Receives : Process p → MsgBody → Type 0
  Receives h body =
      (is_success (package_receive p s h).0 ≡ true)
      × ((package_receive p s h).1 ≡ some body)
      × Accepted p s h body

  -- The run of a connection's loop from one state of its thread to another, with the messages that were
  -- received, in order: each is received in the process that the sending of the last response left.
  pub data Run : Thread p c a → List MsgBody → Thread p c a → Type 0 where
    receive_failed :
        (w : Context c a) (h : Process p)
        → is_success (package_receive p s h).0 ≡ false
        → Run (w, h) [] (w, (package_receive p s h).2)
    send_failed :
        (body : MsgBody) (w : Context c a) (h : Process p)
        → Receives h body
        → is_success (sent body (w, h)).0 ≡ false
        → Run (w, h) (body ∷ []) ((replied body w).1, (sent body (w, h)).1)
    served :
        (body : MsgBody) (bodies : List MsgBody) (w : Context c a) (h : Process p)
        (t' : Thread p c a)
        → Receives h body
        → is_success (sent body (w, h)).0 ≡ true
        → Run ((replied body w).1, (sent body (w, h)).1) bodies t'
        → Run (w, h) (body ∷ bodies) t'

  -- The context at the end of a run is what its messages made of the one at its beginning.
  Run-after :
      (t : Thread p c a) (bodies : List MsgBody) (t' : Thread p c a)
      → Run t bodies t'
      → t'.0 ≡ after c a bodies t.0
  unfolding after
  Run-after _ _ _ (receive_failed w h failed) = refl
  Run-after _ _ _ (send_failed body w h got failed) = refl
  Run-after _ _ _ (served body bodies w h t' got ok rest) = Run-after _ bodies t' rest

  abbrev LoopRuns : (Thread p c a → Option (Thread p c a)) → Type 0
  LoopRuns loop =
      (t t' : Thread p c a) → loop t ≡ some t' → (bodies : List MsgBody) × Run t bodies t'

  answer-Run :
      (loop : Thread p c a → Option (Thread p c a)) (body : MsgBody) (w : Context c a)
      (h : Process p) (t' : Thread p c a)
      → LoopRuns loop
      → Receives h body
      → after_response p s c a
          (register_all_server c a [])
          loop
          (replied body w).1
          (sent body (w, h))
        ≡ some t'
      → (bodies : List MsgBody) × Run (w, h) bodies t'
  unfolding after_response
  answer-Run loop body w h t' runs got e = elim (Bool-cases (is_success (sent body (w, h)).0)) [
    | inl ok ↦
        (let (bodies, rest) =
            runs ((replied body w).1, (sent body (w, h)).1) t' (rw (ok, after_response) at e) in
          (body ∷ bodies, served body bodies w h t' got ok rest))
    | inr failed ↦ (
      body ∷ [],
      subst (Run (w, h) (body ∷ [])) (some-injective _ t' (rw (failed, after_response) at e))
          (send_failed body w h got failed),
    )
  ]

  client_loop-Run : (fuel : ℕ) → LoopRuns (client_loop p s c a (register_all_server c a []) fuel)
  unfolding client_loop after_receive answer
  client_loop-Run zero t t' e = cc
  client_loop-Run (suc fuel) (w, h) t' e =
      elim (Bool-cases (is_success (package_receive p s h).0)) [
        | inr failed ↦ (
          [],
          subst (Run (w, h) []) (some-injective _ t' (rw (failed, after_receive) at e))
              (receive_failed w h failed),
        )
        | inl ok ↦
            (let body = received (package_receive p s h).1 in
              let got = received_message p s h ok in
              answer-Run (client_loop p s c a (register_all_server c a []) fuel) body w h t'
                (client_loop-Run fuel) (ok, got, package_receive-Accepted p s h body got)
                (rw (ok, after_receive) at e))
      ]

  -- When the thread of a connection has ended with an administrator's session, the messages that
  -- Package_receive accepted and returned on this connection, one after the other in the states of the
  -- process that its loop went through from the first one on, make a run that ends in this state, and
  -- one of them was a login that succeeded with no logout after it.
  pub handle_client-LoggedIn :
      (fuel : ℕ) (courses : c.Repo) (admins : a.Repo) (h : Process p) (t' : Thread p c a)
      → handle_client p s c a (register_all_server c a []) fuel courses admins h ≡ some t'
      → t'.0.session.role ≡ Role.admin
      → (bodies : List MsgBody) × Run (opened c a courses admins, h) bodies t'
        × LoggedIn c a bodies (opened c a courses admins)
  unfolding handle_client
  handle_client-LoggedIn fuel courses admins h t' e is_admin =
      let (bodies, run) = client_loop-Run fuel (opened c a courses admins, h) t' e in
      (
        bodies,
        run,
        admin_needs_login c a bodies (opened c a courses admins) refl (
            ap (λ (v : Context c a). v.session.role)
              (sym (Run-after (opened c a courses admins, h) bodies t' run))
            ∙ is_admin),
      )
