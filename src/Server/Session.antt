-- ===== src/Server/Session.antt =====
-- The requests of one connection, served one after another as by the loop of `handle_client`.
use dcn1003_group.Base.{◌≡◌, ◌≢◌, refl, ap, ◌⊎◌, inl, inr, List, [], ◌∷◌, ◌++◌}
use dcn1003_group.CmdType.{cmd_logout_req}
use dcn1003_group.Repository.{CourseRepository, AdministratorRepository}
use dcn1003_group.Dispatch.{Role, MsgBody, Context}
use dcn1003_group.Server.Access.{serve_request, IsLogin, serve-Entitled}

module _ (c : CourseRepository) (a : AdministratorRepository) where
  -- The state after the requests, in order.
  unfoldable pub after : List MsgBody → Context c a → Context c a
  after [] w = w
  after (body ∷ bodies) w = after bodies (serve_request c a body w).1

  abbrev NoLogout : List MsgBody → Type 0
  NoLogout [] = Unit
  NoLogout (body ∷ bodies) = (body.cmd_type ≢ cmd_logout_req) × NoLogout bodies

  -- A login that succeeded, and no logout since.
  pub record LoggedIn (bodies : List MsgBody) (w : Context c a) : Type 0 where
    pub before : List MsgBody
    pub login : MsgBody
    pub since : List MsgBody
    pub split : bodies ≡ before ++ login ∷ since
    pub accepted : IsLogin c a login (after before w)
    pub stayed : NoLogout since

  -- Either the session was an administrator's all along, or some login was accepted.
  run-Entitled :
      (bodies : List MsgBody) (w : Context c a)
      → (after bodies w).session.role ≡ Role.admin
      → ((w.session.role ≡ Role.admin) × NoLogout bodies) ⊎ LoggedIn bodies w
  unfolding after
  run-Entitled [] w h = inl (h, tt)
  run-Entitled (body ∷ bodies) w h = elim (run-Entitled bodies (serve_request c a body w).1 h) [
    | inr l ↦ inr (record {
      before = body ∷ l.before;
      login = l.login;
      since = l.since;
      split = ap (λ rest. body ∷ rest) l.split;
      accepted = l.accepted;
      stayed = l.stayed;
    })
    | inl (admin_now, stayed) ↦ elim (serve-Entitled c a body w admin_now) [
      | inl (admin_before, not_logout) ↦ inl (admin_before, (not_logout, stayed))
      | inr accepted ↦ inr (record {
        before = [];
        login = body;
        since = bodies;
        split = refl;
        accepted = accepted;
        stayed = stayed;
      })
    ]
  ]

  -- If a connection that began without a login ends up with an administrator's session, then one of
  -- its requests was a login that `verify_login` accepted in the state it met, and no request after
  -- it was a logout.
  pub admin_needs_login :
      (bodies : List MsgBody) (w : Context c a)
      → w.session.role ≡ Role.student
      → (after bodies w).session.role ≡ Role.admin
      → LoggedIn bodies w
  admin_needs_login bodies w start h = elim (run-Entitled bodies w h) [
    | inl (admin_before, stayed) ↦ absurd (not_both w.session.role start admin_before)
    | inr l ↦ l
  ]
    where
      not_both : (r : Role) → r ≡ Role.student → r ≢ Role.admin
      not_both r s e = cc
