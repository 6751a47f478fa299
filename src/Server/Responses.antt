-- ===== src/Server/Responses.antt =====
-- What the server may answer: `send_response_s` refuses a response whose code is not S2C or whose
-- payload is empty.
use dcn1003_group.Base.{
  ◌≡◌, refl, true, false, none, some, [], inl, inr, arith, ltb, Bool-cases, Option-cases, codes,
  is_empty, get_or,
}
use dcn1003_group.CmdType.{is_s2c}
use dcn1003_group.Wire.RoundTrip.{serialize_courses_not_empty, serialize_names_not_empty}
use dcn1003_group.Repository.{CourseRepository, AdministratorRepository}
use dcn1003_group.Dispatch.{
  MsgBody, Response, Outcome, returned, thrown, Context, HandlerFn, Entry, role_code, find_entry,
  guard_exceptions, run_entry, dispatch,
}
use dcn1003_group.Dispatch.Table.{AllEntries, AllEntries-find_entry}
use dcn1003_group.Server.Login.{handle_login, handle_logout}
use dcn1003_group.Server.Query.{
  page_of, handle_query_code, handle_query_instructor, handle_query_semester, handle_view_all,
  handle_view_all_page,
}
use dcn1003_group.Server.CourseAdmin.{handle_add, handle_update, handle_delete}
use dcn1003_group.Server.AdminAccounts.{
  handle_admin_list, handle_admin_create, handle_admin_update, handle_admin_delete,
}
use dcn1003_group.Server.Register.{register_all_server}

abbrev pub IsSendable : Response → Type 0
IsSendable r = (is_s2c r.cmd_type ≡ true) × (is_empty r.payload ≡ false)

-- The handler returned, and what it returned can be sent.
abbrev IsAnswer : Outcome → Type 0
IsAnswer (returned r) = IsSendable r
IsAnswer (thrown what) = ⊥

module _ (c : CourseRepository) (a : AdministratorRepository) where
  abbrev Answers : HandlerFn c a → Type 0
  Answers fn = (body : MsgBody) (w : Context c a) → IsAnswer (fn body w).0

  handle_login-Answers : Answers (handle_login c a)
  unfolding handle_login is_s2c is_empty codes
  handle_login-Answers body w = ground arith

  handle_logout-Answers : Answers (handle_logout c a)
  unfolding handle_logout is_s2c is_empty codes
  handle_logout-Answers body w = ground arith

  handle_query_code-Answers : Answers (handle_query_code c a)
  unfolding handle_query_code is_s2c is_empty codes
  handle_query_code-Answers body w = ground (
    arith,
    serialize_courses_not_empty (c.search_by_course_code (get_or body.payload 0 []) w.courses).0,
  )

  handle_query_instructor-Answers : Answers (handle_query_instructor c a)
  unfolding handle_query_instructor is_s2c is_empty codes
  handle_query_instructor-Answers body w = ground (
    arith,
    serialize_courses_not_empty (c.search_by_instructor (get_or body.payload 0 []) w.courses).0,
  )

  handle_query_semester-Answers : Answers (handle_query_semester c a)
  unfolding handle_query_semester is_s2c is_empty codes
  handle_query_semester-Answers body w = ground (
    arith,
    serialize_courses_not_empty (c.view_courses_by_semester (get_or body.payload 0 []) w.courses).0,
  )

  handle_view_all-Answers : Answers (handle_view_all c a)
  unfolding handle_view_all is_s2c is_empty codes
  handle_view_all-Answers body w =
      ground (arith, serialize_courses_not_empty (c.view_all_courses w.courses).0)

  handle_view_all_page-Answers : Answers (handle_view_all_page c a)
  unfolding handle_view_all_page is_s2c is_empty codes
  handle_view_all_page-Answers body w = ground (
    arith,
    serialize_courses_not_empty
        (c.view_all_courses_paged (page_of body.payload).0 (page_of body.payload).1 w.courses).0,
  )

  handle_add-Answers : Answers (handle_add c a)
  unfolding handle_add is_s2c is_empty codes
  handle_add-Answers body w = ground arith

  handle_update-Answers : Answers (handle_update c a)
  unfolding handle_update is_s2c is_empty codes
  handle_update-Answers body w = ground arith

  handle_delete-Answers : Answers (handle_delete c a)
  unfolding handle_delete is_s2c is_empty codes
  handle_delete-Answers body w = ground arith

  handle_admin_list-Answers : Answers (handle_admin_list c a)
  unfolding handle_admin_list is_s2c is_empty codes
  handle_admin_list-Answers body w =
      ground (arith, serialize_names_not_empty (a.list_usernames w.admins).0)

  handle_admin_create-Answers : Answers (handle_admin_create c a)
  unfolding handle_admin_create is_s2c is_empty codes
  handle_admin_create-Answers body w = ground arith

  handle_admin_update-Answers : Answers (handle_admin_update c a)
  unfolding handle_admin_update is_s2c is_empty codes
  handle_admin_update-Answers body w = ground arith

  handle_admin_delete-Answers : Answers (handle_admin_delete c a)
  unfolding handle_admin_delete is_s2c is_empty codes
  handle_admin_delete-Answers body w = ground arith

  server-Answers : AllEntries c a (λ _ e. Answers e.fn) (register_all_server c a [])
  unfolding register_all_server
  server-Answers = (
    handle_login-Answers,
    (
      handle_logout-Answers,
      (
        handle_query_code-Answers,
        (
          handle_query_instructor-Answers,
          (
            handle_query_semester-Answers,
            (
              handle_view_all-Answers,
              (
                handle_view_all_page-Answers,
                (
                  handle_add-Answers,
                  (
                    handle_update-Answers,
                    (
                      handle_delete-Answers,
                      (
                        handle_admin_list-Answers,
                        (
                          handle_admin_create-Answers,
                          (handle_admin_update-Answers, (handle_admin_delete-Answers, tt)),
                        ),
                      ),
                    ),
                  ),
                ),
              ),
            ),
          ),
        ),
      ),
    ),
  )

  guard-IsSendable :
      (r : Outcome × Context c a) → IsAnswer r.0 → IsSendable (guard_exceptions c a r).0
  unfolding guard_exceptions
  guard-IsSendable (returned resp, w) h = h
  guard-IsSendable (thrown what, w) h = elim h [ ]

  run_entry-IsSendable :
      (e : Entry c a) (body : MsgBody) (w : Context c a)
      → Answers e.fn
      → IsSendable (run_entry c a (some e) body w).0
  unfolding run_entry is_s2c is_empty codes
  run_entry-IsSendable e body w h =
      elim (Bool-cases (ltb (role_code w.session.role) (role_code e.required))) [
        | inl denied ↦ rw denied (refl, refl)
        | inr allowed ↦ rw allowed (guard-IsSendable (e.fn body w) (h body w))
      ]

  unknown-IsSendable : (body : MsgBody) (w : Context c a) → IsSendable (run_entry c a none body w).0
  unfolding run_entry is_s2c is_empty codes
  unknown-IsSendable body w = (refl, refl)

  -- Whatever the request and the state, the server's response has a server-to-client code and a
  -- non-empty payload.
  pub dispatch-IsSendable :
      (body : MsgBody) (w : Context c a)
      → IsSendable (dispatch c a (register_all_server c a []) body w).0
  unfolding dispatch
  dispatch-IsSendable body w =
      elim (Option-cases (find_entry c a body.cmd_type (register_all_server c a []))) [
        | inl unknown ↦ rw unknown (unknown-IsSendable body w)
        | inr (e, found) ↦ rw found (
            run_entry-IsSendable e body w (
              AllEntries-find_entry c a (λ _ e. Answers e.fn) body.cmd_type e _ server-Answers
                found))
      ]
