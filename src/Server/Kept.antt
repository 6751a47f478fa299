-- ===== src/Server/Kept.antt =====
-- What a request keeps of the repositories: whatever their operations keep.
use dcn1003_group.Base.{
  ◌≡◌, refl, ◌∙◌, Bool, true, false, inl, inr, [], arith, ltb, both_branches, Option-cases, Bytes,
}
use dcn1003_group.Base.Int.{ℤ}
use dcn1003_group.Wire.{Course, course_of_fields}
use dcn1003_group.Repository.{Administrator, CourseRepository, AdministratorRepository}
use dcn1003_group.Dispatch.{
  MsgBody, Response, json, Outcome, returned, thrown, Context, HandlerFn, role_code, find_entry,
  guard_exceptions, run_entry, dispatch,
}
use dcn1003_group.Dispatch.Table.{AllEntries, AllEntries-find_entry}
use dcn1003_group.Server.Login.{handle_login, handle_logout}
use dcn1003_group.Server.Query.{
  handle_query_code, handle_query_instructor, handle_query_semester, handle_view_all,
  handle_view_all_page, page_of,
}
use dcn1003_group.Server.CourseAdmin.{handle_add, handle_update, handle_delete}
use dcn1003_group.Server.AdminAccounts.{
  update_password, renamed, handle_admin_list, handle_admin_create, handle_admin_update,
  handle_admin_delete,
}
use dcn1003_group.Server.Register.{register_all_server}
use dcn1003_group.Server.Access.{serve_request}

-- An observation of the course repository that none of its operations changes.
pub record KeepsCourses (c : CourseRepository) (seen : c.Repo → Bool) : Type 0 where
  pub insert_or_replace : (x : Course) (r : c.Repo) → seen (c.insert_or_replace x r).1 ≡ seen r
  pub search_by_course_code :
      (s : Bytes) (r : c.Repo) → seen (c.search_by_course_code s r).1 ≡ seen r
  pub search_by_instructor : (s : Bytes) (r : c.Repo) → seen (c.search_by_instructor s r).1 ≡ seen r
  pub view_courses_by_semester :
      (s : Bytes) (r : c.Repo) → seen (c.view_courses_by_semester s r).1 ≡ seen r
  pub view_all_courses : (r : c.Repo) → seen (c.view_all_courses r).1 ≡ seen r
  pub view_all_courses_paged :
      (offset limit : ℤ) (r : c.Repo) → seen (c.view_all_courses_paged offset limit r).1 ≡ seen r
  pub delete_course :
      (code section : Bytes) (r : c.Repo) → seen (c.delete_course code section r).1 ≡ seen r
  pub update : (x : Course) (r : c.Repo) → seen (c.update x r).1 ≡ seen r

-- The same of the administrators' repository.
pub record KeepsAdmins (a : AdministratorRepository) (seen : a.Repo → Bool) : Type 0 where
  pub insert_or_replace :
      (x : Administrator) (r : a.Repo) → seen (a.insert_or_replace x r).1 ≡ seen r
  pub verify_login : (u s : Bytes) (r : a.Repo) → seen (a.verify_login u s r).1 ≡ seen r
  pub list_usernames : (r : a.Repo) → seen (a.list_usernames r).1 ≡ seen r
  pub rename : (u v : Bytes) (r : a.Repo) → seen (a.rename u v r).1 ≡ seen r
  pub remove : (u : Bytes) (r : a.Repo) → seen (a.remove u r).1 ≡ seen r

module _ (c : CourseRepository) (a : AdministratorRepository) (of_courses : c.Repo → Bool)
    (of_admins : a.Repo → Bool) (kc : KeepsCourses c of_courses)
    (ka : KeepsAdmins a of_admins) where
  -- Both observations are those of before.
  abbrev pub Keeps : Context c a → Context c a → Type 0
  Keeps w w' =
      (of_courses w'.courses ≡ of_courses w.courses) × (of_admins w'.admins ≡ of_admins w.admins)

  abbrev KeepsFn : HandlerFn c a → Type 0
  KeepsFn fn = (body : MsgBody) (w : Context c a) → Keeps w (fn body w).1

  login-Keeps : KeepsFn (handle_login c a)
  unfolding handle_login
  login-Keeps body w =
      ground (arith, ka.verify_login (json body.payload 0) (json body.payload 1) w.admins)

  logout-Keeps : KeepsFn (handle_logout c a)
  unfolding handle_logout
  logout-Keeps body w = (refl, refl)

  query_code-Keeps : KeepsFn (handle_query_code c a)
  unfolding handle_query_code
  query_code-Keeps body w = ground (arith, kc.search_by_course_code (json body.payload 0) w.courses)

  query_instructor-Keeps : KeepsFn (handle_query_instructor c a)
  unfolding handle_query_instructor
  query_instructor-Keeps body w =
      ground (arith, kc.search_by_instructor (json body.payload 0) w.courses)

  query_semester-Keeps : KeepsFn (handle_query_semester c a)
  unfolding handle_query_semester
  query_semester-Keeps body w =
      ground (arith, kc.view_courses_by_semester (json body.payload 0) w.courses)

  view_all-Keeps : KeepsFn (handle_view_all c a)
  unfolding handle_view_all
  view_all-Keeps body w = ground (arith, kc.view_all_courses w.courses)

  view_all_page-Keeps : KeepsFn (handle_view_all_page c a)
  unfolding handle_view_all_page
  view_all_page-Keeps body w =
      ground (
        arith,
        kc.view_all_courses_paged (page_of body.payload).0 (page_of body.payload).1 w.courses,
      )

  add-Keeps : KeepsFn (handle_add c a)
  unfolding handle_add
  add-Keeps body w = ground (arith, kc.insert_or_replace (course_of_fields body.payload) w.courses)

  update-Keeps : KeepsFn (handle_update c a)
  unfolding handle_update
  update-Keeps body w = ground (arith, kc.update (course_of_fields body.payload) w.courses)

  delete-Keeps : KeepsFn (handle_delete c a)
  unfolding handle_delete
  delete-Keeps body w =
      ground (arith, kc.delete_course (json body.payload 0) (json body.payload 1) w.courses)

  admin_list-Keeps : KeepsFn (handle_admin_list c a)
  unfolding handle_admin_list
  admin_list-Keeps body w = ground (arith, ka.list_usernames w.admins)

  admin_create-Keeps : KeepsFn (handle_admin_create c a)
  unfolding handle_admin_create
  admin_create-Keeps body w = ground (
    arith,
    ka.insert_or_replace (record { username = json body.payload 0; password = json body.payload 1 })
        w.admins,
  )

  -- The end of an update, from the repository that the rename left.
  update_password-Keeps :
      (old_name new_name new_pass : Bytes) (w : Context c a)
      → Keeps w (update_password c a old_name new_name new_pass w).1
  update_password-Keeps old_name new_name new_pass w =
      let written =
        ka.insert_or_replace (record { username = new_name; password = new_pass }) w.admins in
      ground (arith, written)

  renamed-Keeps :
      (old_name new_name new_pass : Bytes) (answer : Bool × a.Repo) (w : Context c a)
      → of_admins answer.1 ≡ of_admins w.admins
      → Keeps w (renamed c a old_name new_name new_pass answer w).1
  renamed-Keeps old_name new_name new_pass (false, repo) w h = (refl, h)
  renamed-Keeps old_name new_name new_pass (true, repo) w h =
      let (same, kept) =
        update_password-Keeps old_name new_name new_pass (record w { admins = repo }) in
      (same, kept ∙ h)

  admin_update-Keeps : KeepsFn (handle_admin_update c a)
  unfolding handle_admin_update
  admin_update-Keeps body w =
      let old_name = json body.payload 0 in
      let new_name = json body.payload 1 in
      let new_pass = json body.payload 2 in
      let password = update_password-Keeps old_name new_name new_pass w in
      let both =
        renamed-Keeps old_name new_name new_pass (a.rename old_name new_name w.admins) w
          (ka.rename old_name new_name w.admins) in
      ground (arith, password, both)

  admin_delete-Keeps : KeepsFn (handle_admin_delete c a)
  unfolding handle_admin_delete
  admin_delete-Keeps body w = ground (arith, ka.remove (json body.payload 0) w.admins)

  server-Keeps : AllEntries c a (λ k e. KeepsFn e.fn) (register_all_server c a [])
  unfolding register_all_server
  server-Keeps = (
    login-Keeps,
    (
      logout-Keeps,
      (
        query_code-Keeps,
        (
          query_instructor-Keeps,
          (
            query_semester-Keeps,
            (
              view_all-Keeps,
              (
                view_all_page-Keeps,
                (
                  add-Keeps,
                  (
                    update-Keeps,
                    (
                      delete-Keeps,
                      (
                        admin_list-Keeps,
                        (admin_create-Keeps, (admin_update-Keeps, (admin_delete-Keeps, tt))),
                      ),
                    ),
                  ),
                ),
              ),
            ),
          ),
        ),
      ),
    ),
  )

  guard-Keeps :
      (w : Context c a) (r : Outcome × Context c a)
      → Keeps w r.1
      → Keeps w (guard_exceptions c a r).1
  unfolding guard_exceptions
  guard-Keeps w (returned resp, w') h = h
  guard-Keeps w (thrown what, w') h = h

  -- An observation of each repository that none of its operations changes is changed by no request.
  pub serve_request-Keeps :
      (body : MsgBody) (w : Context c a) → Keeps w (serve_request c a body w).1
  unfolding dispatch run_entry
  serve_request-Keeps body w =
      elim (Option-cases (find_entry c a body.cmd_type (register_all_server c a []))) [
        | inl unknown ↦ rw unknown (refl, refl)
        | inr (e, found) ↦ rw found (
            both_branches (λ (x : Response × Context c a). Keeps w x.1)
              (ltb (role_code w.session.role) (role_code e.required)) (refl, refl)
              (guard-Keeps w (e.fn body w) (
                AllEntries-find_entry c a (λ k entry. KeepsFn entry.fn) body.cmd_type e _
                  server-Keeps found body w)))
      ]
