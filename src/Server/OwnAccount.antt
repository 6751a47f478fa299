-- ===== src/Server/OwnAccount.antt =====
-- What the requests on accounts do to the session that makes them.
use dcn1003_group.Base.{
  ◌≡◌, ◌≢◌, refl, ◌⊎◌, inl, inr, Bool, true, false, arith, Bool-cases, bytes_eq, bytes_eq_iff,
  is_empty, not, ◌||◌, ltb, length, Bytes,
}
use dcn1003_group.Repository.{CourseRepository, AdministratorRepository}
use dcn1003_group.Dispatch.{json, MsgBody, Context}
use dcn1003_group.Server.AdminAccounts.{
  finish_update, password_written, update_password, renamed, handle_admin_update,
  handle_admin_delete,
}

module _ (c : CourseRepository) (a : AdministratorRepository) where
  -- The role of the session stays, and its name is as it was, or it was the old one and is the new one.
  abbrev pub NameFollows : Bytes → Bytes → Context c a → Context c a → Type 0
  NameFollows old_name new_name w w' =
      (w'.session.role ≡ w.session.role)
      × ((w'.session.name ≡ w.session.name)
          ⊎ ((w.session.name ≡ old_name) × (w'.session.name ≡ new_name)))

  finish_update-NameFollows :
      (old_name new_name : Bytes) (w : Context c a)
      → NameFollows old_name new_name w (finish_update c a old_name new_name w).1
  finish_update-NameFollows old_name new_name w =
      ground (arith, bytes_eq_iff w.session.name old_name)

  password_written-NameFollows :
      (old_name new_name : Bytes) (r : Bool × a.Repo) (w : Context c a)
      → NameFollows old_name new_name w (password_written c a old_name new_name r w).1
  password_written-NameFollows old_name new_name (false, repo) w = (refl, inl refl)
  password_written-NameFollows old_name new_name (true, repo) w =
      finish_update-NameFollows old_name new_name (record w { admins = repo })

  update_password-NameFollows :
      (old_name new_name new_pass : Bytes) (w : Context c a)
      → NameFollows old_name new_name w (update_password c a old_name new_name new_pass w).1
  update_password-NameFollows old_name new_name new_pass w = elim (Bool-cases (is_empty new_pass)) [
    | inl kept ↦ rw kept (finish_update-NameFollows old_name new_name w)
    | inr given ↦ rw given (password_written-NameFollows old_name new_name _ w)
  ]

  renamed-NameFollows :
      (old_name new_name new_pass : Bytes) (r : Bool × a.Repo) (w : Context c a)
      → NameFollows old_name new_name w (renamed c a old_name new_name new_pass r w).1
  renamed-NameFollows old_name new_name new_pass (false, repo) w = (refl, inl refl)
  renamed-NameFollows old_name new_name new_pass (true, repo) w =
      update_password-NameFollows old_name new_name new_pass (record w { admins = repo })

  -- Whatever the request and the repository's answers, an update of an account keeps the session's role,
  -- and it changes the session's name only from the old name in the request to the new one.
  pub handle_admin_update-NameFollows :
      (body : MsgBody) (w : Context c a)
      → NameFollows (json body.payload 0) (json body.payload 1) w (handle_admin_update c a body w).1
  unfolding handle_admin_update
  handle_admin_update-NameFollows body w =
      let old_name = json body.payload 0 in
      let new_name = json body.payload 1 in
      let new_pass = json body.payload 2 in
      elim (Bool-cases (ltb (length body.payload) 3)) [
        | inl short ↦ rw short (refl, inl refl)
        | inr long ↦ elim (Bool-cases (is_empty old_name || is_empty new_name)) [
          | inl empty ↦ rw (long, empty) (refl, inl refl)
          | inr filled ↦ elim (Bool-cases (not (a.exists old_name w.admins))) [
            | inl unknown ↦ rw (long, filled, unknown) (refl, inl refl)
            | inr known ↦ elim (Bool-cases (bytes_eq old_name new_name)) [
              | inl same ↦
                  rw (long, filled, known, same)
                    (update_password-NameFollows old_name new_name new_pass w)
              | inr other ↦
                  rw (long, filled, known, other)
                    (renamed-NameFollows old_name new_name new_pass _ w)
            ]
          ]
        ]
      ]

  -- Whatever the request, a removal keeps the session, and it touches the accounts only by removing one
  -- whose name is not the session's.
  pub handle_admin_delete_keeps_own :
      (body : MsgBody) (w : Context c a)
      → ((handle_admin_delete c a body w).1 ≡ w)
        ⊎ ((json body.payload 0 ≢ w.session.name)
            × ((handle_admin_delete c a body w).1
                ≡ record w { admins = (a.remove (json body.payload 0) w.admins).1 }))
  unfolding handle_admin_delete
  handle_admin_delete_keeps_own body w =
      ground (arith, bytes_eq_iff (json body.payload 0) w.session.name)
