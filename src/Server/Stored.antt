-- ===== src/Server/Stored.antt =====
-- The handlers that write courses, over the SQLite repository: what the reply says of the database.
mod Tests
use dcn1003_group.Base.{
  ◌≡◌, refl, ◌⊎◌, inl, inr, Bool, true, false, ◌==◌, ◌||◌, ltb, if◌then◌else◌, both_branches, Bytes,
  codes, is_empty, length,
}
use dcn1003_group.CmdType.{cmd_error, cmd_admin_resp}
use dcn1003_group.Wire.{course_of_fields}
use dcn1003_group.Sqlite.{Sqlite}
use dcn1003_group.Database.{Database}
use dcn1003_group.Repository.{AdministratorRepository}
use dcn1003_group.Dispatch.{json, respond, MsgBody, Outcome, returned, thrown, Context}
use dcn1003_group.CourseStore.{insert_or_replace, update, delete_course}
use dcn1003_group.CourseStore.Queries.{sqlite_courses}
use dcn1003_group.CourseStore.Transactions.{Transactions, AtRest, AllOrNothing}
use dcn1003_group.CourseStore.Stored.{
  insert_course, update_course, remove_course, call, wanted, call-AtRest,
}
use dcn1003_group.Server.CourseAdmin.{written, handle_add, handle_update, handle_delete}

-- The reply is the acknowledgement of a write.
abbrev pub is_ok : Outcome → Bool
is_ok (returned r) = r.cmd_type == cmd_admin_resp
is_ok (thrown what) = false

module _ (q : Sqlite) (laws : Transactions q) (a : AdministratorRepository) where
  -- An acknowledged write left the content `c'`; one that was not left `c`. No transaction is open.
  abbrev pub Acknowledged :
      laws.Content → laws.Content → Outcome × Context (sqlite_courses q) a → Type 0
  Acknowledged c c' (out, w) =
      ((is_ok out ≡ true) × AtRest q laws w.courses c')
      ⊎ ((is_ok out ≡ false) × AtRest q laws w.courses c)

  written_reply :
      (failed : Bytes) (answer : Bool × Database q.Db) (w : Context (sqlite_courses q) a)
      (c c' : laws.Content)
      → AllOrNothing q laws c c' answer
      → Acknowledged c c' (written (sqlite_courses q) a failed answer w)
  written_reply failed (true, r) w c c' h = inl (refl, h)
  written_reply failed (false, r) w c c' h = inr (refl, h)

  -- The two tests of a handler before its write.
  guarded :
      (t u : Bool) (m n failed : Bytes) (answer : Bool × Database q.Db)
      (w : Context (sqlite_courses q) a) (c c' : laws.Content)
      → AtRest q laws w.courses c
      → AllOrNothing q laws c c' answer
      → Acknowledged c c' (
          if t
          then (returned (respond cmd_error m), w)
          else if u
          then (returned (respond cmd_error n), w)
          else written (sqlite_courses q) a failed answer w)
  guarded t u m n failed answer w c c' rest h =
      both_branches (Acknowledged c c') t (inr (refl, rest)) (
        both_branches (Acknowledged c c') u (inr (refl, rest))
          (written_reply failed answer w c c' h))

  -- Whatever SQLite answers to `handle_add`, `handle_update` and `handle_delete`, on an open database with
  -- no transaction open: if the reply is an acknowledgement, the content is the one that the request asks
  -- for, and otherwise it is the one of before; no transaction is open afterwards.
  pub course_writes-Acknowledged :
      (body : MsgBody) (w : Context (sqlite_courses q) a) (c : laws.Content)
      → AtRest q laws w.courses c
      → Acknowledged c
          (wanted q laws (insert_course (course_of_fields body.payload)) c)
          (handle_add (sqlite_courses q) a body w)
        × Acknowledged c
            (wanted q laws (update_course (course_of_fields body.payload)) c)
            (handle_update (sqlite_courses q) a body w)
        × Acknowledged c
            (wanted q laws (remove_course (json body.payload 0) (json body.payload 1)) c)
            (handle_delete (sqlite_courses q) a body w)
  unfolding handle_add handle_update handle_delete
  course_writes-Acknowledged body w c h =
      let p = body.payload in
      let x = course_of_fields p in
      let gone = remove_course (json p 0) (json p 1) in
      (
        guarded (ltb (length p) 8) (is_empty x.code || is_empty x.section) _ _ _
            (insert_or_replace q x w.courses) w c (wanted q laws (insert_course x) c) h
            (call-AtRest q laws (insert_course x) w.courses c h),
        guarded (ltb (length p) 8) (is_empty x.code || is_empty x.section) _ _ _
            (update q x w.courses) w c (wanted q laws (update_course x) c) h
            (call-AtRest q laws (update_course x) w.courses c h),
        guarded (ltb (length p) 2) (is_empty (json p 0) || is_empty (json p 1)) _ _ _
            (delete_course q (json p 0) (json p 1) w.courses) w c (wanted q laws gone c) h
            (call-AtRest q laws gone w.courses c h),
      )
