-- ===== src/Server/Stored/Tests.antt =====
-- A course added through its handler, over the log of statements.
use dcn1003_group.Base.{refl, none, some, List, [], ◌∷◌, Bytes, codes}
use dcn1003_group.CmdType.{cmd_add_req}
use dcn1003_group.Wire.{course_of_fields}
use dcn1003_group.Dispatch.{json, MsgBody, Context, new_session}
use dcn1003_group.CourseStore.Queries.{sqlite_courses}
use dcn1003_group.CourseStore.Stored.{insert_course, update_course, remove_course, wanted}
use dcn1003_group.Server.CourseAdmin.{handle_add, handle_update, handle_delete}
use dcn1003_group.Server.Stored.{Acknowledged, course_writes-Acknowledged}
use dcn1003_group.Examples.Memory.{memory_admins}
use dcn1003_group.Examples.Logged.{logged, logged-Transactions}

abbrev nothing : logged-Transactions.Content
unfolding logged-Transactions
nothing = []

abbrev start : Context (sqlite_courses logged) memory_admins
start = record {
  session = new_session;
  courses = record { handle = some (record { log = []; began = none }); last_error = [] };
  admins = [];
}

abbrev fields : List Bytes
fields =
    codes "MA101"
    ∷ codes "1001"
    ∷ codes "Algebra"
    ∷ codes "Li"
    ∷ codes "Mon"
    ∷ codes "10:00"
    ∷ codes "2026S1"
    ∷ []
    ∷ []

abbrev add : MsgBody
add = record { cmd_type = cmd_add_req; req_id = 1; timestamp = 0; payload = fields }

course_writes-Acknowledged_example :
    Acknowledged logged logged-Transactions memory_admins nothing
      (wanted logged logged-Transactions (insert_course (course_of_fields fields)) nothing)
      (handle_add (sqlite_courses logged) memory_admins add start)
    × Acknowledged logged logged-Transactions memory_admins nothing
        (wanted logged logged-Transactions (update_course (course_of_fields fields)) nothing)
        (handle_update (sqlite_courses logged) memory_admins add start)
    × Acknowledged logged logged-Transactions memory_admins nothing
        (wanted logged logged-Transactions (remove_course (json fields 0) (json fields 1)) nothing)
        (handle_delete (sqlite_courses logged) memory_admins add start)
unfolding logged-Transactions nothing
course_writes-Acknowledged_example =
    course_writes-Acknowledged logged logged-Transactions memory_admins add start nothing
      (_, refl, refl, refl)
