-- ===== src/CourseStore/Tests.antt =====
-- The repository over a log of statements.
use dcn1003_group.Base.{◌≡◌, refl, true, false, none, some, List, [], ◌∷◌, codes, bytes_eq}
use dcn1003_group.Base.Int.{pos}
use dcn1003_group.Wire.{Course}
use dcn1003_group.Database.{Database}
use dcn1003_group.CourseStore.{insert_or_replace, update, delete_course}
use dcn1003_group.CourseStore.Transactions.{AtRest}
use dcn1003_group.CourseStore.Queries.Kept.{of_page, look}
use dcn1003_group.CourseStore.Stored.{
  Call, insert_course, update_course, remove_course, ask, run_calls, replay, run_calls-AtRest,
}
use dcn1003_group.Examples.Logged.{LogDb, logged, logged-Transactions, exec_log, step_log}

-- The content with no statement done.
abbrev nothing : logged-Transactions.Content
unfolding logged-Transactions
nothing = []

abbrev opened_db : Database LogDb
opened_db = record { handle = some (record { log = []; began = none }); last_error = [] }

abbrev algebra : Course
algebra = record {
  code = codes "MA101";
  title = codes "Algebra";
  section = codes "1001";
  instructor = codes "Li";
  day = codes "Mon";
  duration = codes "10:00";
  semester = codes "2026S1";
  classroom = codes "T3";
}

-- Its first text is empty, so that the second statement of the update is refused.
abbrev no_room : Course
no_room = record algebra { classroom = [] }

abbrev calls : List Call
calls =
    insert_course algebra
    ∷ update_course no_room
    ∷ ask (of_page (pos 0) (pos 5))
    ∷ remove_course (codes "MA101") (codes "1001")
    ∷ []

-- The update is refused after its first statement, and nothing of it is left.
refuses_update : (run_calls logged calls opened_db).0 ≡ true ∷ false ∷ true ∷ true ∷ []
unfolding run_calls insert_or_replace update delete_course exec_log step_log codes bytes_eq look
refuses_update = refl

run_calls-AtRest_example :
    AtRest logged logged-Transactions
      (run_calls logged calls opened_db).1
      (replay logged logged-Transactions calls (run_calls logged calls opened_db).0 nothing)
unfolding logged-Transactions nothing
run_calls-AtRest_example =
    run_calls-AtRest logged logged-Transactions calls opened_db nothing (_, refl, refl, refl)
