-- ===== src/CourseStore/Stored.antt =====
-- Sequences of calls of the repository.
use dcn1003_group.Base.{Bool, true, List, [], ◌∷◌, map, if◌then◌else◌, Bytes}
use dcn1003_group.Wire.{Course}
use dcn1003_group.Sqlite.{Sqlite, c_str}
use dcn1003_group.Database.{Database}
use dcn1003_group.CourseStore.Statements.{
  insert_course_sql, insert_schedule_sql, update_course_sql, update_schedule_sql, delete_course_sql,
  delete_schedule_sql,
}
use dcn1003_group.CourseStore.{
  course_binds, schedule_binds, course_changes, schedule_changes, insert_or_replace, update,
  delete_course, delete_schedule,
}
use dcn1003_group.CourseStore.Queries.Kept.{Query, look, look-AtRest}
use dcn1003_group.CourseStore.Transactions.{Transactions, AtRest, AllOrNothing, both}
use dcn1003_group.CourseStore.Transactions.Writes.{
  transact-AllOrNothing, single-AllOrNothing, run_at-AllOrNothing,
}

-- The calls of the repository.
pub data Call : Type 0 where
  insert_course : Course → Call
  update_course : Course → Call
  remove_course : Bytes → Bytes → Call
  remove_schedule : Bytes → Bytes → Bytes → Bytes → Bytes → Call
  ask : Query → Call

module _ (q : Sqlite) where
  abbrev pub call : Call → Database q.Db → Bool × Database q.Db
  call (insert_course x) r = insert_or_replace q x r
  call (update_course x) r = update q x r
  call (remove_course code section) r = delete_course q code section r
  call (remove_schedule code section day duration semester) r =
      delete_schedule q code section day duration semester r
  call (ask p) r = (true, look q p r)

  -- One call after the other, with what each write returned.
  unfoldable pub run_calls : List Call → Database q.Db → List Bool × Database q.Db
  run_calls [] r = ([], r)
  run_calls (w ∷ ws) r =
      let (ok, r') = call w r in let (oks, r'') = run_calls ws r' in (ok ∷ oks, r'')

module _ (q : Sqlite) (laws : Transactions q) where
  -- The content that a call asks for.
  abbrev pub wanted : Call → laws.Content → laws.Content
  wanted (insert_course x) c =
      both q laws insert_course_sql (course_binds x) insert_schedule_sql (schedule_binds x) c
  wanted (update_course x) c =
      both q laws update_course_sql (course_changes x) update_schedule_sql (schedule_changes x) c
  wanted (remove_course code section) c =
      laws.apply delete_course_sql (map c_str (code ∷ section ∷ [])) c
  wanted (remove_schedule code section day duration semester) c =
      laws.apply delete_schedule_sql (map c_str (code ∷ section ∷ day ∷ duration ∷ semester ∷ [])) c
  wanted (ask p) c = c

  -- The writes that returned true, one after the other; the others do nothing.
  abbrev pub replay : List Call → List Bool → laws.Content → laws.Content
  replay [] oks c = c
  replay (w ∷ ws) [] c = c
  replay (w ∷ ws) (ok ∷ oks) c = replay ws oks (if ok then wanted w c else c)

  pub call-AtRest :
      (w : Call) (r : Database q.Db) (c : laws.Content)
      → AtRest q laws r c
      → AllOrNothing q laws c (wanted w c) (call q w r)
  unfolding insert_or_replace update delete_course delete_schedule
  call-AtRest (insert_course x) r c rest =
      run_at-AllOrNothing q laws c _ _ r.handle r
        (transact-AllOrNothing q laws insert_course_sql (course_binds x) insert_schedule_sql
          (schedule_binds x) c r)
        rest
  call-AtRest (update_course x) r c rest =
      run_at-AllOrNothing q laws c _ _ r.handle r
        (transact-AllOrNothing q laws update_course_sql (course_changes x) update_schedule_sql
          (schedule_changes x) c r)
        rest
  call-AtRest (remove_course code section) r c rest =
      run_at-AllOrNothing q laws c _ _ r.handle r
        (single-AllOrNothing q laws delete_course_sql (map c_str (code ∷ section ∷ [])) c r) rest
  call-AtRest (remove_schedule code section day duration semester) r c rest =
      run_at-AllOrNothing q laws c _ _ r.handle r
        (single-AllOrNothing q laws delete_schedule_sql
          (map c_str (code ∷ section ∷ day ∷ duration ∷ semester ∷ [])) c r)
        rest
  call-AtRest (ask p) r c rest = look-AtRest q laws p r c rest

  -- Whatever SQLite answers in a sequence of insertions, updates, deletions and queries on an open database with no
  -- transaction open: afterwards no transaction is open, and the content is what the writes that
  -- returned true ask for, one after the other.
  pub run_calls-AtRest :
      (ws : List Call) (r : Database q.Db) (c : laws.Content)
      → AtRest q laws r c
      → AtRest q laws (run_calls q ws r).1 (replay ws (run_calls q ws r).0 c)
  unfolding run_calls
  run_calls-AtRest [] r c rest = rest
  run_calls-AtRest (w ∷ ws) r c rest = run_calls-AtRest ws (call q w r).1 _ (call-AtRest w r c rest)
