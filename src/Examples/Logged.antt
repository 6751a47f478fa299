-- ===== src/Examples/Logged.antt =====
-- SQLite whose database is the log of the statements that were done. It refuses a statement whose first
-- text is empty, and a second transaction in an open one. And a file system that always opens it.
use dcn1003_group.Base.{
  ℕ, suc, ◌-◌, ◌≡◌, refl, inl, Bool, true, false, Option, none, some, List, [], ◌∷◌, arith,
  if◌then◌else◌, Bytes, codes, bytes_eq,
}
use dcn1003_group.Sqlite.{Sqlite}
use dcn1003_group.Database.{Files}
use dcn1003_group.Database.Owned.{Connections}
use dcn1003_group.CourseStore.Statements.{begin_sql, commit_sql, rollback_sql}
use dcn1003_group.CourseStore.Transactions.{Transactions}

abbrev pub Log : Type 0
Log = List (Bytes × List Bytes)

pub record LogDb : Type 0 where
  pub log : Log
  pub began : Option Log

abbrev begin_log : Option Log → LogDb → Bool × Option Bytes × LogDb
begin_log none db = (true, none, record { log = db.log; began = some db.log })
begin_log (some l) db = (false, some (codes "cannot start a transaction within a transaction"), db)

abbrev commit_log : Option Log → LogDb → Bool × Option Bytes × LogDb
commit_log none db = (false, none, db)
commit_log (some l) db = (true, none, record { log = db.log; began = none })

abbrev rollback_log : Option Log → LogDb → Bool × Option Bytes × LogDb
rollback_log none db = (false, none, db)
rollback_log (some l) db = (true, none, record { log = l; began = none })

unfoldable pub exec_log : Bytes → LogDb → Bool × Option Bytes × LogDb
exec_log sql db =
    if bytes_eq sql begin_sql
    then begin_log db.began db
    else if bytes_eq sql commit_sql
    then commit_log db.began db
    else if bytes_eq sql rollback_sql
    then rollback_log db.began db
    else (true, none, db)

unfoldable pub step_log : Bytes → List Bytes → LogDb → Bool × ℕ × LogDb
step_log sql ([] ∷ binds) db = (false, 0, db)
step_log sql binds db = (true, 1, record db { log = (sql, binds) ∷ db.log })

abbrev pub logged : Sqlite
logged = record {
  Db = LogDb;
  exec = exec_log;
  prepare = λ sql db. (true, db);
  bind = λ sql i text db. (true, db);
  rows = λ sql binds db. [];
  ends = λ sql binds db. (true, db);
  first_int = λ sql db. none;
  step = step_log;
  errmsg = λ db. codes "constraint failed";
}

begin_lem : (db : LogDb) → exec_log begin_sql db ≡ begin_log db.began db
unfolding exec_log bytes_eq codes
begin_lem db = refl

commit_lem : (db : LogDb) → exec_log commit_sql db ≡ commit_log db.began db
unfolding exec_log bytes_eq codes
commit_lem db = refl

rollback_lem : (db : LogDb) → exec_log rollback_sql db ≡ rollback_log db.began db
unfolding exec_log bytes_eq codes
rollback_lem db = refl

begins_lem :
    (b : Option Log) (db : LogDb)
    → (begin_log b db).0 ≡ true
    → ((begin_log b db).2.log ≡ db.log) × ((begin_log b db).2.began ≡ some db.log)
begins_lem none db ok = (refl, refl)
begins_lem (some l) db ok = absurd (ground arith)

begins_not_lem :
    (b : Option Log) (db : LogDb) → (begin_log b db).0 ≡ false → (begin_log b db).2 ≡ db
begins_not_lem none db ok = absurd (ground arith)
begins_not_lem (some l) db ok = refl

commits_lem :
    (b : Option Log) (db : LogDb)
    → (commit_log b db).0 ≡ true
    → ((commit_log b db).2.log ≡ db.log) × ((commit_log b db).2.began ≡ none)
commits_lem none db ok = absurd (ground arith)
commits_lem (some l) db ok = (refl, refl)

commits_not_lem :
    (b : Option Log) (db : LogDb) → (commit_log b db).0 ≡ false → (commit_log b db).2 ≡ db
commits_not_lem none db ok = refl
commits_not_lem (some l) db ok = absurd (ground arith)

rolls_back_lem :
    (b : Option Log) (db : LogDb) (c : Log)
    → b ≡ some c
    → ((rollback_log b db).2.log ≡ c) × ((rollback_log b db).2.began ≡ none)
rolls_back_lem none db c e = absurd (ground arith)
rolls_back_lem (some l) db c e = (ground arith, refl)

rolls_back_not_lem :
    (b : Option Log) (db : LogDb)
    → db.began ≡ b
    → b ≡ none
    → ((rollback_log b db).2.log ≡ db.log) × ((rollback_log b db).2.began ≡ none)
rolls_back_not_lem none db same e = (refl, same)
rolls_back_not_lem (some l) db same e = absurd (ground arith)

done_lem :
    (sql : Bytes) (binds : List Bytes) (db : LogDb)
    → (step_log sql binds db).0 ≡ true
    → ((step_log sql binds db).2.log ≡ (sql, binds) ∷ db.log)
      × ((step_log sql binds db).2.began ≡ db.began)
unfolding step_log
done_lem sql [] db ok = (refl, refl)
done_lem sql ([] ∷ binds) db ok = absurd (ground arith)
done_lem sql ((c ∷ s) ∷ binds) db ok = (refl, refl)

not_done_lem :
    (sql : Bytes) (binds : List Bytes) (db : LogDb)
    → (step_log sql binds db).0 ≡ false
    → (step_log sql binds db).2 ≡ db
unfolding step_log
not_done_lem sql [] db ok = absurd (ground arith)
not_done_lem sql ([] ∷ binds) db ok = refl
not_done_lem sql ((c ∷ s) ∷ binds) db ok = absurd (ground arith)

unfoldable pub logged-Transactions : Transactions logged
unfolding begin_lem begins_lem begins_not_lem done_lem not_done_lem commit_lem commits_lem
    commits_not_lem rollback_lem rolls_back_lem rolls_back_not_lem
logged-Transactions = record {
  Content = Log;
  content = λ (db : LogDb). db.log;
  saved = λ (db : LogDb). db.began;
  apply = λ sql binds c. (sql, binds) ∷ c;
  begins = λ db ok. rw begin_lem (begins_lem db.began db (rw begin_lem at ok));
  begins_not =
      λ db ok. rw (begin_lem, begins_not_lem db.began db (rw begin_lem at ok)) (refl, refl);
  prepares = λ sql db. (refl, refl);
  binds_text = λ sql i text db. (refl, refl);
  selects = λ sql binds db. (refl, refl);
  done = done_lem;
  not_done = λ sql binds db ok. inl (rw (not_done_lem sql binds db ok) (refl, refl));
  commits = λ db ok. rw commit_lem (commits_lem db.began db (rw commit_lem at ok));
  commits_not = λ db ok.
      inl (rw (commit_lem, commits_not_lem db.began db (rw commit_lem at ok)) (refl, refl));
  rolls_back = λ db c began. rw rollback_lem (rolls_back_lem db.began db c began);
  rolls_back_not = λ db idle. rw rollback_lem (rolls_back_not_lem db.began db refl idle);
}

-- A disk that counts its connections, on which every file opens.
abbrev pub counting_files : Files logged
counting_files = record {
  Disk = ℕ;
  parent_path = λ path. codes "data";
  path_exists = λ path disk. false;
  create_directories = λ path disk. (none, disk);
  open_v2 = λ path disk. (inl (true, record { log = []; began = none }), suc disk);
  busy_timeout = λ ms db. (true, db);
  wal_checkpoint = λ db. db;
  close = λ db disk. disk - 1;
}

abbrev pub counting_files-Connections : Connections counting_files
counting_files-Connections = record {
  live = λ disk. disk;
  makes = λ path disk. refl;
  ends = λ db disk n e. omega arith;
  directories = λ path disk. refl;
}
