-- ===== src/AdminStore/Logins/Tests.antt =====
-- Accounts in a table that is a function of the name, and knows every statement.
use dcn1003_group.Base.{
  ℕ, ◌≡◌, refl, sym, ap, ◌∙◌, Bool, true, false, not, if◌then◌else◌, Option, none, some, List, [],
  ◌∷◌, ◌==◌, arith, Bytes, codes, bytes_eq, bytes_eq_self, is_empty, both_branches,
}
use dcn1003_group.Database.Owned.{is_some}
use dcn1003_group.Examples.Repeated.{repeated, repeated-Fills}
use dcn1003_group.PasswordHash.{is_encoded, make}
use dcn1003_group.Sqlite.{Sqlite}
use dcn1003_group.AdminStore.{
  select_password, insert_sql, update_name_sql, update_password_sql, delete_sql, Store, exists,
  verify_login, rename, remove,
}
use dcn1003_group.AdminStore.Accounts.{Table, one_row}
use dcn1003_group.AdminStore.Logins.{Statements}
use dcn1003_group.AdminStore.Logins.Renamed.{Moved, rename-Moved}
use dcn1003_group.AdminStore.Logins.Removed.{Removed, remove-Removed}
use dcn1003_group.AdminStore.Logins.Upgraded.{Upgraded, writes_back, verify_login-Upgraded}

abbrev Rows : Type 0
Rows = Bytes → Option Bytes

abbrev set : Bytes → Option Bytes → Rows → Rows
set u o db v = if bytes_eq u v then o else db v

abbrev count_of {ℓ} : {A : Type ℓ} → Option A → ℕ
count_of none = 0
count_of (some a) = 1

abbrev inserts : List Bytes → Rows → Bool × ℕ × Rows
inserts (u ∷ text ∷ []) db = (true, 1, set u (some text) db)
inserts _ db = (false, 0, db)

abbrev renames : List Bytes → Rows → Bool × ℕ × Rows
renames (new_name ∷ old_name ∷ []) db = (true, 1, set new_name (db old_name) (set old_name none db))
renames _ db = (false, 0, db)

abbrev deletes : List Bytes → Rows → Bool × ℕ × Rows
deletes (u ∷ []) db = (true, count_of (db u), set u none db)
deletes _ db = (false, 0, db)

abbrev updates : List Bytes → Rows → Bool × ℕ × Rows
updates (text ∷ u ∷ []) db = (true, 1, set u (some text) db)
updates _ db = (false, 0, db)

step_rows : Bytes → List Bytes → Rows → Bool × ℕ × Rows
step_rows sql binds db =
    if bytes_eq sql insert_sql
    then inserts binds db
    else if bytes_eq sql update_name_sql
    then renames binds db
    else if bytes_eq sql delete_sql
    then deletes binds db
    else if bytes_eq sql update_password_sql
    then updates binds db
    else (false, 0, db)

abbrev select_rows : List Bytes → Rows → List (List (Option Bytes))
select_rows (u ∷ []) db = one_row (db u)
select_rows _ db = []

abbrev accounts : Sqlite
accounts = record {
  Db = Rows;
  exec = λ sql db. (true, none, db);
  prepare = λ sql db. (true, db);
  bind = λ sql i text db. (true, db);
  rows = λ sql binds db. select_rows binds db;
  first_int = λ sql db. none;
  ends = λ sql binds db. (true, db);
  step = step_rows;
  errmsg = λ db. [];
}

insert_lem :
    (u text : Bytes) (db : Rows)
    → step_rows insert_sql (u ∷ text ∷ []) db ≡ (true, 1, set u (some text) db)
unfolding step_rows codes bytes_eq
insert_lem u text db = refl

rename_lem :
    (new_name old_name : Bytes) (db : Rows)
    → step_rows update_name_sql (new_name ∷ old_name ∷ []) db
      ≡ (true, 1, set new_name (db old_name) (set old_name none db))
unfolding step_rows codes bytes_eq
rename_lem new_name old_name db = refl

delete_lem :
    (u : Bytes) (db : Rows)
    → step_rows delete_sql (u ∷ []) db ≡ (true, count_of (db u), set u none db)
unfolding step_rows codes bytes_eq
delete_lem u db = refl

update_lem :
    (u text : Bytes) (db : Rows)
    → step_rows update_password_sql (text ∷ u ∷ []) db ≡ (true, 1, set u (some text) db)
unfolding step_rows codes bytes_eq
update_lem u text db = refl

-- What a step that is known leaves.
left_lem : (a b : Bool × ℕ × Rows) (v : Bytes) → a ≡ b → b.2 v ≡ a.2 v
left_lem a b v e = ap (λ (t : Bool × ℕ × Rows). t.2 v) (sym e)

inserts_undone :
    (binds : List Bytes) (db : Rows) → (inserts binds db).0 ≡ false → (inserts binds db).2 ≡ db
inserts_undone [] db e = refl
inserts_undone (a ∷ []) db e = refl
inserts_undone (a ∷ b ∷ []) db e = absurd (ground arith)
inserts_undone (a ∷ b ∷ c ∷ binds) db e = refl

renames_undone :
    (binds : List Bytes) (db : Rows) → (renames binds db).0 ≡ false → (renames binds db).2 ≡ db
renames_undone [] db e = refl
renames_undone (a ∷ []) db e = refl
renames_undone (a ∷ b ∷ []) db e = absurd (ground arith)
renames_undone (a ∷ b ∷ c ∷ binds) db e = refl

deletes_undone :
    (binds : List Bytes) (db : Rows) → (deletes binds db).0 ≡ false → (deletes binds db).2 ≡ db
deletes_undone [] db e = refl
deletes_undone (a ∷ []) db e = absurd (ground arith)
deletes_undone (a ∷ b ∷ binds) db e = refl

updates_undone :
    (binds : List Bytes) (db : Rows) → (updates binds db).0 ≡ false → (updates binds db).2 ≡ db
updates_undone [] db e = refl
updates_undone (a ∷ []) db e = refl
updates_undone (a ∷ b ∷ []) db e = absurd (ground arith)
updates_undone (a ∷ b ∷ c ∷ binds) db e = refl

-- A step that is not done leaves the table.
step_undone :
    (sql : Bytes) (binds : List Bytes) (db : Rows)
    → (step_rows sql binds db).0 ≡ false
    → (step_rows sql binds db).2 ≡ db
unfolding step_rows
step_undone sql binds db = both_branches P (bytes_eq sql insert_sql) (inserts_undone binds db) (
    both_branches P (bytes_eq sql update_name_sql) (renames_undone binds db) (
      both_branches P (bytes_eq sql delete_sql) (deletes_undone binds db)
        (both_branches P (bytes_eq sql update_password_sql) (updates_undone binds db) (λ e. refl))))
  where
    P : Bool × ℕ × Rows → Type 0
    P answer = answer.0 ≡ false → answer.2 ≡ db

counts_lem {ℓ} : {A : Type ℓ} (o : Option A) → (count_of o == 0) ≡ not (is_some o)
counts_lem none = refl
counts_lem (some a) = refl

unfoldable accounts-Table : Table accounts
accounts-Table = record {
  password_of = λ db u. db u;
  prepares = λ sql u db. refl;
  selects = λ u db. refl;
  inserts = λ u text n db db' e.
      left_lem _ _ u (sym (insert_lem u text db) ∙ e) ∙ rw (bytes_eq_self u) refl;
}

exists_lem : (o : Option Bytes) → is_empty (one_row o) ≡ not (is_some o)
unfolding is_empty
exists_lem none = refl
exists_lem (some text) = refl

accounts-Statements : Statements accounts-Table
unfolding accounts-Table
accounts-Statements = record {
  finds = λ u db. exists_lem (db u);
  undone = λ sql binds n db db' v e.
      left_lem _ _ v e
      ∙ ap (λ (rows : Rows). rows v)
          (step_undone sql binds db (ap (λ (t : Bool × ℕ × Rows). t.0) e));
  renames = λ o w v n db db' e known. left_lem _ _ v (sym (rename_lem w o db) ∙ e);
  deletes = λ u v n db db' e. (
    ap (λ (t : Bool × ℕ × Rows). t.1 == 0) (sym e ∙ delete_lem u db) ∙ counts_lem (db u),
    left_lem _ _ v (sym (delete_lem u db) ∙ e),
  );
  updates = λ u text v n db db' e known. left_lem _ _ v (sym (update_lem u text db) ∙ e);
}

-- Amy and Bob, with plain passwords.
abbrev two_accounts : Store accounts repeated
two_accounts = record {
  handle = some (
      set (codes "amy") (some (codes "secret"))
        (set (codes "bob") (some (codes "sesame")) (λ u. none)));
  last_error = [];
  rng = 18;
}

always_ready : (db : Rows) → (accounts.prepare select_password db).0 ≡ true
always_ready db = refl

rename-Moved_example :
    Moved repeated accounts-Table accounts-Statements always_ready
      (codes "amy")
      (codes "ann")
      two_accounts
      (rename accounts repeated (codes "amy") (codes "ann") two_accounts)
unfolding codes bytes_eq
rename-Moved_example =
    rename-Moved repeated accounts-Table accounts-Statements always_ready (codes "amy")
      (codes "ann") two_accounts refl

remove-Removed_example :
    Removed repeated accounts-Table accounts-Statements always_ready
      (codes "amy")
      two_accounts
      (remove accounts repeated (codes "amy") two_accounts)
remove-Removed_example =
    remove-Removed repeated accounts-Table accounts-Statements always_ready (codes "amy")
      two_accounts

verify_login-Upgraded_example :
    Upgraded repeated accounts-Table accounts-Statements always_ready
      (writes_back repeated accounts-Table accounts-Statements
        (codes "amy")
        (codes "secret")
        two_accounts)
      (codes "amy")
      (codes "secret")
      two_accounts
      (verify_login accounts repeated (codes "amy") (codes "secret") two_accounts).1
verify_login-Upgraded_example =
    verify_login-Upgraded repeated accounts-Table accounts-Statements always_ready (codes "amy")
      (codes "secret") two_accounts repeated-Fills

renames_amy : (rename accounts repeated (codes "amy") (codes "ann") two_accounts).0 ≡ true
unfolding rename exists codes bytes_eq is_empty step_rows
renames_amy = refl

removes_amy : (remove accounts repeated (codes "amy") two_accounts).0 ≡ true
unfolding remove codes bytes_eq step_rows
removes_amy = refl

writes_amy :
    writes_back repeated accounts-Table accounts-Statements
      (codes "amy")
      (codes "secret")
      two_accounts
    ≡ true
unfolding codes bytes_eq is_empty step_rows accounts-Table is_encoded make
writes_amy = refl
