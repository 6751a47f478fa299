-- ===== src/AdminStore/Tests.antt =====
-- Accounts in a table in memory that knows the INSERT and the SELECT of a password only.
use dcn1003_group.Base.{
  ℕ, ◌≡◌, refl, sym, ap, ◌∙◌, ◌↔◌, Bool, true, false, if◌then◌else◌, Option, none, some, List, [],
  ◌∷◌, Bytes, codes, bytes_eq, bytes_eq_self, is_empty, replicate,
}
use dcn1003_group.Number.{to_string, decimal}
use dcn1003_group.PasswordHash.{default_iterations, derive, make, is_encoded, to_hex}
use dcn1003_group.Repository.{Administrator}
use dcn1003_group.Examples.Repeated.{repeated, repeated-Fills}
use dcn1003_group.Sqlite.{Sqlite}
use dcn1003_group.AdminStore.{
  Store, fetch_password, insert_or_replace, verify_login, sqlite_admins, inject_default,
}
use dcn1003_group.AdminStore.Accounts.{
  Table, one_row, insert_or_replace-verify_login, inject_default-verify_login,
}

abbrev Rows : Type 0
Rows = List (Bytes × Bytes)

lookup : Bytes → Rows → Option Bytes
lookup u [] = none
lookup u ((v, text) ∷ rows) = let rest = lookup u rows in if bytes_eq v u then some text else rest

lookup_front : (u text : Bytes) (rows : Rows) → lookup u ((u, text) ∷ rows) ≡ some text
unfolding lookup
lookup_front u text rows = rw bytes_eq_self refl

select_rows : List Bytes → Rows → List (List (Option Bytes))
select_rows (u ∷ []) db = one_row (lookup u db)
select_rows _ db = []

write_row : List Bytes → Rows → Bool × ℕ × Rows
write_row (u ∷ text ∷ []) db = (true, 1, (u, text) ∷ db)
write_row _ db = (false, 0, db)

abbrev memory_table : Sqlite
memory_table = record {
  Db = Rows;
  exec = λ sql db. (true, none, db);
  prepare = λ sql db. (true, db);
  bind = λ sql i text db. (true, db);
  rows = λ sql binds db. select_rows binds db;
  first_int = λ sql db. none;
  ends = λ sql binds db. (true, db);
  step = λ sql binds db. write_row binds db;
  errmsg = λ db. [];
}

memory_table-Table : Table memory_table
unfolding write_row select_rows
memory_table-Table = record {
  password_of = λ db u. lookup u db;
  prepares = λ sql u db. refl;
  selects = λ u db. refl;
  inserts = λ u text n db db' e.
      ap (lookup u) (sym (ap (λ (t : Bool × ℕ × Rows). t.2) e)) ∙ lookup_front u text db;
}

abbrev empty_store : Store memory_table repeated
empty_store = record { handle = some []; last_error = []; rng = 18 }

abbrev amy : Administrator
amy = record { username = codes "amy"; password = codes "secret" }

insert_or_replace-verify_login_example :
    ((verify_login memory_table repeated
        (codes "amy")
        (codes "sesame")
        (insert_or_replace memory_table repeated amy empty_store).1).0
      ≡ true)
    ↔ (derive repeated (codes "sesame") (replicate 16 18) default_iterations
        ≡ derive repeated (codes "secret") (replicate 16 18) default_iterations)
unfolding insert_or_replace make is_encoded codes bytes_eq is_empty to_hex to_string decimal
    write_row
insert_or_replace-verify_login_example =
    insert_or_replace-verify_login memory_table repeated memory_table-Table amy (codes "sesame")
      empty_store repeated-Fills (λ db. refl) refl refl

inject_default-verify_login_example :
    (verify_login memory_table repeated
      (codes "admin")
      (codes "admin123")
      (inject_default (sqlite_admins memory_table repeated) empty_store)).0
    ≡ true
unfolding insert_or_replace verify_login fetch_password make is_encoded codes bytes_eq is_empty
    to_hex to_string decimal write_row select_rows lookup
inject_default-verify_login_example =
    inject_default-verify_login memory_table repeated memory_table-Table empty_store repeated-Fills
      (λ db. refl) refl refl
