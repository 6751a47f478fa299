-- ===== src/AdminStore/Logins/Renamed.antt =====
-- Who can log in after an account was renamed.
use dcn1003_group.Base.{
  ℕ, ◌≡◌, ◌≢◌, refl, sym, ap, ◌∙◌, Bool, true, false, inl, inr, Option, none, some, [], ◌∷◌,
  if◌then◌else◌, arith, Bytes, bytes_eq, Bool-cases, bytes_eq-false, bytes_eq_self,
}
use dcn1003_group.PasswordHash.{Derivation}
use dcn1003_group.Database.Owned.{is_some}
use dcn1003_group.Sqlite.{Sqlite, c_str}
use dcn1003_group.AdminStore.{
  select_password, update_name_sql, Store, exists_at, rename_row, rename_at, rename, exists,
}
use dcn1003_group.AdminStore.Accounts.{Table}
use dcn1003_group.AdminStore.Logins.{
  Statements, passwords, passwords_at, login, login_same, login_none, exists_lem, exists_same,
}

module _ {q : Sqlite} (d : Derivation) (table : Table q) (laws : Statements table) where
  -- The table after a rename: the text of the old name is under the new one, and the rest is as it was.
  abbrev pub moved : Bytes → Bytes → (Bytes → Option Bytes) → Bytes → Option Bytes
  moved old_name new_name m v =
      if bytes_eq new_name v then m old_name else if bytes_eq old_name v then none else m v

  abbrev RowMoved : Bytes → Bytes → (Bytes → Option Bytes) → Bool × Store q d → Type 0
  RowMoved old_name new_name m (true, r) =
      (v : Bytes) → passwords d table r v ≡ moved old_name new_name m v
  RowMoved old_name new_name m (false, r) = (v : Bytes) → passwords d table r v ≡ m v

  stepped-RowMoved :
      (old_name new_name : Bytes) (db : q.Db) (r : Store q d) (m : Bytes → Option Bytes)
      (answer : Bool × ℕ × q.Db)
      → q.step update_name_sql (new_name ∷ old_name ∷ []) db ≡ answer
      → is_some (m old_name) ≡ true
      → ((v : Bytes) → table.password_of db v ≡ m v)
      → RowMoved old_name new_name m (answer.0, record r { handle = some answer.2 })
  stepped-RowMoved old_name new_name db r m (false, n, db') got known same =
      λ v. laws.undone update_name_sql _ n db db' v got ∙ same v
  stepped-RowMoved old_name new_name db r m (true, n, db') got known same = λ v. ground (
    arith,
    laws.renames old_name new_name v n db db' got (ap is_some (same old_name) ∙ known),
    same old_name,
    same v,
  )

  rename_row-RowMoved :
      (old_name new_name : Bytes) (db : q.Db) (r : Store q d)
      → is_some (table.password_of db (c_str old_name)) ≡ true
      → RowMoved
          (c_str old_name)
          (c_str new_name)
          (table.password_of db)
          (rename_row q d db old_name new_name r)
  rename_row-RowMoved old_name new_name db r known =
      let (ok, db1) = q.prepare update_name_sql db in
      let same = table.prepares update_name_sql in
      elim (Bool-cases ok) [
        | inr failed ↦ rw failed (λ v. same v db)
        | inl fine ↦ rw fine (
            stepped-RowMoved (c_str old_name) (c_str new_name) db1 r (table.password_of db)
              (q.step update_name_sql (c_str new_name ∷ c_str old_name ∷ []) db1) refl known
              (λ v. same v db))
      ]

  rename_at-RowMoved :
      (o : Option q.Db) (old_name new_name : Bytes) (r : Store q d)
      → r.handle ≡ o
      → bytes_eq old_name new_name ≡ false
      → (RowMoved
          (c_str old_name)
          (c_str new_name)
          (passwords_at d table o)
          (rename_at q d o old_name new_name r))
        × ((rename_at q d o old_name new_name r).0 ≡ true → c_str new_name ≢ c_str old_name)
  unfolding exists
  rename_at-RowMoved none old_name new_name r same differ =
      ((λ v. ap (λ o. passwords_at d table o v) same), λ h e. ground arith)
  rename_at-RowMoved (some db) old_name new_name r same differ =
      elim (Bool-cases (exists_at q d r.handle old_name)) [
        | inr missing ↦
            rw (differ, missing)
              ((λ v. ap (λ o. passwords_at d table o v) same), λ h e. ground arith)
        | inl found ↦ elim (Bool-cases (exists_at q d r.handle new_name)) [
          | inl taken ↦
              rw (differ, found, taken)
                ((λ v. ap (λ o. passwords_at d table o v) same), λ h e. ground arith)
          | inr free ↦
              rw (differ, found, free)
                (
                  rename_row-RowMoved old_name new_name db r (
                      exists_lem d table laws (some db) old_name
                        (ap (λ o. exists_at q d o old_name) (sym same) ∙ found)),
                  λ h e.
                      true_false
                        (sym found ∙ exists_same d table r.handle old_name new_name (sym e) ∙ free),
                )
        ]
      ]
    where
      true_false : true ≢ false
      true_false e = ground arith

  module _ (ready : (db : q.Db) → (q.prepare select_password db).0 ≡ true) where
    -- After a rename: the new name logs in with the passwords of the old one, the old one with none, and
    -- every other name as before. After a refusal every name logs in as before.
    abbrev pub Moved : Bytes → Bytes → Store q d → Bool × Store q d → Type 0
    Moved old_name new_name r (true, r') =
        ((x : Bytes)
          → (login d table ready new_name x r' ≡ login d table ready old_name x r)
            × (login d table ready old_name x r' ≡ false))
        × ((v x : Bytes)
            → c_str v ≢ c_str new_name
            → c_str v ≢ c_str old_name
            → login d table ready v x r' ≡ login d table ready v x r)
    Moved old_name new_name r (false, r') =
        (v x : Bytes) → login d table ready v x r' ≡ login d table ready v x r

    RowMoved-Moved :
        (old_name new_name : Bytes) (r : Store q d) (answer : Bool × Store q d)
        → RowMoved (c_str old_name) (c_str new_name) (passwords d table r) answer
        → (answer.0 ≡ true → c_str new_name ≢ c_str old_name)
        → Moved old_name new_name r answer
    RowMoved-Moved old_name new_name r (false, r') rows distinct =
        λ v x. login_same d table ready v v x r' r (rows (c_str v))
    RowMoved-Moved old_name new_name r (true, r') rows distinct =
        let differ = bytes_eq-false (c_str new_name) (c_str old_name) (distinct refl) in
        (
          λ x. (
            login_same d table ready new_name old_name x r' r
                (rows (c_str new_name) ∙ rw (bytes_eq_self (c_str new_name)) refl),
            login_none d table ready old_name x r'
                (rows (c_str old_name) ∙ rw (differ, bytes_eq_self (c_str old_name)) refl),
          ),
          λ v x not_new not_old. login_same d table ready v v x r' r (
              rows (c_str v)
              ∙ rw
                  (
                    bytes_eq-false (c_str new_name) (c_str v) (λ e. not_new (sym e)),
                    bytes_eq-false (c_str old_name) (c_str v) (λ e. not_old (sym e)),
                  )
                  refl),
        )

    -- Renaming an account, whatever SQLite answers: if `rename` returns true, the new name logs in with
    -- exactly the passwords of the old one before, the old name with none, and every other name with those of
    -- before; if it returns false, every name with those of before. The names are two different strings,
    -- and the statement of `fetch_password` can be prepared.
    pub rename-Moved :
        (old_name new_name : Bytes) (r : Store q d)
        → bytes_eq old_name new_name ≡ false
        → Moved old_name new_name r (rename q d old_name new_name r)
    unfolding rename
    rename-Moved old_name new_name r differ =
        let (rows, distinct) = rename_at-RowMoved r.handle old_name new_name r refl differ in
        RowMoved-Moved old_name new_name r (rename_at q d r.handle old_name new_name r) rows
          distinct
