-- ===== src/AdminStore/Logins/Removed.antt =====
-- Who can log in after an account was removed.
use dcn1003_group.Base.{
  ℕ, ◌≡◌, ◌≢◌, refl, sym, ap, ◌∙◌, Bool, true, false, not, inl, inr, Option, none, some, [], ◌∷◌,
  ◌==◌, if◌then◌else◌, arith, Bytes, bytes_eq, bytes_eq_iff, bytes_eq_self, bytes_eq-false,
  Bool-cases,
}
use dcn1003_group.PasswordHash.{Derivation}
use dcn1003_group.Database.Owned.{is_some}
use dcn1003_group.Sqlite.{Sqlite, c_str}
use dcn1003_group.AdminStore.{select_password, delete_sql, Store, remove_at, remove}
use dcn1003_group.AdminStore.Accounts.{Table}
use dcn1003_group.AdminStore.Logins.{
  Statements, passwords, passwords_at, login, login_same, login_none,
}

module _ {q : Sqlite} (d : Derivation) (table : Table q) (laws : Statements table) where
  -- The table without the name if the answer is true, and else the table of before.
  abbrev Without : Bytes → (Bytes → Option Bytes) → Bool × Store q d → Type 0
  Without u m (true, r) = (v : Bytes) → passwords d table r v ≡ (if bytes_eq u v then none else m v)
  Without u m (false, r) = (v : Bytes) → passwords d table r v ≡ m v

  -- A name that is not there: without it the table is as before.
  absent_lem :
      (u v : Bytes) (m : Bytes → Option Bytes)
      → m u ≡ none
      → (if bytes_eq u v then none else m v) ≡ m v
  absent_lem u v m e = elim (Bool-cases (bytes_eq u v)) [
    | inl same ↦ rw (same, ← (bytes_eq_iff u v).0 same, e) refl
    | inr differ ↦ rw differ refl
  ]

  none_lem : (o : Option Bytes) → true ≡ not (is_some o) → o ≡ none
  none_lem none e = refl
  none_lem (some text) e = absurd (ground arith)

  -- What `remove` does with the answer of the step.
  stepped-Without :
      (u : Bytes) (db : q.Db) (m : Bytes → Option Bytes) (answer : Bool × ℕ × q.Db)
      (r r' : Store q d)
      → q.step delete_sql (u ∷ []) db ≡ answer
      → ((v : Bytes) → table.password_of db v ≡ m v)
      → r.handle ≡ some answer.2
      → Without u m (
          if not answer.0
          then (false, record r' { handle = some answer.2 })
          else if answer.1 == 0
          then (false, r)
          else (true, record r' { handle = some answer.2 }))
  stepped-Without u db m (false, n, db') r r' got same h =
      λ v. laws.undone delete_sql _ n db db' v got ∙ same v
  stepped-Without u db m (true, n, db') r r' got same h = elim (Bool-cases (n == 0)) [
    | inl nothing ↦ rw nothing (λ v.
        let (count, gone) = laws.deletes u v n db db' got in
        let without = gone ∙ ap (λ o. if bytes_eq u v then none else o) (same v) in
        ap (λ o. passwords_at d table o v) h
        ∙ without
        ∙ absent_lem u v m
            (none_lem (m u) (sym nothing ∙ count ∙ ap (λ o. not (is_some o)) (same u))))
    | inr something ↦ rw something (λ v.
        (laws.deletes u v n db db' got).1 ∙ ap (λ o. if bytes_eq u v then none else o) (same v))
  ]

  remove_at-Without :
      (o : Option q.Db) (username : Bytes) (r : Store q d)
      → r.handle ≡ o
      → Without (c_str username) (passwords_at d table o) (remove_at q d o username r)
  remove_at-Without none username r h = λ v. ap (λ o. passwords_at d table o v) h
  remove_at-Without (some db) username r h =
      let (ok, db1) = q.prepare delete_sql db in
      let same = table.prepares delete_sql in
      elim (Bool-cases ok) [
        | inr failed ↦ rw failed (λ v. same v db)
        | inl fine ↦ rw fine (
            stepped-Without (c_str username) db1 (table.password_of db)
              (q.step delete_sql (c_str username ∷ []) db1) _ r refl (λ v. same v db) refl)
      ]

  module _ (ready : (db : q.Db) → (q.prepare select_password db).0 ≡ true) where
    -- The name logs in with no password, and every other name as before; after a refusal every name does.
    abbrev pub Removed : Bytes → Store q d → Bool × Store q d → Type 0
    Removed u r (true, r') =
        ((x : Bytes) → login d table ready u x r' ≡ false)
        × ((v x : Bytes)
            → c_str v ≢ c_str u
            → login d table ready v x r' ≡ login d table ready v x r)
    Removed u r (false, r') = (v x : Bytes) → login d table ready v x r' ≡ login d table ready v x r

    Without-Removed :
        (u : Bytes) (r : Store q d) (answer : Bool × Store q d)
        → Without (c_str u) (passwords d table r) answer
        → Removed u r answer
    Without-Removed u r (false, r') rows =
        λ v x. login_same d table ready v v x r' r (rows (c_str v))
    Without-Removed u r (true, r') rows = (
      λ x. login_none d table ready u x r' (rows (c_str u) ∙ rw (bytes_eq_self (c_str u)) refl),
      λ v x other.
          login_same d table ready v v x r' r
            (rows (c_str v) ∙ rw (bytes_eq-false (c_str u) (c_str v) (λ e. other (sym e))) refl),
    )

    -- Removing an account, whatever SQLite answers: if `remove` returns true, the name logs in with no
    -- password and every other name with those of before; if it returns false, every name with those of
    -- before. The statement of `fetch_password` can be prepared.
    pub remove-Removed :
        (username : Bytes) (r : Store q d) → Removed username r (remove q d username r)
    unfolding remove
    remove-Removed username r =
        Without-Removed username r (remove_at q d r.handle username r)
          (remove_at-Without r.handle username r refl)
