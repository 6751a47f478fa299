-- ===== src/AdminStore/Accounts.antt =====
-- Who can log in after an account was written.
use dcn1003_group.Base.{
  ℕ, zero, suc, ◌≡◌, ◌≢◌, refl, sym, ap, ◌∙◌, ◌↔◌, Bool, true, false, inl, inr, Option, none, some,
  List, [], ◌∷◌, arith, All-append, Bool-cases, Option-cases, Bytes, Lacks, codes, bytes_eq,
  is_empty,
}
use dcn1003_group.Base.Int.{pos}
use dcn1003_group.Number.{decimal, to_string}
use dcn1003_group.Number.RoundTrip.{decimal-Lacks}
use dcn1003_group.PasswordHash.{
  Derivation, salt_len, default_iterations, to_hex, derive, encode, make, is_encoded, verify,
}
use dcn1003_group.PasswordHash.Hex.{to_hex-Lacks}
use dcn1003_group.PasswordHash.Verify.{Fills, verify-make}
use dcn1003_group.Repository.{Administrator}
use dcn1003_group.Sqlite.{Sqlite, c_str}
use dcn1003_group.AdminStore.{
  select_password, insert_sql, Store, fetch_password, insert_text, insert_or_replace, verify_login,
  sqlite_admins, inject_default, default_account,
}

pub c_str-Lacks : (s : Bytes) → Lacks 0 s → c_str s ≡ s
c_str-Lacks [] h = refl
c_str-Lacks (zero ∷ s) (hc, h) = absurd (hc refl)
c_str-Lacks (suc c ∷ s) (hc, h) = ap (λ rest. suc c ∷ rest) (c_str-Lacks s h)

default_plain : is_encoded (codes "admin123") ≡ false
unfolding is_encoded codes bytes_eq
default_plain = refl

abbrev pub one_row : Option Bytes → List (List (Option Bytes))
one_row none = []
one_row (some text) = (some text ∷ []) ∷ []

-- What SQLite promises of the table `administrators`, whose key is the name: preparing changes no row,
-- the SELECT gives the password of the row with the name, the INSERT that is done sets it.
pub record Table (q : Sqlite) : Type 0 where
  pub password_of : q.Db → Bytes → Option Bytes
  pub prepares : (sql u : Bytes) (db : q.Db) → password_of (q.prepare sql db).1 u ≡ password_of db u
  pub selects :
      (u : Bytes) (db : q.Db) → q.rows select_password (u ∷ []) db ≡ one_row (password_of db u)
  pub inserts :
      (u text : Bytes) (n : ℕ) (db db' : q.Db)
      → q.step insert_sql (u ∷ text ∷ []) db ≡ (true, n, db')
      → password_of db' u ≡ some text

module _ (d : Derivation) where
  encode-Lacks : (n : ℕ) (salt : Bytes) (key : Option Bytes) → Lacks 0 (encode d (pos n) salt key)
  unfolding codes to_string
  encode-Lacks n salt none = tt
  encode-Lacks n salt (some key) =
      All-append (λ c. c ≢ 0) (codes "pbkdf2$") _ (letters)
        (All-append (λ c. c ≢ 0) (decimal n) _ (decimal-Lacks 0 n (λ h. ground arith))
          (
            λ e. ground arith,
            All-append (λ c. c ≢ 0) (to_hex salt) _ (to_hex-Lacks 0 salt (omega arith))
                (λ e. ground arith, to_hex-Lacks 0 key (omega arith)),
          ))
    where
      letters : Lacks 0 (codes "pbkdf2$")
      letters = ground arith

  pub make-Lacks :
      (password : Bytes) (n : ℕ) (rng : d.Rng) → Lacks 0 (make d password (pos n) rng).0
  unfolding make
  make-Lacks password n rng = elim (Bool-cases (d.rand_bytes salt_len rng).0) [
    | inr failed ↦ rw failed tt
    | inl ok ↦ rw ok (
        encode-Lacks n (d.rand_bytes salt_len rng).1
          (derive d password (d.rand_bytes salt_len rng).1 (pos n)))
  ]

module _ (q : Sqlite) (d : Derivation) (table : Table q) where
  -- The row that a successful insertion leaves.
  inserted :
      (db : q.Db) (username stored : Bytes) (r : Store q d)
      → (insert_text q d db username stored r).0 ≡ true
      → (db' : q.Db) × ((insert_text q d db username stored r).1.handle ≡ some db')
        × (table.password_of db' (c_str username) ≡ some (c_str stored))
  inserted db username stored r ok =
      let (prepared, db1) = q.prepare insert_sql db in
      let (done, n, db2) = q.step insert_sql (c_str username ∷ c_str stored ∷ []) db1 in
      elim (Bool-cases prepared) [
        | inr failed ↦ absurd (ground arith)
        | inl readied ↦ elim (Bool-cases done) [
          | inr failed ↦ absurd (ground arith)
          | inl finished ↦ (
            db2,
            rw (readied, finished) refl,
            table.inserts (c_str username) (c_str stored) n db1 db2 (ground arith),
          )
        ]
      ]

  fetched :
      (db : q.Db) (username stored : Bytes)
      → (q.prepare select_password db).0 ≡ true
      → table.password_of db (c_str username) ≡ some stored
      → fetch_password q d db username ≡ some (c_str stored)
  unfolding fetch_password
  fetched db username stored ready held = rw (ready, table.selects (c_str username) db, held) refl

  -- A successful insertion of a plain password stored the text that `make` wrote, which is not empty.
  insertion :
      (admin : Administrator) (r : Store q d) (db : q.Db)
      → r.handle ≡ some db
      → is_encoded admin.password ≡ false
      → (insert_or_replace q d admin r).0 ≡ true
      → (is_empty (make d admin.password default_iterations r.rng).0 ≡ false)
        × (insert_or_replace q d admin r
            ≡ insert_text q d db admin.username
                (make d admin.password default_iterations r.rng).0
                (record r { rng = (make d admin.password default_iterations r.rng).1 }))
  unfolding insert_or_replace
  insertion admin r db opened plain ok =
      elim (Bool-cases (is_empty (make d admin.password default_iterations r.rng).0)) [
        | inl empty ↦ absurd (ground arith)
        | inr filled ↦ (filled, rw (opened, plain, filled) refl)
      ]

  closed_fails :
      (admin : Administrator) (r : Store q d)
      → r.handle ≡ none
      → (insert_or_replace q d admin r).0 ≢ true
  unfolding insert_or_replace
  closed_fails admin r closed = rw closed (λ e. cc)

  pub not_nil : (s : Bytes) → is_empty s ≡ false → s ≢ []
  unfolding is_empty
  not_nil [] e = cc
  not_nil (x ∷ s) e = λ h. cc

  verify_login_encoded :
      (username other stored : Bytes) (r : Store q d) (db : q.Db)
      → r.handle ≡ some db
      → fetch_password q d db username ≡ some stored
      → is_encoded stored ≡ true
      → verify_login q d username other r ≡ (verify d other stored, r)
  unfolding verify_login
  verify_login_encoded username other stored r db opened held encoded =
      rw (opened, held, encoded) refl

  -- After a plain password was written for an account without error, `verify_login` for the name
  -- accepts exactly the passwords from which PBKDF2 derives the same key with the salt that was drawn,
  -- provided that the statement of `fetch_password` can be prepared. It does not matter whether the
  -- account existed.
  pub insert_or_replace-verify_login :
      (admin : Administrator) (other : Bytes) (r : Store q d)
      → Fills d
      → ((db : q.Db) → (q.prepare select_password db).0 ≡ true)
      → is_encoded admin.password ≡ false
      → (insert_or_replace q d admin r).0 ≡ true
      → ((verify_login q d admin.username other (insert_or_replace q d admin r).1).0 ≡ true) ↔ (
          derive d other (d.rand_bytes salt_len r.rng).1 default_iterations
          ≡ derive d admin.password (d.rand_bytes salt_len r.rng).1 default_iterations)
  insert_or_replace-verify_login admin other r fills ready plain ok = elim (Option-cases r.handle) [
    | inl closed ↦ absurd (closed_fails admin r closed ok)
    | inr (db, opened) ↦
        (let (filled, same) = insertion admin r db opened plain ok in
          let stored = (make d admin.password default_iterations r.rng).0 in
          let (db', handle, held) =
            inserted db admin.username stored
              (record r { rng = (make d admin.password default_iterations r.rng).1 })
              (ap (λ (x : Bool × Store q d). x.0) (sym same) ∙ ok) in
          let lacks = c_str-Lacks stored (make-Lacks d admin.password 120000 r.rng) in
          let (encoded, accepts) =
            verify-make d admin.password other 120000 r.rng fills (omega arith) (omega arith)
              (not_nil stored filled) in
          let found = fetched db' admin.username (c_str stored) (ready db') held in
          let login =
            verify_login_encoded admin.username other stored (insert_or_replace q d admin r).1 db'
              (ap (λ (x : Bool × Store q d). x.1.handle) same ∙ handle)
              (found ∙ ap some (ap c_str lacks ∙ lacks)) encoded in
          rw (ap (λ (x : Bool × Store q d). x.0) login) accepts)
  ]

  -- When the server starts and "admin" cannot log in with "admin123", an insertion without error makes
  -- that login succeed, also when the account exists with another password.
  pub inject_default-verify_login :
      (r : Store q d)
      → Fills d
      → ((db : q.Db) → (q.prepare select_password db).0 ≡ true)
      → (verify_login q d (codes "admin") (codes "admin123") r).0 ≡ false
      → (insert_or_replace q d
          (default_account (sqlite_admins q d))
          (verify_login q d (codes "admin") (codes "admin123") r).1).0
        ≡ true
      → (verify_login q d
          (codes "admin")
          (codes "admin123")
          (inject_default (sqlite_admins q d) r)).0
        ≡ true
  unfolding inject_default
  inject_default-verify_login r fills ready unknown ok = rw unknown (
      (insert_or_replace-verify_login (default_account (sqlite_admins q d)) (codes "admin123")
          (verify_login q d (codes "admin") (codes "admin123") r).1 fills ready default_plain ok).1
        refl)
