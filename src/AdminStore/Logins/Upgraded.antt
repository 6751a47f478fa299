-- ===== src/AdminStore/Logins/Upgraded.antt =====
-- Who can log in after a login, which may write a plain password back encoded.
use dcn1003_group.Base.{
  ℕ, ◌≡◌, ◌≢◌, ◌↔◌, refl, sym, ap, ◌∙◌, Bool, true, false, not, ◌&&◌, inl, inr, Option, none, some,
  [], ◌∷◌, if◌then◌else◌, arith, Bytes, bytes_eq, bytes_eq_self, bytes_eq-false, is_empty,
  Bool-cases,
}
use mathlib.Core.Path.{subst}
use dcn1003_group.PasswordHash.{
  Derivation, default_iterations, salt_len, derive, make, is_encoded, verify,
}
use dcn1003_group.PasswordHash.Verify.{Fills, verify-make}
use dcn1003_group.Database.Owned.{is_some}
use dcn1003_group.Sqlite.{Sqlite, c_str, c_str_of}
use dcn1003_group.AdminStore.{
  select_password, update_password_sql, Store, write_password, upgraded, verify_stored, verify_at,
  verify_login, fetch_password,
}
use dcn1003_group.AdminStore.Accounts.{Table, c_str-Lacks, make-Lacks, not_nil}
use dcn1003_group.AdminStore.Logins.{
  Statements, passwords, passwords_at, accepts, login, login_same, verify_login_lem,
  fetch_password_lem,
}

module _ {q : Sqlite} (d : Derivation) (table : Table q) (laws : Statements table) where
  -- SQLite takes the statement that replaces the text of the name.
  abbrev written : q.Db → Bytes → Bytes → Bool
  written db username text =
      (q.prepare update_password_sql db).0
      && (q.step update_password_sql (c_str text ∷ c_str username ∷ [])
          (q.prepare update_password_sql db).1).0

  -- The table where the name has the text if `b` says so, and everything else is as in `m`.
  abbrev Replaced : Bool → Bytes → Bytes → (Bytes → Option Bytes) → (Bytes → Option Bytes) → Type 0
  Replaced true u text m m' = (v : Bytes) → m' v ≡ (if bytes_eq u v then some text else m v)
  Replaced false u text m m' = (v : Bytes) → m' v ≡ m v

  stepped-Replaced :
      (u text : Bytes) (db : q.Db) (m : Bytes → Option Bytes) (answer : Bool × ℕ × q.Db)
      → q.step update_password_sql (text ∷ u ∷ []) db ≡ answer
      → is_some (m u) ≡ true
      → ((v : Bytes) → table.password_of db v ≡ m v)
      → Replaced answer.0 u text m (table.password_of answer.2)
  stepped-Replaced u text db m (false, n, db') got known same =
      λ v. laws.undone update_password_sql _ n db db' v got ∙ same v
  stepped-Replaced u text db m (true, n, db') got known same = λ v.
      laws.updates u text v n db db' got (ap is_some (same u) ∙ known)
      ∙ ap (λ o. if bytes_eq u v then some text else o) (same v)

  write_password-Replaced :
      (db : q.Db) (username text : Bytes)
      → is_some (table.password_of db (c_str username)) ≡ true
      → Replaced
          (written db username text)
          (c_str username)
          (c_str text)
          (table.password_of db)
          (table.password_of (write_password q d db username text).1)
  unfolding write_password
  write_password-Replaced db username text known =
      let (ok, db1) = q.prepare update_password_sql db in
      let same = table.prepares update_password_sql in
      elim (Bool-cases ok) [
        | inr failed ↦ rw failed (λ v. same v db)
        | inl fine ↦ rw fine (
            stepped-Replaced (c_str username) (c_str text) db1 (table.password_of db)
              (q.step update_password_sql (c_str text ∷ c_str username ∷ []) db1) refl known
              (λ v. same v db))
      ]

  abbrev encoded : Bytes → Store q d → Bytes
  encoded password r = (make d password default_iterations r.rng).0

  -- The login writes back: the text is plain and is the password, it could be encoded, and SQLite takes
  -- the statement.
  abbrev writes_text : q.Db → Bytes → Bytes → Option Bytes → Store q d → Bool
  writes_text db username password none r = false
  writes_text db username password (some stored) r =
      not (is_encoded stored)
      && bytes_eq stored password
      && not (is_empty (encoded password r))
      && written db username (encoded password r)

  abbrev pub writes_at : Option q.Db → Bytes → Bytes → Store q d → Bool
  writes_at none username password r = false
  writes_at (some db) username password r =
      writes_text db username password (c_str_of (table.password_of db (c_str username))) r

  abbrev pub writes_back : Bytes → Bytes → Store q d → Bool
  writes_back username password r = writes_at r.handle username password r

  -- What a login leaves of the table: its encoding under the name if the login wrote back, where the
  -- password was accepted; and else the table of before.
  abbrev Left :
      Bool → Bytes → Bytes → Store q d → (Bytes → Option Bytes) → (Bytes → Option Bytes) → Type 0
  Left false u password r m m' = (v : Bytes) → m' v ≡ m v
  Left true u password r m m' =
      (accepts d table password (c_str_of (m u)) ≡ true)
      × (is_empty (encoded password r) ≡ false)
      × ((v : Bytes) → m' v ≡ (if bytes_eq u v then some (c_str (encoded password r)) else m v))

  Replaced-Left :
      (b : Bool) (u password : Bytes) (r : Store q d) (m m' : Bytes → Option Bytes)
      → accepts d table password (c_str_of (m u)) ≡ true
      → is_empty (encoded password r) ≡ false
      → Replaced b u (c_str (encoded password r)) m m'
      → Left b u password r m m'
  Replaced-Left true u password r m m' accepted filled h = (accepted, filled, h)
  Replaced-Left false u password r m m' accepted filled h = h

  upgraded-Left :
      (db : q.Db) (username password : Bytes) (r : Store q d)
      → r.handle ≡ some db
      → is_some (table.password_of db (c_str username)) ≡ true
      → accepts d table password (c_str_of (table.password_of db (c_str username))) ≡ true
      → Left
          (not (is_empty (encoded password r)) && written db username (encoded password r))
          (c_str username)
          password
          r
          (table.password_of db)
          (passwords d table
            (upgraded q d db username (make d password default_iterations r.rng) r).1)
  upgraded-Left db username password r opened known accepted =
      elim (Bool-cases (is_empty (encoded password r))) [
        | inl empty ↦ rw empty (λ v. ap (λ o. passwords_at d table o v) opened)
        | inr filled ↦ rw filled (
            Replaced-Left (written db username (encoded password r)) (c_str username) password r
              (table.password_of db) _ accepted filled
              (write_password-Replaced db username (encoded password r) known))
      ]

  some_text : (o : Option Bytes) (text : Bytes) → c_str_of o ≡ some text → is_some o ≡ true
  some_text none text e = absurd (ground arith)
  some_text (some stored) text e = refl

  verify_stored-Left :
      (db : q.Db) (username password : Bytes) (stored : Option Bytes) (r : Store q d)
      → r.handle ≡ some db
      → c_str_of (table.password_of db (c_str username)) ≡ stored
      → Left
          (writes_text db username password stored r)
          (c_str username)
          password
          r
          (table.password_of db)
          (passwords d table (verify_stored q d db username password stored r).1)
  verify_stored-Left db username password none r opened e =
      λ v. ap (λ o. passwords_at d table o v) opened
  verify_stored-Left db username password (some stored) r opened e =
      elim (Bool-cases (is_encoded stored)) [
        | inl hashed ↦ rw hashed (λ v. ap (λ o. passwords_at d table o v) opened)
        | inr plain ↦ elim (Bool-cases (bytes_eq stored password)) [
          | inr wrong ↦ rw (plain, wrong) (λ v. ap (λ o. passwords_at d table o v) opened)
          | inl right ↦
              rw (plain, right)
                (upgraded-Left db username password r opened (some_text _ stored e)
                  (ap (accepts d table password) e ∙ rw (plain, right) refl))
        ]
      ]

  module _ (ready : (db : q.Db) → (q.prepare select_password db).0 ≡ true) where
    verify_at-Left :
        (o : Option q.Db) (username password : Bytes) (r : Store q d)
        → r.handle ≡ o
        → Left
            (writes_at o username password r)
            (c_str username)
            password
            r
            (passwords_at d table o)
            (passwords d table (verify_at q d o username password r).1)
    verify_at-Left none username password r h = λ v. ap (λ o. passwords_at d table o v) h
    verify_at-Left (some db) username password r h =
        let fetched = fetch_password_lem d table ready db username in
        subst
          (λ (b : Bool).
            Left b (c_str username) password r (table.password_of db)
              (passwords d table (verify_at q d (some db) username password r).1))
          (ap (λ (o : Option Bytes). writes_text db username password o r) fetched)
          (verify_stored-Left db username password (fetch_password q d db username) r h
            (sym fetched))

    -- Who logs in under the name: those from whose password PBKDF2 derives the key of this one with the
    -- salt that was drawn, or as before.
    abbrev LoginsOf : Bool → Bytes → Bytes → Store q d → Store q d → Type 0
    LoginsOf true u password r r' =
        (x : Bytes)
        → (login d table ready u x r' ≡ true) ↔ (
            derive d x (d.rand_bytes salt_len r.rng).1 default_iterations
            ≡ derive d password (d.rand_bytes salt_len r.rng).1 default_iterations)
    LoginsOf false u password r r' =
        (x : Bytes) → login d table ready u x r' ≡ login d table ready u x r

    -- Every other name logs in as before, and so does the name with this password; with the others as
    -- `b` says.
    abbrev pub Upgraded : Bool → Bytes → Bytes → Store q d → Store q d → Type 0
    Upgraded b u password r r' =
        ((v x : Bytes) → c_str v ≢ c_str u → login d table ready v x r' ≡ login d table ready v x r)
        × (login d table ready u password r' ≡ login d table ready u password r)
        × LoginsOf b u password r r'

    encoded_login :
        (u password x : Bytes) (r r' : Store q d)
        → Fills d
        → is_empty (encoded password r) ≡ false
        → passwords d table r' (c_str u) ≡ some (c_str (encoded password r))
        → (login d table ready u x r' ≡ true) ↔ (
            derive d x (d.rand_bytes salt_len r.rng).1 default_iterations
            ≡ derive d password (d.rand_bytes salt_len r.rng).1 default_iterations)
    encoded_login u password x r r' fills filled held =
        let text = encoded password r in
        let lacks = c_str-Lacks text (make-Lacks d password 120000 r.rng) in
        let (hashed, iff) =
          verify-make d password x 120000 r.rng fills (omega arith) (omega arith)
            (not_nil q d table text filled) in
        rw
          (verify_login_lem d table ready u x r'
            ∙ ap (λ o. accepts d table x (c_str_of o)) held
            ∙ ap (λ s. accepts d table x (some s)) (ap c_str lacks ∙ lacks)
            ∙ encoded_accepts x text hashed)
          iff
      where
        encoded_accepts :
            (x text : Bytes)
            → is_encoded text ≡ true
            → accepts d table x (some text) ≡ verify d x text
        encoded_accepts x text h = rw h refl

    Left-Upgraded :
        (b : Bool) (u password : Bytes) (r r' : Store q d)
        → Fills d
        → Left b (c_str u) password r (passwords d table r) (passwords d table r')
        → Upgraded b u password r r'
    Left-Upgraded false u password r r' fills same =
        let kept = λ (v x : Bytes). login_same d table ready v v x r' r (same (c_str v)) in
        ((λ v x other. kept v x), kept u password, kept u)
    Left-Upgraded true u password r r' fills (accepted, filled, replaced) =
        let held = replaced (c_str u) ∙ rw (bytes_eq_self (c_str u)) refl in
        let now = λ (x : Bytes). encoded_login u password x r r' fills filled held in
        (
          λ v x other. login_same d table ready v v x r' r (
              replaced (c_str v)
              ∙ rw (bytes_eq-false (c_str u) (c_str v) (λ e. other (sym e))) refl),
          (now password).1 refl ∙ sym (verify_login_lem d table ready u password r ∙ accepted),
          now,
        )

    -- Whatever SQLite answers, after `verify_login` for a name and a password every other name logs in as
    -- before, and so does the name with this password. If the text of the name in the table is plain and
    -- is the password, its encoding is not empty and SQLite takes the statement that writes it, the name
    -- logs in with exactly the passwords from which PBKDF2 derives the same key with the salt that was
    -- drawn; in every other case with exactly those of before. The statement of `fetch_password` can be
    -- prepared, and the drawn salt has its length.
    pub verify_login-Upgraded :
        (username password : Bytes) (r : Store q d)
        → Fills d
        → Upgraded
            (writes_back username password r)
            username
            password
            r
            (verify_login q d username password r).1
    unfolding verify_login
    verify_login-Upgraded username password r fills =
        Left-Upgraded (writes_back username password r) username password r
          (verify_at q d r.handle username password r).1 fills
          (verify_at-Left r.handle username password r refl)
