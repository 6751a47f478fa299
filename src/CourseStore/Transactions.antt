-- ===== src/CourseStore/Transactions.antt =====
-- What a write leaves in the database, whatever SQLite answers to its calls.
pub mod Writes
use dcn1003_group.Base.{
  ℕ, ◌≡◌, refl, sym, ap, ◌∙◌, ◌⊎◌, inl, inr, Bool, true, false, Option, none, some, List,
  if◌then◌else◌, arith, Bytes,
}
use dcn1003_group.Sqlite.{Sqlite}
use dcn1003_group.Database.{Database}
use dcn1003_group.CourseStore.Statements.{begin_sql, commit_sql, rollback_sql}
use dcn1003_group.CourseStore.{
  rolled_back, committed, commit, stepped, prepared, statement, begun, run_at, single_stepped,
  single_prepared, single,
}

-- What SQLite's documentation says of transactions: a connection shows a content, and `saved` is the
-- content that the open transaction, if there is one, began with. A statement that is not done changes
-- nothing, or SQLite has rolled the whole transaction back.
pub record Transactions (q : Sqlite) : Type 1 where
  pub Content : Type 0
  pub content : q.Db → Content
  pub saved : q.Db → Option Content
  pub apply : Bytes → List Bytes → Content → Content
  pub begins :
      (db : q.Db)
      → (q.exec begin_sql db).0 ≡ true
      → (content (q.exec begin_sql db).2 ≡ content db)
        × (saved (q.exec begin_sql db).2 ≡ some (content db))
  pub begins_not :
      (db : q.Db)
      → (q.exec begin_sql db).0 ≡ false
      → (content (q.exec begin_sql db).2 ≡ content db) × (saved (q.exec begin_sql db).2 ≡ saved db)
  pub prepares :
      (sql : Bytes) (db : q.Db)
      → (content (q.prepare sql db).1 ≡ content db) × (saved (q.prepare sql db).1 ≡ saved db)
  pub binds_text :
      (sql : Bytes) (i : ℕ) (text : Bytes) (db : q.Db)
      → (content (q.bind sql i text db).1 ≡ content db)
        × (saved (q.bind sql i text db).1 ≡ saved db)
  -- The steps of a SELECT.
  pub selects :
      (sql : Bytes) (binds : List Bytes) (db : q.Db)
      → (content (q.ends sql binds db).1 ≡ content db) × (saved (q.ends sql binds db).1 ≡ saved db)
  pub done :
      (sql : Bytes) (binds : List Bytes) (db : q.Db)
      → (q.step sql binds db).0 ≡ true
      → (content (q.step sql binds db).2 ≡ apply sql binds (content db))
        × (saved (q.step sql binds db).2 ≡ saved db)
  pub not_done :
      (sql : Bytes) (binds : List Bytes) (db : q.Db)
      → (q.step sql binds db).0 ≡ false
      → ((content (q.step sql binds db).2 ≡ content db)
          × (saved (q.step sql binds db).2 ≡ saved db))
        ⊎ ((saved (q.step sql binds db).2 ≡ none)
            × (saved db ≡ some (content (q.step sql binds db).2)))
  pub commits :
      (db : q.Db)
      → (q.exec commit_sql db).0 ≡ true
      → (content (q.exec commit_sql db).2 ≡ content db) × (saved (q.exec commit_sql db).2 ≡ none)
  pub commits_not :
      (db : q.Db)
      → (q.exec commit_sql db).0 ≡ false
      → ((content (q.exec commit_sql db).2 ≡ content db)
          × (saved (q.exec commit_sql db).2 ≡ saved db))
        ⊎ ((saved (q.exec commit_sql db).2 ≡ none)
            × (saved db ≡ some (content (q.exec commit_sql db).2)))
  pub rolls_back :
      (db : q.Db) (c : Content)
      → saved db ≡ some c
      → (content (q.exec rollback_sql db).2 ≡ c) × (saved (q.exec rollback_sql db).2 ≡ none)
  -- `ROLLBACK` outside a transaction is an error that changes nothing.
  pub rolls_back_not :
      (db : q.Db)
      → saved db ≡ none
      → (content (q.exec rollback_sql db).2 ≡ content db)
        × (saved (q.exec rollback_sql db).2 ≡ none)

pub some_injective {ℓ} : {A : Type ℓ} (a b : A) → some a ≡ some b → a ≡ b
some_injective a b e = ground arith

pub none-some {ℓ} : {A : Type ℓ} (a : A) → none ≡ some a → ⊥
none-some a e = ground arith

module _ (q : Sqlite) (laws : Transactions q) where
  -- The database is open, no transaction is, and the content is `c`.
  abbrev pub AtRest : Database q.Db → laws.Content → Type 0
  AtRest r c = (db : q.Db) × (r.handle ≡ some db) × (laws.saved db ≡ none) × (laws.content db ≡ c)

  -- The content that a write asks for.
  abbrev pub both : Bytes → List Bytes → Bytes → List Bytes → laws.Content → laws.Content
  both sql1 binds1 sql2 binds2 c = laws.apply sql2 binds2 (laws.apply sql1 binds1 c)

  -- Success with the content `c'`, or failure with the content `c`.
  abbrev pub AllOrNothing : laws.Content → laws.Content → Bool × Database q.Db → Type 0
  AllOrNothing c c' (ok, r) = AtRest r (if ok then c' else c)

  -- A transaction is open that began at `c`, or it was rolled back by SQLite itself.
  abbrev Undoable : laws.Content → q.Db → Type 0
  Undoable c db = (laws.saved db ≡ some c) ⊎ ((laws.saved db ≡ none) × (laws.content db ≡ c))

  pub rolled_back-AtRest :
      (c : laws.Content) (db : q.Db) (r : Database q.Db)
      → Undoable c db
      → AtRest (rolled_back q db r).1 c
  rolled_back-AtRest c db r (inl began) =
      let (same, ended) = laws.rolls_back db c began in (_, refl, ended, same)
  rolled_back-AtRest c db r (inr (none_open, same)) =
      let (kept, ended) = laws.rolls_back_not db none_open in (_, refl, ended, kept ∙ same)

  -- What is left of an open transaction after a call that failed.
  failed-Undoable :
      (c : laws.Content) (db db' : q.Db)
      → laws.saved db ≡ some c
      → ((laws.content db' ≡ laws.content db) × (laws.saved db' ≡ laws.saved db))
        ⊎ ((laws.saved db' ≡ none) × (laws.saved db ≡ some (laws.content db')))
      → Undoable c db'
  failed-Undoable c db db' began (inl (same, kept)) = inl (kept ∙ began)
  failed-Undoable c db db' began (inr (ended, back)) =
      inr (ended, some_injective _ _ (sym back ∙ began))
