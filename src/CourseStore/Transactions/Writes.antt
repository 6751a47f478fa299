-- ===== src/CourseStore/Transactions/Writes.antt =====
-- What each of the repository's calls leaves in the database.
use dcn1003_group.Base.{
  ℕ, ◌≡◌, refl, sym, ap, ◌∙◌, inl, inr, Bool, true, false, Option, none, some, List, Bytes,
}
use dcn1003_group.Sqlite.{Sqlite}
use dcn1003_group.Database.{Database}
use dcn1003_group.CourseStore.Statements.{begin_sql, commit_sql}
use dcn1003_group.CourseStore.{
  committed, commit, stepped, prepared, statement, begun, run_at, single_stepped, single_prepared,
  single,
}
use dcn1003_group.CourseStore.Transactions.{
  Transactions, both, AllOrNothing, rolled_back-AtRest, failed-Undoable, some_injective, none-some,
}

module _ (q : Sqlite) (laws : Transactions q) where
  committed-AllOrNothing :
      (c c' : laws.Content) (answer : Bool × Option Bytes × q.Db) (db : q.Db) (r : Database q.Db)
      → q.exec commit_sql db ≡ answer
      → laws.saved db ≡ some c
      → laws.content db ≡ c'
      → AllOrNothing q laws c c' (committed q answer r)
  committed-AllOrNothing c c' (true, e, db') db r got began now =
      let (same, ended) = rw got at (laws.commits db) refl in (db', refl, ended, same ∙ now)
  committed-AllOrNothing c c' (false, e, db') db r got began now =
      rolled_back-AtRest q laws c db' r
        (failed-Undoable q laws c db db' began (rw got at (laws.commits_not db) refl))

  -- What is to hold of the calls that come after a statement, with `now` in the open transaction.
  abbrev Continues :
      laws.Content
      → laws.Content
      → laws.Content
      → (q.Db → Database q.Db → Bool × Database q.Db)
      → Type 0
  Continues c now c' next =
      (db : q.Db) (r : Database q.Db)
      → laws.saved db ≡ some c
      → laws.content db ≡ now
      → AllOrNothing q laws c c' (next db r)

  commit-Continues : (c c' : laws.Content) → Continues c c' c' (commit q)
  commit-Continues c c' db r began now =
      committed-AllOrNothing c c' (q.exec commit_sql db) db r refl began now

  stepped-AllOrNothing :
      (c now c' : laws.Content) (sql : Bytes) (binds : List Bytes)
      (next : q.Db → Database q.Db → Bool × Database q.Db) (answer : Bool × ℕ × q.Db) (db : q.Db)
      (r : Database q.Db)
      → Continues c (laws.apply sql binds now) c' next
      → q.step sql binds db ≡ answer
      → laws.saved db ≡ some c
      → laws.content db ≡ now
      → AllOrNothing q laws c c' (stepped q next answer r)
  stepped-AllOrNothing c now c' sql binds next (true, n, db') db r goes got began same =
      let (changed, kept) = rw got at (laws.done sql binds db) refl in
      goes db' r (kept ∙ began) (changed ∙ ap (laws.apply sql binds) same)
  stepped-AllOrNothing c now c' sql binds next (false, n, db') db r goes got began same =
      rolled_back-AtRest q laws c db' r
        (failed-Undoable q laws c db db' began (rw got at (laws.not_done sql binds db) refl))

  prepared-AllOrNothing :
      (c now c' : laws.Content) (sql : Bytes) (binds : List Bytes)
      (next : q.Db → Database q.Db → Bool × Database q.Db) (answer : Bool × q.Db)
      (r : Database q.Db)
      → Continues c (laws.apply sql binds now) c' next
      → laws.saved answer.1 ≡ some c
      → laws.content answer.1 ≡ now
      → AllOrNothing q laws c c' (prepared q sql binds next answer r)
  prepared-AllOrNothing c now c' sql binds next (true, db) r goes began same =
      stepped-AllOrNothing c now c' sql binds next (q.step sql binds db) db r goes refl began same
  prepared-AllOrNothing c now c' sql binds next (false, db) r goes began same =
      rolled_back-AtRest q laws c db r (inl began)

  statement-Continues :
      (c now c' : laws.Content) (sql : Bytes) (binds : List Bytes)
      (next : q.Db → Database q.Db → Bool × Database q.Db)
      → Continues c (laws.apply sql binds now) c' next
      → Continues c now c' (statement q sql binds next)
  statement-Continues c now c' sql binds next goes db r began same =
      let (shown, kept) = laws.prepares sql db in
      prepared-AllOrNothing c now c' sql binds next (q.prepare sql db) r goes (kept ∙ began)
        (shown ∙ same)

  begun-AllOrNothing :
      (c c' : laws.Content) (next : q.Db → Database q.Db → Bool × Database q.Db)
      (answer : Bool × Option Bytes × q.Db) (db : q.Db) (r : Database q.Db)
      → Continues c c c' next
      → q.exec begin_sql db ≡ answer
      → laws.saved db ≡ none
      → laws.content db ≡ c
      → AllOrNothing q laws c c' (begun q next answer r)
  begun-AllOrNothing c c' next (true, e, db') db r goes got idle same =
      let (shown, began) = rw got at (laws.begins db) refl in
      goes db' r (began ∙ ap (λ x. some x) same) (shown ∙ same)
  begun-AllOrNothing c c' next (false, e, db') db r goes got idle same =
      let (shown, kept) = rw got at (laws.begins_not db) refl in
      (db', refl, kept ∙ idle, shown ∙ same)

  -- The two statements of a write in one transaction.
  pub transact-AllOrNothing :
      (sql1 : Bytes) (binds1 : List Bytes) (sql2 : Bytes) (binds2 : List Bytes) (c : laws.Content)
      (r : Database q.Db) (db : q.Db)
      → laws.saved db ≡ none
      → laws.content db ≡ c
      → AllOrNothing q laws c (both q laws sql1 binds1 sql2 binds2 c) (
          begun q
            (statement q sql1 binds1 (statement q sql2 binds2 (commit q)))
            (q.exec begin_sql db)
            r)
  transact-AllOrNothing sql1 binds1 sql2 binds2 c r db idle same =
      let c' = both q laws sql1 binds1 sql2 binds2 c in
      begun-AllOrNothing c c' _ (q.exec begin_sql db) db r
        (statement-Continues c c c' sql1 binds1 _ (
          statement-Continues c (laws.apply sql1 binds1 c) c' sql2 binds2 _
            (commit-Continues c c')))
        refl idle same

  single_stepped-AllOrNothing :
      (c : laws.Content) (sql : Bytes) (binds : List Bytes) (answer : Bool × ℕ × q.Db) (db : q.Db)
      (r : Database q.Db)
      → q.step sql binds db ≡ answer
      → laws.saved db ≡ none
      → laws.content db ≡ c
      → AllOrNothing q laws c (laws.apply sql binds c) (single_stepped q answer r)
  single_stepped-AllOrNothing c sql binds (true, n, db') db r got idle same =
      let (changed, kept) = rw got at (laws.done sql binds db) refl in
      (db', refl, kept ∙ idle, changed ∙ ap (laws.apply sql binds) same)
  single_stepped-AllOrNothing c sql binds (false, n, db') db r got idle same =
      elim (rw got at (laws.not_done sql binds db) refl) [
        | inl (shown, kept) ↦ (db', refl, kept ∙ idle, shown ∙ same)
        | inr (ended, back) ↦ absurd (none-some _ (sym idle ∙ back))
      ]

  single_prepared-AllOrNothing :
      (c : laws.Content) (sql : Bytes) (binds : List Bytes) (answer : Bool × q.Db)
      (r : Database q.Db)
      → laws.saved answer.1 ≡ none
      → laws.content answer.1 ≡ c
      → AllOrNothing q laws c (laws.apply sql binds c) (single_prepared q sql binds answer r)
  single_prepared-AllOrNothing c sql binds (true, db) r idle same =
      single_stepped-AllOrNothing c sql binds (q.step sql binds db) db r refl idle same
  single_prepared-AllOrNothing c sql binds (false, db) r idle same = (db, refl, idle, same)

  -- A write of one statement.
  pub single-AllOrNothing :
      (sql : Bytes) (binds : List Bytes) (c : laws.Content) (r : Database q.Db) (db : q.Db)
      → laws.saved db ≡ none
      → laws.content db ≡ c
      → AllOrNothing q laws c (laws.apply sql binds c) (single q sql binds db r)
  single-AllOrNothing sql binds c r db idle same =
      let (shown, kept) = laws.prepares sql db in
      single_prepared-AllOrNothing c sql binds (q.prepare sql db) r (kept ∙ idle) (shown ∙ same)

  -- A call on the open database.
  pub run_at-AllOrNothing :
      (c c' : laws.Content) (next : q.Db → Database q.Db → Bool × Database q.Db)
      (handle : Option q.Db) (r : Database q.Db)
      → ((db : q.Db)
          → laws.saved db ≡ none
          → laws.content db ≡ c
          → AllOrNothing q laws c c' (next db r))
      → (db : q.Db) × (handle ≡ some db) × (laws.saved db ≡ none) × (laws.content db ≡ c)
      → AllOrNothing q laws c c' (run_at q next handle r)
  run_at-AllOrNothing c c' next none r goes (db, closed, idle, same) = absurd (none-some db closed)
  run_at-AllOrNothing c c' next (some db0) r goes (db, open_now, idle, same) =
      let e = some_injective db0 db open_now in
      goes db0 (ap laws.saved e ∙ idle) (ap laws.content e ∙ same)
