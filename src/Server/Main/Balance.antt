-- ===== src/Server/Main/Balance.antt =====
-- What `main` of the server leaves open when it returns before its loop: connections to the database,
-- sockets, and uses of the socket library.
use dcn1003_group.Base.{
  ℕ, suc, ◌≡◌, refl, sym, ap, ◌∙◌, Bool, true, false, Option, none, some, Bytes, not, both_branches,
}
use dcn1003_group.Base.Int.{pos}
use dcn1003_group.Error.{ErrorInfo, is_success}
use dcn1003_group.WinsockGuard
use dcn1003_group.WinsockGuard.{Startup, Guard, Uses, is_ok}
use dcn1003_group.PasswordHash.{Derivation}
use dcn1003_group.Sqlite.{Sqlite}
use dcn1003_group.Database.{Files, Database, new_database}
use dcn1003_group.Database.Owned.{
  counting, counting_same, counting_swap, is_some, Connections, open_path-Settled,
}
use dcn1003_group.CourseStore
use dcn1003_group.AdminStore
use dcn1003_group.AdminStore.{Store, sqlite_admins, inject_default}
use dcn1003_group.AdminStore.Held.{inject_default_held, initialize_schema_held}
use dcn1003_group.AdminStore.Opening.{database_of}
use dcn1003_group.Platform.{Platform}
use dcn1003_group.Crypto.{read_app_key}
use dcn1003_group.Connect.{Winsock, create_listener}
use dcn1003_group.Connect.Owned.{Sockets, Opened, create_listener-Opened}
use dcn1003_group.Server.Main.{
  World, Running, Start, exited, serving, listened, admins_ready, admins_opened, courses_ready,
  courses_opened, constructed, key_read, guarded, main_start, port, backlog, database_path,
}
use dcn1003_group.Server.Main.Leave.{
  Live, Started, Left, destroy_uses, AdminStore_open-Settled, leave-Left,
}

module _ {p : Platform} {w : Winsock p} (sockets : Sockets w) {u : Startup} (laws : Uses u)
    {q : Sqlite} {f : Files q} (connections : Connections f) (d : Derivation) where
  -- At the loop each repository holds its connection, and the listener is the only new socket.
  abbrev pub AtLoop : ℕ → ℕ → p.Net → Running w u f d → Type 0
  AtLoop n k net r =
      (is_some r.courses.handle ≡ true)
      × (is_some r.admins.handle ≡ true)
      × (connections.live r.world.disk ≡ suc (suc n))
      × Started sockets laws connections d k r.guard r.world.wsa
      × Opened w sockets net (some r.listen_sock) r.world.net

  abbrev pub Balanced : ℕ → ℕ → p.Net → Start w u f d → Type 0
  Balanced n k net (exited code v) = (code ≡ 1) × Left sockets laws connections d n k net v
  Balanced n k net (serving r) = AtLoop n k net r

  listened-Balanced :
      (n k : ℕ) (guard : Guard) (courses : Database q.Db) (admins : Store q d) (v : World w u f d)
      (answer : Option ℕ × p.Net)
      → Live sockets laws connections d n courses admins v.disk
      → Started sockets laws connections d k guard v.wsa
      → is_some courses.handle ≡ true
      → is_some admins.handle ≡ true
      → Opened w sockets v.net answer.0 answer.1
      → Balanced n k v.net (listened w u f d guard courses admins v answer)
  listened-Balanced n k guard courses admins v (none, net) live started hc ha same = (
    refl,
    leave-Left sockets laws connections d n k guard courses admins (record v { net = net }) v.net
        live started same,
  )
  listened-Balanced n k guard courses admins v (some s, net) live started hc ha new =
      (hc, ha, counted, started, new)
    where
      counted : connections.live v.disk ≡ suc (suc n)
      counted =
          live
          ∙ counting_same {B = ℕ} admins.handle (some 0) (counting courses.handle n) ha
          ∙ ap suc (counting_same {B = ℕ} courses.handle (some 0) n hc)

  admins_ready-Balanced :
      (n k : ℕ) (guard : Guard) (courses : Database q.Db) (v : World w u f d)
      (answer : Bool × Store q d)
      → Live sockets laws connections d n courses answer.1 v.disk
      → Started sockets laws connections d k guard v.wsa
      → is_some courses.handle ≡ true
      → is_some answer.1.handle ≡ true
      → Balanced n k v.net (admins_ready w u f d guard courses v answer)
  admins_ready-Balanced n k guard courses v (false, admins) live started hc ha = (
    refl,
    leave-Left sockets laws connections d n k guard courses admins v v.net live started (λ x. refl),
  )
  admins_ready-Balanced n k guard courses v (true, admins) live started hc ha =
      let held = inject_default_held q d admins in
      let injected = inject_default (sqlite_admins q d) admins in
      listened-Balanced n k guard courses injected v
        (create_listener w (pos port) (pos backlog) v.net)
        (live ∙ counting_same admins.handle injected.handle (counting courses.handle n) (sym held))
        started hc (held ∙ ha) (create_listener-Opened w sockets (pos port) (pos backlog) v.net)

  admins_opened-Balanced :
      (n k : ℕ) (guard : Guard) (courses : Database q.Db) (v : World w u f d)
      (answer : Bool × Store q d × f.Disk)
      → Live sockets laws connections d n courses answer.1 answer.2
      → Started sockets laws connections d k guard v.wsa
      → is_some courses.handle ≡ true
      → is_some answer.1.handle ≡ answer.0
      → Balanced n k v.net (admins_opened w u f d guard courses v answer)
  admins_opened-Balanced n k guard courses v (false, admins, disk) live started hc ha = (
    refl,
    leave-Left sockets laws connections d n k guard courses admins (record v { disk = disk }) v.net
        live started (λ x. refl),
  )
  admins_opened-Balanced n k guard courses v (true, admins, disk) live started hc ha =
      let held = initialize_schema_held q d admins in
      admins_ready-Balanced n k guard courses (record v { disk = disk })
        (AdminStore.initialize_schema q d admins)
        (live
          ∙ counting_same admins.handle (AdminStore.initialize_schema q d admins).1.handle
              (counting courses.handle n) (sym held))
        started hc (held ∙ ha)

  courses_ready-Balanced :
      (n k : ℕ) (guard : Guard) (admins : Store q d) (v : World w u f d)
      (answer : Bool × Database q.Db)
      → Live sockets laws connections d n answer.1 admins v.disk
      → Started sockets laws connections d k guard v.wsa
      → is_some answer.1.handle ≡ true
      → Balanced n k v.net (courses_ready w u f d guard admins v answer)
  courses_ready-Balanced n k guard admins v (false, courses) live started hc = (
    refl,
    leave-Left sockets laws connections d n k guard courses admins v v.net live started (λ x. refl),
  )
  courses_ready-Balanced n k guard admins v (true, courses) live started hc =
      let (opened, settled) =
        AdminStore_open-Settled sockets laws connections d n courses admins v.disk live in
      admins_opened-Balanced n k guard courses v
        (AdminStore.Opening.open_path f d database_path admins v.disk) settled started hc opened

  courses_opened-Balanced :
      (n k : ℕ) (guard : Guard) (admins : Store q d) (v : World w u f d)
      (answer : Bool × Database q.Db × f.Disk)
      → Live sockets laws connections d n answer.1 admins answer.2
      → Started sockets laws connections d k guard v.wsa
      → is_some answer.1.handle ≡ answer.0
      → Balanced n k v.net (courses_opened w u f d guard admins v answer)
  courses_opened-Balanced n k guard admins v (false, courses, disk) live started hc = (
    refl,
    leave-Left sockets laws connections d n k guard courses admins (record v { disk = disk }) v.net
        live started (λ x. refl),
  )
  courses_opened-Balanced n k guard admins v (true, courses, disk) live started hc =
      let held = CourseStore.Queries.Held.initialize_schema_held q courses in
      courses_ready-Balanced n k guard admins (record v { disk = disk })
        (CourseStore.initialize_schema q courses)
        (live
          ∙ ap (counting admins.handle) (
              counting_same courses.handle (CourseStore.initialize_schema q courses).1.handle n
                (sym held)))
        started (held ∙ hc)

  constructed-Balanced :
      (k : ℕ) (guard : Guard) (rng : d.Rng) (v : World w u f d)
      → Started sockets laws connections d k guard v.wsa
      → Balanced (connections.live v.disk) k v.net (constructed w u f d guard rng v)
  unfolding CourseStore.Opening.construct CourseStore.Opening.construct_at
      CourseStore.Opening.open_path AdminStore.Opening.construct AdminStore.Opening.construct_at
      AdminStore.Opening.open_path
  constructed-Balanced k guard rng v started =
      let n = connections.live v.disk in
      let (courses, disk1) = CourseStore.Opening.construct f v.disk in
      let (opened, count) =
        open_path-Settled f connections n database_path (new_database q.Db) v.disk refl in
      let (admins, disk2) = AdminStore.Opening.construct f d rng disk1 in
      let (opened', count') =
        open_path-Settled f connections (counting courses.handle n) database_path
          (new_database q.Db) disk1 count in
      let again = CourseStore.Opening.open_path f database_path courses disk2 in
      let (opened'', count'') =
        open_path-Settled f connections (counting admins.handle n) database_path courses disk2
          (count' ∙ counting_swap admins.handle courses.handle n) in
      courses_opened-Balanced n k guard admins (record v { disk = disk2 }) again
        (count'' ∙ counting_swap again.1.handle admins.handle n) started opened''

  key_read-Balanced :
      (k : ℕ) (guard : Guard) (rng : d.Rng) (v : World w u f d) (answer : ErrorInfo × Bytes)
      → Started sockets laws connections d k guard v.wsa
      → Balanced (connections.live v.disk) k v.net (key_read w u f d guard rng v answer)
  key_read-Balanced k guard rng v (err, key) started =
      both_branches (Balanced (connections.live v.disk) k v.net) (not (is_success err))
        (refl, (refl, destroy_uses sockets laws connections d k guard v.wsa started, λ x. refl))
        (constructed-Balanced k guard rng (record v { key = key }) started)

  guarded-Balanced :
      (rng : d.Rng) (v : World w u f d) (answer : Bool × u.Wsa)
      → u.wsa_startup v.wsa ≡ answer
      → Balanced
          (connections.live v.disk)
          (laws.uses v.wsa)
          v.net
          (guarded w u f d rng v (WinsockGuard.constructed answer.0, answer.1))
  unfolding is_ok WinsockGuard.destroy
  guarded-Balanced rng v (true, wsa) got =
      key_read-Balanced (laws.uses v.wsa) (WinsockGuard.constructed true) rng
        (record v { wsa = wsa }) (read_app_key p v.key) (refl, laws.starts v.wsa wsa got)
  guarded-Balanced rng v (false, wsa) got =
      (refl, (refl, laws.starts_none v.wsa wsa got, λ x. refl))

  -- Whatever the system, SQLite and the file of the key answer: when `main` returns before its loop, it
  -- returns 1, and the connections, the open sockets and the uses of the socket library are those of
  -- before; when it reaches the loop, each of the two repositories holds one connection and no other was
  -- left open, the library has one more use, and the listener is the only new socket.
  pub main_start-Balanced :
      (rng : d.Rng) (v : World w u f d)
      → Balanced (connections.live v.disk) (laws.uses v.wsa) v.net (main_start w u f d rng v)
  unfolding main_start WinsockGuard.construct
  main_start-Balanced rng v = guarded-Balanced rng v (u.wsa_startup v.wsa) refl
