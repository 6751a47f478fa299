-- ===== src/Server/Main/Leave.antt =====
-- The end of the locals of `main`: the destructors at a return.
use dcn1003_group.Base.{ℕ, suc, ◌≡◌, true}
use dcn1003_group.WinsockGuard
use dcn1003_group.WinsockGuard.{Startup, Guard, Uses, is_ok}
use dcn1003_group.PasswordHash.{Derivation}
use dcn1003_group.Sqlite.{Sqlite}
use dcn1003_group.Database.{Files, Database}
use dcn1003_group.Database.Owned.{counting, is_some, Connections, close-Counted, open_path-Settled}
use dcn1003_group.CourseStore
use dcn1003_group.AdminStore
use dcn1003_group.AdminStore.{Store, sqlite_admins, inject_default}
use dcn1003_group.AdminStore.Opening.{database_of}
use dcn1003_group.Platform.{Platform}
use dcn1003_group.Connect.{Winsock}
use dcn1003_group.Connect.Owned.{Sockets}
use dcn1003_group.Server.Main.{World, leave, database_path}

module _ {p : Platform} {w : Winsock p} (sockets : Sockets w) {u : Startup} (laws : Uses u)
    {q : Sqlite} {f : Files q} (connections : Connections f) (d : Derivation) where
  -- The connections are those of the two repositories, and `n` others.
  abbrev pub Live : ℕ → Database q.Db → Store q d → f.Disk → Type 0
  Live n courses admins disk =
      connections.live disk ≡ counting admins.handle (counting courses.handle n)

  -- The guard started the library, whose other uses are `k`.
  abbrev pub Started : ℕ → Guard → u.Wsa → Type 0
  Started k guard s = (guard.initialized ≡ true) × (laws.uses s ≡ suc k)

  -- As many connections and uses as these, and the same sockets as in `v`.
  abbrev pub Left : ℕ → ℕ → p.Net → World w u f d → Type 0
  Left n k net v =
      (connections.live v.disk ≡ n)
      × (laws.uses v.wsa ≡ k)
      × ((x : ℕ) → sockets.is_open v.net x ≡ sockets.is_open net x)

  pub destroy_uses :
      (k : ℕ) (guard : Guard) (s : u.Wsa)
      → Started k guard s
      → laws.uses (WinsockGuard.destroy u guard s) ≡ k
  unfolding WinsockGuard.destroy
  destroy_uses k guard s (on, count) = rw on (laws.ends s k count)

  -- `AdministratorRepository::open` beside a course repository.
  pub AdminStore_open-Settled :
      (n : ℕ) (courses : Database q.Db) (admins : Store q d) (disk : f.Disk)
      → Live n courses admins disk
      → (is_some (AdminStore.Opening.open_path f d database_path admins disk).1.handle
          ≡ (AdminStore.Opening.open_path f d database_path admins disk).0)
        × Live n courses
            (AdminStore.Opening.open_path f d database_path admins disk).1
            (AdminStore.Opening.open_path f d database_path admins disk).2
  unfolding AdminStore.Opening.open_path
  AdminStore_open-Settled n courses admins disk live =
      open_path-Settled f connections (counting courses.handle n) database_path
        (database_of f d admins) disk live

  -- The destructors end both connections and the use of the library.
  pub leave-Left :
      (n k : ℕ) (guard : Guard) (courses : Database q.Db) (admins : Store q d) (v : World w u f d)
      (net : p.Net)
      → Live n courses admins v.disk
      → Started k guard v.wsa
      → ((x : ℕ) → sockets.is_open v.net x ≡ sockets.is_open net x)
      → Left n k net (leave w u f d guard courses admins v)
  unfolding leave AdminStore.Opening.close CourseStore.Opening.close
  leave-Left n k guard courses admins v net live started same =
      let (shut, count) =
        close-Counted f connections (counting courses.handle n) (database_of f d admins) v.disk
          live in
      let (shut', count') =
        close-Counted f connections n courses (AdminStore.Opening.close f d admins v.disk).1
          count in
      (count', destroy_uses k guard v.wsa started, same)
