-- ===== src/Server/Main.antt =====
-- `main` of programs/Server/src/server_main.cpp up to its loop and from the end of the loop on, and the
-- handlers of the signals. The console output is left out.
pub mod Leave
pub mod Balance
pub mod Stops
mod Tests
use dcn1003_group.Base.{ℕ, Bool, true, false, not, if◌then◌else◌, Option, none, some, Bytes, codes}
use dcn1003_group.Base.Int.{pos}
use dcn1003_group.Error.{ErrorInfo, is_success}
use dcn1003_group.WinsockGuard
use dcn1003_group.WinsockGuard.{Startup, Guard, is_ok}
use dcn1003_group.PasswordHash.{Derivation}
use dcn1003_group.Sqlite.{Sqlite}
use dcn1003_group.Database.{Files, Database}
use dcn1003_group.CourseStore
use dcn1003_group.AdminStore
use dcn1003_group.AdminStore.{Store, sqlite_admins, inject_default}
use dcn1003_group.Platform.{Platform}
use dcn1003_group.Crypto.{read_app_key}
use dcn1003_group.Connect.{Winsock, create_listener}
use dcn1003_group.Server.Process.{State, request_shutdown}

-- `DB_COURSES_PATH` and `DB_ADMINS_PATH`.
abbrev database_path : Bytes
database_path = codes "data/DCN.db"

abbrev port : ℕ
port = 9001

abbrev backlog : ℕ
backlog = 10

-- The control events that `console_ctrl_handler` knows, and any other.
pub data Control : Type 0 where
  ctrl_c ctrl_break ctrl_close ctrl_logoff ctrl_shutdown other_control : Control

module _ {p : Platform} (w : Winsock p) where
  -- Whether the event was handled.
  unfoldable pub console_ctrl_handler : Control → State p → Bool × State p
  console_ctrl_handler Control.other_control s = (false, s)
  console_ctrl_handler _ s = (true, request_shutdown w s)

  unfoldable pub signal_handler : State p → State p
  signal_handler s = request_shutdown w s

module _ {p : Platform} (w : Winsock p) (u : Startup) {q : Sqlite} (f : Files q)
    (d : Derivation) where
  -- What `main` finds outside, and the global `openssl::key`.
  pub record World : Type 0 where
    pub wsa : u.Wsa
    pub net : p.Net
    pub disk : f.Disk
    pub key : Bytes

  -- The locals of `main` at its loop, and the listening socket.
  pub record Running : Type 0 where
    pub guard : Guard
    pub courses : Database q.Db
    pub admins : Store q d
    pub listen_sock : ℕ
    pub world : World

  -- `main` returned early, or it is at its loop.
  pub data Start : Type 0 where
    exited : ℕ → World → Start
    serving : Running → Start

  -- The destructors of the locals: `admins`, `courses`, `winsock`.
  unfoldable pub leave : Guard → Database q.Db → Store q d → World → World
  unfolding CourseStore.Opening.close AdminStore.Opening.close
  leave guard courses admins v =
      let (admins', disk1) = AdminStore.Opening.close f d admins v.disk in
      let (courses', disk2) = CourseStore.Opening.close f courses disk1 in
      record v { wsa = WinsockGuard.destroy u guard v.wsa; disk = disk2 }

  abbrev listened : Guard → Database q.Db → Store q d → World → Option ℕ × p.Net → Start
  listened guard courses admins v (none, n) =
      exited 1 (leave guard courses admins (record v { net = n }))
  listened guard courses admins v (some s, n) = serving (record {
    guard = guard;
    courses = courses;
    admins = admins;
    listen_sock = s;
    world = record v { net = n };
  })

  abbrev admins_ready : Guard → Database q.Db → World → Bool × Store q d → Start
  admins_ready guard courses v (false, admins) = exited 1 (leave guard courses admins v)
  admins_ready guard courses v (true, admins) =
      listened guard courses (inject_default (sqlite_admins q d) admins) v
        (create_listener w (pos port) (pos backlog) v.net)

  abbrev admins_opened : Guard → Database q.Db → World → Bool × Store q d × f.Disk → Start
  admins_opened guard courses v (false, admins, disk) =
      exited 1 (leave guard courses admins (record v { disk = disk }))
  admins_opened guard courses v (true, admins, disk) =
      admins_ready guard courses (record v { disk = disk })
        (AdminStore.initialize_schema q d admins)

  abbrev courses_ready : Guard → Store q d → World → Bool × Database q.Db → Start
  courses_ready guard admins v (false, courses) = exited 1 (leave guard courses admins v)
  courses_ready guard admins v (true, courses) =
      admins_opened guard courses v (AdminStore.Opening.open_path f d database_path admins v.disk)

  abbrev courses_opened : Guard → Store q d → World → Bool × Database q.Db × f.Disk → Start
  courses_opened guard admins v (false, courses, disk) =
      exited 1 (leave guard courses admins (record v { disk = disk }))
  courses_opened guard admins v (true, courses, disk) =
      courses_ready guard admins (record v { disk = disk })
        (CourseStore.initialize_schema q courses)

  -- The two repositories are opened by their constructors, and then again.
  abbrev constructed : Guard → d.Rng → World → Start
  constructed guard rng v =
      let (courses, disk1) = CourseStore.Opening.construct f v.disk in
      let (admins, disk2) = AdminStore.Opening.construct f d rng disk1 in
      courses_opened guard admins (record v { disk = disk2 })
        (CourseStore.Opening.open_path f database_path courses disk2)

  abbrev key_read : Guard → d.Rng → World → ErrorInfo × Bytes → Start
  key_read guard rng v (err, key) =
      if not (is_success err)
      then exited 1 (record v { wsa = WinsockGuard.destroy u guard v.wsa; key = key })
      else constructed guard rng (record v { key = key })

  abbrev guarded : d.Rng → World → Guard × u.Wsa → Start
  guarded rng v (guard, wsa) =
      if not (is_ok guard)
      then exited 1 (record v { wsa = WinsockGuard.destroy u guard wsa })
      else key_read guard rng (record v { wsa = wsa }) (read_app_key p v.key)

  unfoldable pub main_start : d.Rng → World → Start
  unfolding CourseStore.Opening.open_path CourseStore.Opening.construct AdminStore.Opening.open_path
      AdminStore.Opening.construct leave is_ok
  main_start rng v = guarded rng v (WinsockGuard.construct u v.wsa)

  -- From the end of the loop on, when the listener is closed; the repositories as the threads of the
  -- clients left them.
  unfoldable pub main_end : Guard → Database q.Db → Store q d → World → ℕ × World
  unfolding CourseStore.Opening.close AdminStore.Opening.close leave
  main_end guard courses admins v =
      let (courses', disk1) = CourseStore.Opening.close f courses v.disk in
      let (admins', disk2) = AdminStore.Opening.close f d admins disk1 in
      (0, leave guard courses' admins' (record v { disk = disk2 }))
