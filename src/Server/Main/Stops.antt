-- ===== src/Server/Main/Stops.antt =====
-- What `main` of the server leaves open when it returns behind its loop, whatever its threads did.
use dcn1003_group.Base.{
  ℕ, suc, ◌≡◌, refl, sym, ap, ◌∙◌, Bool, false, ◌≤◌, Option, some, none, List, ◌∷◌, ◌++◌, ◌||◌,
  arith,
}
use mathlib.Core.Path.{subst}
use dcn1003_group.WinsockGuard.{Startup, Guard, Uses}
use dcn1003_group.PasswordHash.{Derivation}
use dcn1003_group.Sqlite.{Sqlite}
use dcn1003_group.Database.{Files, Database}
use dcn1003_group.Database.Owned.{
  counting, counting_same, counting_swap, Connections, close-Counted,
}
use dcn1003_group.CourseStore
use dcn1003_group.AdminStore
use dcn1003_group.AdminStore.{Store, sqlite_admins}
use dcn1003_group.AdminStore.Opening.{database_of}
use dcn1003_group.CourseStore.Queries.{sqlite_courses}
use dcn1003_group.Platform.{Platform}
use dcn1003_group.Connect.{Winsock}
use dcn1003_group.Connect.Owned.{Sockets, Opened}
use dcn1003_group.Connect.Held.{is_held}
use dcn1003_group.Server.Kept.{KeepsCourses, KeepsAdmins}
use dcn1003_group.Server.Process.{Stage, Event, State, run_server, listening}
use dcn1003_group.Server.Process.Shutdown.{main_steps, run_server_stops, run_server-append}
use dcn1003_group.Server.Process.Owned.{Accepts, member, Closed, run_server-Accounted}
use dcn1003_group.Server.Threads.{Shared, no_threads, Steps}
use dcn1003_group.Server.Threads.Sessions.{Steps-Keeps}
use dcn1003_group.Server.Main.{World, Running, serving, main_start, main_end}
use dcn1003_group.Server.Main.Leave.{Live, Started, Left, leave-Left}
use dcn1003_group.Server.Main.Balance.{Balanced, main_start-Balanced}

module _ (q : Sqlite) (d : Derivation) where
  courses_connection : KeepsCourses (sqlite_courses q) (CourseStore.Queries.Held.has_connection q)
  courses_connection = record {
    insert_or_replace = CourseStore.Queries.Held.insert_or_replace_held q;
    search_by_course_code = CourseStore.Queries.Held.search_by_course_code_held q;
    search_by_instructor = CourseStore.Queries.Held.search_by_instructor_held q;
    view_courses_by_semester = CourseStore.Queries.Held.view_courses_by_semester_held q;
    view_all_courses = CourseStore.Queries.Held.view_all_courses_held q;
    view_all_courses_paged = CourseStore.Queries.Held.view_all_courses_paged_held q;
    delete_course = CourseStore.Queries.Held.delete_course_held q;
    update = CourseStore.Queries.Held.update_held q;
  }

  admins_connection : KeepsAdmins (sqlite_admins q d) (AdminStore.Held.has_connection q d)
  admins_connection = record {
    insert_or_replace = AdminStore.Held.insert_or_replace_held q d;
    verify_login = AdminStore.Held.verify_login_held q d;
    list_usernames = AdminStore.Held.list_usernames_held q d;
    rename = AdminStore.Held.rename_held q d;
    remove = AdminStore.Held.remove_held q d;
  }

without_listener : (a b : Bool) → (a || false || b) ≡ (a || b)
without_listener a b = ground arith

module _ {p : Platform} {w : Winsock p} (sockets : Sockets w) {u : Startup} (laws : Uses u)
    {q : Sqlite} {f : Files q} (connections : Connections f) (d : Derivation) where
  -- Behind the loop: `close` of both repositories, and then the destructors, which find them closed.
  main_end-Left :
      (n k : ℕ) (guard : Guard) (courses : Database q.Db) (admins : Store q d) (v : World w u f d)
      → Live sockets laws connections d n courses admins v.disk
      → Started sockets laws connections d k guard v.wsa
      → Left sockets laws connections d n k v.net (main_end w u f d guard courses admins v).1
  unfolding main_end AdminStore.Opening.close CourseStore.Opening.close
  main_end-Left n k guard courses admins v live started =
      let (courses', disk1) = CourseStore.Opening.close f courses v.disk in
      let (admins', disk2) = AdminStore.Opening.close f d admins disk1 in
      let (shut, count) =
        close-Counted f connections (counting admins.handle n) courses v.disk
          (live ∙ counting_swap admins.handle courses.handle n) in
      let (shut', count') = close-Counted f connections n (database_of f d admins) disk1 count in
      leave-Left sockets laws connections d n k guard courses' admins' (record v { disk = disk2 })
        v.net
        (count'
          ∙ sym (
              ap (λ (o : Option q.Db). counting o (counting courses'.handle n)) shut'
              ∙ ap (λ (o : Option q.Db). counting o n) shut))
        started (λ x. refl)

  -- `main` returned 0, with the connections and the uses of the library that there were in `v`, and with
  -- the sockets that were open in `v` and those of the accepted clients.
  abbrev pub Returned : World w u f d → List ℕ → ℕ × World w u f d → Type 0
  Returned v clients (code, v') =
      (code ≡ 0)
      × (connections.live v'.disk ≡ connections.live v.disk)
      × (laws.uses v'.wsa ≡ laws.uses v.wsa)
      × ((x : ℕ) → sockets.is_open v'.net x ≡ (member x clients || sockets.is_open v.net x))

  -- The end of `main`, from the main thread's state and what the threads share.
  abbrev pub stopped_main :
      Running w u f d → State p → Shared (sqlite_courses q) (sqlite_admins q d) → ℕ × World w u f d
  stopped_main r t s = main_end w u f d r.guard s.courses s.admins (record r.world { net = t.net })

  module _ (accept : ℕ → p.Net → Option ℕ × p.Net) (accepts : Accepts sockets accept) where
    stopped_sockets :
        (l : ℕ) (n net : p.Net) (events : List Event)
        → Opened w sockets n (some l) net
        → (run_server w accept events (listening l net)).stage ≡ Stage.stopped
        → (x : ℕ)
        → sockets.is_open (run_server w accept events (listening l net)).net x
          ≡ (member x (run_server w accept events (listening l net)).clients || sockets.is_open n x)
    stopped_sockets l n net events (new, opened) stopped x =
        let t = run_server w accept events (listening l net) in
        let (all, closed) =
          run_server-Accounted sockets (sockets.is_open n) accept accepts events l net new opened in
        let shut =
          subst (λ stage. Closed sockets (sockets.is_open n) stage t.listen) stopped closed in
        all x
        ∙ ap (λ (o : Option ℕ). member x t.clients || is_held o x || sockets.is_open n x) shut
        ∙ without_listener (member x t.clients) (sockets.is_open n x)

    -- When `main` got to its loop, the threads served any requests in any order, and the main thread
    -- stopped: `main` returns 0 with as many connections and uses of the socket library as
    -- at its beginning, and the open sockets are those of its beginning and those of the accepted
    -- clients, so that the listener is closed. What the threads of the clients do to their own sockets
    -- is left out.
    stopped_main-Returned :
        (rng : d.Rng) (v : World w u f d) (r : Running w u f d) (events : List Event)
        (s : Shared (sqlite_courses q) (sqlite_admins q d))
        → main_start w u f d rng v ≡ serving r
        → Steps
            (sqlite_courses q)
            (sqlite_admins q d)
            (no_threads (sqlite_courses q) (sqlite_admins q d) r.courses r.admins)
            s
        → (run_server w accept events (listening r.listen_sock r.world.net)).stage ≡ Stage.stopped
        → Returned v
            (run_server w accept events (listening r.listen_sock r.world.net)).clients
            (stopped_main r (run_server w accept events (listening r.listen_sock r.world.net)) s)
    unfolding main_end
    stopped_main-Returned rng v r events s got path stopped =
        let n = connections.live v.disk in
        let k = laws.uses v.wsa in
        let (hc, ha, live, started, opened) =
          subst (Balanced sockets laws connections d n k v.net) got
            (main_start-Balanced sockets laws connections d rng v) in
        let (kept_courses, kept_admins) =
          Steps-Keeps (sqlite_courses q) (sqlite_admins q d) _ _ (courses_connection q d)
            (admins_connection q d) path in
        let t = run_server w accept events (listening r.listen_sock r.world.net) in
        let both =
          counting_same {B = ℕ} s.admins.handle (some 0) (counting s.courses.handle n)
            (kept_admins ∙ ha)
          ∙ ap suc (counting_same {B = ℕ} s.courses.handle (some 0) n (kept_courses ∙ hc)) in
        let (count, used, same) =
          main_end-Left n k r.guard s.courses s.admins (record r.world { net = t.net })
            (live ∙ sym both) started in
        (refl, count, used, stopped_sockets r.listen_sock v.net r.world.net events opened stopped)

    -- When `main` got to its loop, the threads served any requests in any order, and a signal came at any
    -- moment with three steps of the main thread behind it: `main` returns 0 with as many connections and
    -- uses of the socket library as at its beginning, and the open sockets are those of its beginning and
    -- those of the clients accepted before the signal, so that the listener is closed. What the threads
    -- of the clients do to their own sockets is left out, and Winsock's `accept` fails on a socket that
    -- is closed, as documented.
    pub signalled_main-Returned :
        ((l : ℕ) (n : p.Net) → sockets.is_open n l ≡ false → (accept l n).0 ≡ none)
        → (rng : d.Rng) (v : World w u f d) (r : Running w u f d) (before after : List Event)
          (s : Shared (sqlite_courses q) (sqlite_admins q d))
        → main_start w u f d rng v ≡ serving r
        → Steps
            (sqlite_courses q)
            (sqlite_admins q d)
            (no_threads (sqlite_courses q) (sqlite_admins q d) r.courses r.admins)
            s
        → 3 ≤ main_steps after
        → Returned v (run_server w accept before (listening r.listen_sock r.world.net)).clients (
            stopped_main r
              (run_server w accept
                (before ++ Event.signal ∷ after)
                (listening r.listen_sock r.world.net))
              s)
    signalled_main-Returned refuses rng v r before after s got path enough =
        let start = listening r.listen_sock r.world.net in
        let (stopped, clients) =
          run_server_stops sockets accept accepts refuses before after r.listen_sock r.world.net
            enough in
        let same = run_server-append w accept before (Event.signal ∷ after) start in
        subst
          (λ (cs : List ℕ).
            Returned v cs
              (stopped_main r (run_server w accept (before ++ Event.signal ∷ after) start) s))
          (ap (λ (t : State p). t.clients) same ∙ clients)
          (stopped_main-Returned rng v r (before ++ Event.signal ∷ after) s got path
            (ap (λ (t : State p). t.stage) same ∙ stopped))
