-- ===== src/Server/Main/Tests.antt =====
-- `main` over a disk and a socket library that count, with one client that logs in.
use dcn1003_group.Base.{
  ℕ, ◌≡◌, refl, none, some, true, List, [], ◌∷◌, ◌++◌, arith, codes, bytes_eq, is_empty, replicate,
}
use dcn1003_group.CmdType.{cmd_login_req}
use dcn1003_group.Crypto.{read_app_key}
use dcn1003_group.WinsockGuard
use dcn1003_group.WinsockGuard.{Guard, is_ok}
use dcn1003_group.Database
use dcn1003_group.Database.{Database}
use dcn1003_group.CourseStore
use dcn1003_group.CourseStore.Queries.{sqlite_courses}
use dcn1003_group.AdminStore
use dcn1003_group.AdminStore.{Store, sqlite_admins, inject_default}
use dcn1003_group.Connect.{create_listener}
use dcn1003_group.Dispatch.{new_session, MsgBody}
use dcn1003_group.Server.Process.{Event, run_server, listening}
use dcn1003_group.Server.Threads.{
  Shared, put, no_threads, began, served, begins, serves, Steps, start, after,
}
use dcn1003_group.Server.Main.{World, Running, serving, main_start}
use dcn1003_group.Server.Main.Balance.{Balanced, main_start-Balanced}
use dcn1003_group.Server.Main.Stops.{Returned, stopped_main, signalled_main-Returned}
use dcn1003_group.Examples.Logged.{logged, counting_files, counting_files-Connections, exec_log}
use dcn1003_group.Examples.Repeated.{repeated}
use dcn1003_group.Examples.Startup.{counting_startup, counting_startup-Uses}
use dcn1003_group.Examples.Winsock.{
  open_list_winsock, open_list-Sockets, open_list_accept, open_list-Accepts,
  open_list_accept_refuses,
}

-- Two connections, three uses and the socket 5 are others'.
abbrev before : World open_list_winsock counting_startup counting_files repeated
before = record { wsa = 3; net = 5 ∷ []; disk = 2; key = [] }

abbrev seed : ℕ
seed = 18

main_start-Balanced_example :
    Balanced open_list-Sockets counting_startup-Uses counting_files-Connections repeated 2 3
      (5 ∷ [])
      (main_start open_list_winsock counting_startup counting_files repeated seed before)
main_start-Balanced_example =
    main_start-Balanced open_list-Sockets counting_startup-Uses counting_files-Connections repeated
      seed before

abbrev running : Running open_list_winsock counting_startup counting_files repeated
running = record {
  guard = WinsockGuard.constructed true;
  courses = record { handle = some (record { log = []; began = none }); last_error = [] };
  admins =
      inject_default (sqlite_admins logged repeated)
        (record { handle = some (record { log = []; began = none }); last_error = []; rng = seed });
  listen_sock = 6;
  world = record { wsa = 4; net = 6 ∷ 5 ∷ []; disk = 4; key = replicate 32 7 };
}

reaches_loop :
    main_start open_list_winsock counting_startup counting_files repeated seed before
    ≡ serving running
unfolding main_start is_ok read_app_key create_listener codes bytes_eq is_empty exec_log
    WinsockGuard.construct Database.open_path AdminStore.initialize_schema
    CourseStore.initialize_schema
reaches_loop = refl

abbrev login : MsgBody
login = record {
  cmd_type = cmd_login_req;
  req_id = 1;
  timestamp = 0;
  payload = codes "amy" ∷ codes "pw" ∷ [];
}

-- A thread has begun, and tries to log in.
abbrev one_thread : Shared (sqlite_courses logged) (sqlite_admins logged repeated)
one_thread = began (sqlite_courses logged) (sqlite_admins logged repeated) 1 (
    no_threads (sqlite_courses logged) (sqlite_admins logged repeated) running.courses
      running.admins)

abbrev after_login : Shared (sqlite_courses logged) (sqlite_admins logged repeated)
after_login =
    (served (sqlite_courses logged) (sqlite_admins logged repeated) 1 new_session login
      one_thread).1

path :
    Steps
      (sqlite_courses logged)
      (sqlite_admins logged repeated)
      (no_threads
        (sqlite_courses logged)
        (sqlite_admins logged repeated)
        running.courses
        running.admins)
      after_login
unfolding began put
path = after (after start (begins 1 _ refl)) (serves 1 new_session login _ refl)

-- One client is accepted, and a signal stops the server.
abbrev accepting : List Event
accepting = Event.go ∷ Event.go ∷ Event.go ∷ []

abbrev stopping : List Event
stopping = Event.go ∷ Event.go ∷ Event.go ∷ []

signalled_main-Returned_example :
    Returned open_list-Sockets counting_startup-Uses counting_files-Connections repeated before
      (run_server open_list_winsock open_list_accept accepting (listening 6 (6 ∷ 5 ∷ []))).clients
      (stopped_main open_list-Sockets counting_startup-Uses counting_files-Connections repeated
        running
        (run_server open_list_winsock open_list_accept
          (accepting ++ Event.signal ∷ stopping)
          (listening 6 (6 ∷ 5 ∷ [])))
        after_login)
signalled_main-Returned_example =
    signalled_main-Returned open_list-Sockets counting_startup-Uses counting_files-Connections
      repeated open_list_accept open_list-Accepts open_list_accept_refuses seed before running
      accepting stopping after_login reaches_loop path (omega arith)
