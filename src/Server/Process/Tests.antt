-- ===== src/Server/Process/Tests.antt =====
-- The server's main thread over the list of open sockets.
use dcn1003_group.Base.{ℕ, ◌≡◌, refl, Bool, false, none, List, [], ◌∷◌, arith}
use dcn1003_group.Server.Process.{
  Stage, Event, State, request_shutdown, step, run_server, listening,
}
use dcn1003_group.Server.Process.Shutdown.{run_server_stops}
use dcn1003_group.Server.Process.Owned.{Accounted, Closed, run_server-Accounted}
use dcn1003_group.Examples.Winsock.{
  open_list, open_list_winsock, open_list-Sockets, open_list_accept, open_list-Accepts,
  open_list_accept_refuses, holds, without,
}

-- One client is accepted; the signal comes while the next `accept` waits.
abbrev events : List Event
events = Event.go ∷ Event.go ∷ Event.go ∷ Event.signal ∷ Event.go ∷ Event.go ∷ Event.go ∷ []

abbrev start : State open_list
start = listening 9 (9 ∷ [])

abbrev none_other : ℕ → Bool
none_other x = false

stops_with_client : run_server open_list_winsock open_list_accept events start ≡ record start {
  stage = Stage.stopped;
  running = false;
  listen = none;
  clients = 10 ∷ [];
  net = 10 ∷ [];
}
unfolding run_server step request_shutdown open_list_accept holds without
stops_with_client = refl

run_server-Accounted_example :
    Accounted open_list-Sockets none_other
      (run_server open_list_winsock open_list_accept events start).listen
      (run_server open_list_winsock open_list_accept events start).clients
      (run_server open_list_winsock open_list_accept events start).net
    × Closed open_list-Sockets none_other
        (run_server open_list_winsock open_list_accept events start).stage
        (run_server open_list_winsock open_list_accept events start).listen
unfolding holds open_list-Sockets
run_server-Accounted_example =
    run_server-Accounted open_list-Sockets none_other open_list_accept open_list-Accepts events 9
      (9 ∷ []) refl (λ x. refl)

-- One client is accepted; two signals come while the next `accept` waits.
run_server_stops_example :
    ((run_server open_list_winsock open_list_accept
        (Event.signal ∷ Event.go ∷ Event.signal ∷ Event.go ∷ Event.go ∷ [])
        (run_server open_list_winsock open_list_accept
          (Event.go ∷ Event.go ∷ Event.go ∷ [])
          start)).stage
      ≡ Stage.stopped)
    × ((run_server open_list_winsock open_list_accept
          (Event.signal ∷ Event.go ∷ Event.signal ∷ Event.go ∷ Event.go ∷ [])
          (run_server open_list_winsock open_list_accept
            (Event.go ∷ Event.go ∷ Event.go ∷ [])
            start)).clients
        ≡ (run_server open_list_winsock open_list_accept
            (Event.go ∷ Event.go ∷ Event.go ∷ [])
            start).clients)
run_server_stops_example =
    run_server_stops open_list-Sockets open_list_accept open_list-Accepts open_list_accept_refuses
      (Event.go ∷ Event.go ∷ Event.go ∷ []) (Event.go ∷ Event.signal ∷ Event.go ∷ Event.go ∷ []) 9
      (9 ∷ []) (omega arith)
