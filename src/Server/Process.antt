-- ===== src/Server/Process.antt =====
-- The server's main thread in programs/Server/src/server_main.cpp from the listener on: the loop that
-- accepts clients, and the shutdown, which a signal may ask for at any moment.
pub mod Owned
pub mod Shutdown
mod Tests
use dcn1003_group.Base.{ℕ, Bool, true, false, Option, none, some, List, [], ◌∷◌, if◌then◌else◌}
use dcn1003_group.Platform.{Platform}
use dcn1003_group.Connect.{Winsock, close_valid}

-- Where the main thread is: before the test of `g_running` in the `while`, in `accept`, behind an
-- `accept` that failed, behind the loop, and at the end.
pub data Stage : Type 0 where
  checking accepting refused stopping stopped : Stage

-- What happens next: a signal, whose handler runs to its end, or a step of the main thread.
pub data Event : Type 0 where
  signal go : Event

-- `listen` is `g_listen_sock`, and `clients` are the sockets that were handed to a thread of
-- `handle_client`.
pub record State (p : Platform) : Type 0 where
  pub stage : Stage
  pub running : Bool
  pub listen : Option ℕ
  pub listen_sock : ℕ
  pub clients : List ℕ
  pub net : p.Net

module _ {p : Platform} (w : Winsock p) where
  -- `g_listen_sock.exchange(INVALID_SOCKET)`, and `closesocket` of what it held.
  abbrev pub close_listener : State p → State p
  close_listener s = record s { listen = none; net = close_valid w s.listen s.net }

  unfoldable pub request_shutdown : State p → State p
  request_shutdown s = record (close_listener s) { running = false }

  -- What follows `accept`: a client is handed to its thread.
  abbrev pub accepted : Option ℕ × p.Net → State p → State p
  accepted (none, n) s = record s { stage = Stage.refused; net = n }
  accepted (some client, n) s = record s {
    stage = Stage.checking;
    clients = client ∷ s.clients;
    net = n;
  }

  -- A step of the main thread; `accept` is the call on a socket, with the client's socket if it succeeds.
  abbrev pub step_at : (ℕ → p.Net → Option ℕ × p.Net) → Stage → State p → State p
  step_at accept Stage.checking s =
      if s.running
      then record s { stage = Stage.accepting }
      else record s { stage = Stage.stopping }
  step_at accept Stage.accepting s = accepted (accept s.listen_sock s.net) s
  step_at accept Stage.refused s =
      if s.running then record s { stage = Stage.checking } else record s { stage = Stage.stopping }
  step_at accept Stage.stopping s = record (close_listener s) { stage = Stage.stopped }
  step_at accept Stage.stopped s = s

  unfoldable pub step : (ℕ → p.Net → Option ℕ × p.Net) → Event → State p → State p
  step accept Event.signal s = request_shutdown s
  step accept Event.go s = step_at accept s.stage s

  -- The steps in the order in which they happen.
  unfoldable pub run_server : (ℕ → p.Net → Option ℕ × p.Net) → List Event → State p → State p
  run_server accept [] s = s
  run_server accept (e ∷ events) s = run_server accept events (step accept e s)

-- Behind `create_listener`, which gave this socket.
abbrev pub listening : {p : Platform} → ℕ → p.Net → State p
listening s n = record {
  stage = Stage.checking;
  running = true;
  listen = some s;
  listen_sock = s;
  clients = [];
  net = n;
}
