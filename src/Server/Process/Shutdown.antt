-- ===== src/Server/Process/Shutdown.antt =====
-- That the server stops after a signal.
use dcn1003_group.Base.{
  ℕ, suc, ◌-◌, ◌≤◌, ◌≡◌, refl, ap, ◌∙◌, false, Option, none, some, List, [], ◌∷◌, ◌++◌, arith,
  both_branches,
}
use dcn1003_group.Platform.{Platform}
use dcn1003_group.Connect.{Winsock, close_valid}
use dcn1003_group.Connect.Owned.{Sockets}
use dcn1003_group.Server.Process.{
  Stage, Event, State, request_shutdown, accepted, step_at, step, run_server, listening,
}
use dcn1003_group.Server.Process.Owned.{Accepts}

-- How many steps of the main thread are left when it may not accept again.
abbrev steps_left : Stage → ℕ
steps_left Stage.checking = 2
steps_left Stage.accepting = 3
steps_left Stage.refused = 2
steps_left Stage.stopping = 1
steps_left Stage.stopped = 0

steps_left_bound : (stage : Stage) → steps_left stage ≤ 3
steps_left_bound Stage.checking = omega arith
steps_left_bound Stage.accepting = omega arith
steps_left_bound Stage.refused = omega arith
steps_left_bound Stage.stopping = omega arith
steps_left_bound Stage.stopped = omega arith

none_left : (stage : Stage) → steps_left stage ≡ 0 → stage ≡ Stage.stopped
none_left Stage.checking h = absurd (omega arith)
none_left Stage.accepting h = absurd (omega arith)
none_left Stage.refused h = absurd (omega arith)
none_left Stage.stopping h = absurd (omega arith)
none_left Stage.stopped h = refl

-- How many steps of the main thread are among the events.
abbrev pub main_steps : List Event → ℕ
main_steps [] = 0
main_steps (Event.signal ∷ events) = main_steps events
main_steps (Event.go ∷ events) = suc (main_steps events)

pub run_server-append :
    {p : Platform} (w : Winsock p) (accept : ℕ → p.Net → Option ℕ × p.Net)
    (before after : List Event) (s : State p)
    → run_server w accept (before ++ after) s
      ≡ run_server w accept after (run_server w accept before s)
unfolding run_server
run_server-append w accept [] after s = refl
run_server-append w accept (e ∷ before) after s =
    run_server-append w accept before after (step w accept e s)

module _ {p : Platform} {w : Winsock p} (laws : Sockets w) (accept : ℕ → p.Net → Option ℕ × p.Net)
    (accepts : Accepts laws accept)
    (refuses : (l : ℕ) (n : p.Net) → laws.is_open n l ≡ false → (accept l n).0 ≡ none) where
  -- The listener's number is that of the main thread's local; if it is not held, its socket is closed.
  abbrev Listens : Option ℕ → ℕ → p.Net → Type 0
  Listens (some k) l n = k ≡ l
  Listens none l n = laws.is_open n l ≡ false

  abbrev Heard : State p → Type 0
  Heard s = Listens s.listen s.listen_sock s.net

  close-Listens :
      (o : Option ℕ) (l : ℕ) (n : p.Net)
      → Listens o l n
      → laws.is_open (close_valid w o n) l ≡ false
  close-Listens none l n h = h
  close-Listens (some k) l n h = rw (← h) (ground (arith, laws.closes n k k))

  refused : (l c : ℕ) (n n' : p.Net) → accept l n ≡ (some c, n') → laws.is_open n l ≡ false → ⊥
  refused l c n n' got closed = ground (arith, refuses l n closed, got)

  accept-Closed :
      (l : ℕ) (n : p.Net) (answer : Option ℕ × p.Net)
      → accept l n ≡ answer
      → laws.is_open n l ≡ false
      → laws.is_open answer.1 l ≡ false
  accept-Closed l n (none, n') got closed = accepts.opens_none l n n' l got ∙ closed
  accept-Closed l n (some c, n') got closed = absurd (refused l c n n' got closed)

  moved-Listens :
      (o : Option ℕ) (l : ℕ) (n n' : p.Net)
      → (laws.is_open n l ≡ false → laws.is_open n' l ≡ false)
      → Listens o l n
      → Listens o l n'
  moved-Listens none l n n' keeps h = keeps h
  moved-Listens (some k) l n n' keeps h = h

  accepted-Listens :
      (s : State p) (answer : Option ℕ × p.Net)
      → accept s.listen_sock s.net ≡ answer
      → Heard s
      → Heard (accepted w answer s)
  accepted-Listens s (none, n) got h =
      moved-Listens s.listen s.listen_sock s.net n (accept-Closed s.listen_sock s.net (none, n) got)
        h
  accepted-Listens s (some c, n) got h =
      moved-Listens s.listen s.listen_sock s.net n
        (accept-Closed s.listen_sock s.net (some c, n) got) h

  step_at-Listens : (stage : Stage) (s : State p) → Heard s → Heard (step_at w accept stage s)
  step_at-Listens Stage.checking s h = both_branches Heard s.running h h
  step_at-Listens Stage.accepting s h = accepted-Listens s (accept s.listen_sock s.net) refl h
  step_at-Listens Stage.refused s h = both_branches Heard s.running h h
  step_at-Listens Stage.stopping s h = close-Listens s.listen s.listen_sock s.net h
  step_at-Listens Stage.stopped s h = h

  step-Listens : (e : Event) (s : State p) → Heard s → Heard (step w accept e s)
  unfolding step request_shutdown
  step-Listens Event.signal s h = close-Listens s.listen s.listen_sock s.net h
  step-Listens Event.go s h = step_at-Listens s.stage s h

  run_server-Listens :
      (events : List Event) (s : State p) → Heard s → Heard (run_server w accept events s)
  unfolding run_server
  run_server-Listens [] s h = h
  run_server-Listens (e ∷ events) s h =
      run_server-Listens events (step w accept e s) (step-Listens e s h)

  -- The main thread cannot accept again.
  abbrev Ended : State p → Type 0
  Ended s = (s.running ≡ false) × (s.listen ≡ none) × (laws.is_open s.net s.listen_sock ≡ false)

  -- The same clients, and one step fewer.
  abbrev Nearer : Stage → State p → State p → Type 0
  Nearer stage s s' =
      Ended s' × (s'.clients ≡ s.clients) × (steps_left s'.stage ≡ steps_left stage - 1)

  accepted-Nearer :
      (s : State p) (answer : Option ℕ × p.Net)
      → accept s.listen_sock s.net ≡ answer
      → Ended s
      → Nearer Stage.accepting s (accepted w answer s)
  accepted-Nearer s (none, n) got (off, shut, closed) =
      ((off, shut, accepts.opens_none s.listen_sock s.net n s.listen_sock got ∙ closed), refl, refl)
  accepted-Nearer s (some c, n) got (off, shut, closed) =
      absurd (refused s.listen_sock c s.net n got closed)

  step_at-Nearer :
      (stage : Stage) (s : State p)
      → s.stage ≡ stage
      → Ended s
      → Nearer stage s (step_at w accept stage s)
  step_at-Nearer Stage.checking s at_stage (off, shut, closed) =
      rw off ((refl, shut, closed), refl, refl)
  step_at-Nearer Stage.accepting s at_stage h =
      accepted-Nearer s (accept s.listen_sock s.net) refl h
  step_at-Nearer Stage.refused s at_stage (off, shut, closed) =
      rw off ((refl, shut, closed), refl, refl)
  step_at-Nearer Stage.stopping s at_stage (off, shut, closed) =
      ((off, refl, rw shut closed), refl, refl)
  step_at-Nearer Stage.stopped s at_stage h = (h, refl, ap steps_left at_stage)

  signal-Ended : (s : State p) → Heard s → Ended (step w accept Event.signal s)
  unfolding step request_shutdown
  signal-Ended s h = (refl, refl, close-Listens s.listen s.listen_sock s.net h)

  run_server-Ended :
      (events : List Event) (s : State p)
      → Ended s
      → steps_left s.stage ≤ main_steps events
      → ((run_server w accept events s).stage ≡ Stage.stopped)
        × ((run_server w accept events s).clients ≡ s.clients)
  unfolding run_server step request_shutdown
  run_server-Ended [] s h enough = (none_left s.stage (omega arith), refl)
  run_server-Ended (Event.signal ∷ events) s (off, shut, closed) enough =
      run_server-Ended events (request_shutdown w s) (refl, refl, rw shut closed) enough
  run_server-Ended (Event.go ∷ events) s h enough =
      let (h', same, nearer) = step_at-Nearer s.stage s refl h in
      let (stopped, kept) =
        run_server-Ended events (step_at w accept s.stage s) h' (omega (arith, nearer, enough)) in
      (stopped, kept ∙ same)

  -- Whatever happened before a signal, and whatever other signals follow it: once three steps of the
  -- main thread have followed, the main thread has stopped, and no client was accepted behind the signal. Winsock's `accept` fails on a socket that is closed, as documented; that the call
  -- returns is what a step is.
  pub run_server_stops :
      (before after : List Event) (l : ℕ) (n : p.Net)
      → 3 ≤ main_steps after
      → ((run_server w accept
            (Event.signal ∷ after)
            (run_server w accept before (listening l n))).stage
          ≡ Stage.stopped)
        × ((run_server w accept
              (Event.signal ∷ after)
              (run_server w accept before (listening l n))).clients
            ≡ (run_server w accept before (listening l n)).clients)
  unfolding run_server step request_shutdown
  run_server_stops before after l n enough =
      let s = run_server w accept before (listening l n) in
      let bound = steps_left_bound s.stage in
      run_server-Ended after (request_shutdown w s)
        (signal-Ended s (run_server-Listens before (listening l n) refl))
        (omega (arith, bound, enough))
