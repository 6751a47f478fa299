-- ===== src/Server/Process/Owned.antt =====
-- Which sockets are open while the server runs and when it has stopped.
use dcn1003_group.Base.{
  ℕ, ◌≡◌, refl, sym, ap, ◌∙◌, inl, inr, Bool, true, false, Option, none, some, List, [], ◌∷◌, ◌||◌,
  ◌==◌, arith, if◌then◌else◌, Bool-cases, both_branches,
}
use dcn1003_group.Platform.{Platform}
use dcn1003_group.Connect.{Winsock, close_valid}
use dcn1003_group.Connect.Owned.{Sockets}
use dcn1003_group.Connect.Held.{is_held, same_number}
use dcn1003_group.Server.Process.{
  Stage, Event, State, request_shutdown, accepted, step_at, step, run_server, listening,
}

-- What Winsock's documentation says of `accept`: a client's socket is one that was not open, and a call
-- that fails opens none.
pub record Accepts {p : Platform} {w : Winsock p} (laws : Sockets w)
    (accept : ℕ → p.Net → Option ℕ × p.Net) : Type 0 where
  pub fresh : (l : ℕ) (n n' : p.Net) (c : ℕ) → accept l n ≡ (some c, n') → laws.is_open n c ≡ false
  pub opens :
      (l : ℕ) (n n' : p.Net) (c x : ℕ)
      → accept l n ≡ (some c, n')
      → laws.is_open n' x ≡ (if c == x then true else laws.is_open n x)
  pub opens_none :
      (l : ℕ) (n n' : p.Net) (x : ℕ)
      → accept l n ≡ (none, n')
      → laws.is_open n' x ≡ laws.is_open n x

abbrev pub member : ℕ → List ℕ → Bool
member x [] = false
member x (y ∷ ys) = if y == x then true else member x ys

module _ {p : Platform} {w : Winsock p} (laws : Sockets w) (others : ℕ → Bool) where
  -- The open sockets are the clients', the listener's as long as it is held, and the others.
  abbrev pub Accounted : Option ℕ → List ℕ → p.Net → Type 0
  Accounted o clients n = (x : ℕ) → laws.is_open n x ≡ (member x clients || is_held o x || others x)

  -- The listener's socket is no client's and none of the others.
  abbrev Apart : Option ℕ → List ℕ → Type 0
  Apart none clients = Unit
  Apart (some l) clients = (member l clients ≡ false) × (others l ≡ false)

  -- A server that has stopped holds no listener.
  abbrev pub Closed : Stage → Option ℕ → Type 0
  Closed Stage.stopped o = o ≡ none
  Closed _ o = Unit

  Closed-none : (stage : Stage) → Closed stage none
  Closed-none Stage.checking = tt
  Closed-none Stage.accepting = tt
  Closed-none Stage.refused = tt
  Closed-none Stage.stopping = tt
  Closed-none Stage.stopped = refl

  abbrev Sound : Option ℕ → List ℕ → p.Net → Type 0
  Sound o clients n = Accounted o clients n × Apart o clients

  close-Sound :
      (o : Option ℕ) (clients : List ℕ) (n : p.Net)
      → Sound o clients n
      → Sound none clients (close_valid w o n)
  close-Sound none clients n h = h
  close-Sound (some l) clients n (all, (no_client, no_other)) = (closed, tt)
    where
      closed : Accounted none clients (w.close l n)
      closed x = elim (Bool-cases (l == x)) [
        | inl same ↦
            rw (← same_number l x same) (ground (arith, laws.closes n l l, no_client, no_other))
        | inr differ ↦
            rw differ at (laws.closes n l x)
            ∙ all x
            ∙ ap (λ b. member x clients || b || others x) differ
      ]

  accept-Apart :
      (o : Option ℕ) (clients : List ℕ) (n : p.Net) (c : ℕ)
      → Sound o clients n
      → laws.is_open n c ≡ false
      → Apart o (c ∷ clients)
  accept-Apart none clients n c h fresh = tt
  accept-Apart (some l) clients n c (all, (no_client, no_other)) fresh =
      elim (Bool-cases (c == l)) [
        | inl same ↦ absurd (clash (rw (same_number c l same) at (sym fresh ∙ all c)))
        | inr differ ↦ (rw differ no_client, no_other)
      ]
    where
      clash : false ≡ (member l clients || (l == l) || others l) → ⊥
      clash e = ground (arith, no_client)

  accepted-Sound :
      (o : Option ℕ) (clients : List ℕ) (n n' : p.Net) (c : ℕ)
      → Sound o clients n
      → laws.is_open n c ≡ false
      → ((x : ℕ) → laws.is_open n' x ≡ (if c == x then true else laws.is_open n x))
      → Sound o (c ∷ clients) n'
  accepted-Sound o clients n n' c (all, apart) fresh opens =
      (counted, accept-Apart o clients n c (all, apart) fresh)
    where
      counted : Accounted o (c ∷ clients) n'
      counted x = elim (Bool-cases (c == x)) [
        | inl same ↦ opens x ∙ rw same refl
        | inr differ ↦ opens x ∙ rw differ (all x)
      ]

  module _ (accept : ℕ → p.Net → Option ℕ × p.Net) (accepts : Accepts laws accept) where
    -- The sockets are accounted for, and a server that has stopped holds no listener.
    abbrev Holds : State p → Type 0
    Holds s = Sound s.listen s.clients s.net × Closed s.stage s.listen

    accept_step-Sound :
        (s : State p) (answer : Option ℕ × p.Net)
        → accept s.listen_sock s.net ≡ answer
        → Holds s
        → Holds (accepted w answer s)
    accept_step-Sound s (none, n) got ((all, apart), fine) =
        (((λ x. accepts.opens_none s.listen_sock s.net n x got ∙ all x), apart), tt)
    accept_step-Sound s (some c, n) got (h, fine) = (
      accepted-Sound s.listen s.clients s.net n c h (accepts.fresh s.listen_sock s.net n c got)
          (λ x. accepts.opens s.listen_sock s.net n c x got),
      tt,
    )

    step_at-Holds :
        (stage : Stage) (s : State p) → s.stage ≡ stage → Holds s → Holds (step_at w accept stage s)
    step_at-Holds Stage.checking s at_stage (h, fine) =
        both_branches Holds s.running (h, tt) (h, tt)
    step_at-Holds Stage.accepting s at_stage h =
        accept_step-Sound s (accept s.listen_sock s.net) refl h
    step_at-Holds Stage.refused s at_stage (h, fine) = both_branches Holds s.running (h, tt) (h, tt)
    step_at-Holds Stage.stopping s at_stage (h, fine) =
        (close-Sound s.listen s.clients s.net h, refl)
    step_at-Holds Stage.stopped s at_stage h = h

    step-Holds : (e : Event) (s : State p) → Holds s → Holds (step w accept e s)
    unfolding step request_shutdown
    step-Holds Event.signal s (h, fine) =
        (close-Sound s.listen s.clients s.net h, Closed-none s.stage)
    step-Holds Event.go s h = step_at-Holds s.stage s refl h

    run_server-Holds :
        (events : List Event) (s : State p) → Holds s → Holds (run_server w accept events s)
    unfolding run_server
    run_server-Holds [] s h = h
    run_server-Holds (e ∷ events) s h =
        run_server-Holds events (step w accept e s) (step-Holds e s h)

    -- Whatever Winsock answers and whenever signals come: in every state that the server reaches, the open
    -- sockets are exactly those of the accepted clients, the listener's as long as it is held, and the
    -- others that were open before, so that no shutdown closes a client's socket; and a server that has
    -- stopped holds no listener. The threads of the clients, which close their own sockets, are left out.
    pub run_server-Accounted :
        (events : List Event) (l : ℕ) (n : p.Net)
        → others l ≡ false
        → ((x : ℕ) → laws.is_open n x ≡ (if l == x then true else others x))
        → Accounted
            (run_server w accept events (listening l n)).listen
            (run_server w accept events (listening l n)).clients
            (run_server w accept events (listening l n)).net
          × Closed
              (run_server w accept events (listening l n)).stage
              (run_server w accept events (listening l n)).listen
    run_server-Accounted events l n new opened =
        let ((all, apart), closed) =
          run_server-Holds events (listening l n)
            (((λ x. opened x ∙ started x), (refl, new)), tt) in
        (all, closed)
      where
        started : (x : ℕ) → (if l == x then true else others x) ≡ ((l == x) || others x)
        started x = elim (Bool-cases (l == x)) [
          | inl same ↦ rw same refl
          | inr differ ↦ rw differ refl
        ]
