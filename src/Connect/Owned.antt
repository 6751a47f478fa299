-- ===== src/Connect/Owned.antt =====
-- Which sockets are open after a connection was tried, after a listener was made, and after handlers
-- were moved and destroyed.
use dcn1003_group.Base.{
  ℕ, ◌≡◌, refl, ◌∙◌, inl, inr, Bool, true, false, Option, none, some, arith, ◌==◌, if◌then◌else◌,
  Bytes, Option-cases,
}
use dcn1003_group.Base.Int.{ℤ}
use dcn1003_group.Error.{ErrorInfo}
use dcn1003_group.Platform.{Platform}
use dcn1003_group.Connect.{
  Winsock, Address, to_u16, no_address, construct, connected, opened, connect_to, listened, bound,
  listener_opened, create_listener,
}

-- What Winsock's documentation says of open sockets: `socket` opens one that was not open, `closesocket`
-- closes one, and the other calls open and close none.
pub record Sockets {p : Platform} (w : Winsock p) : Type 0 where
  pub is_open : p.Net → ℕ → Bool
  pub fresh : (n n' : p.Net) (s : ℕ) → w.socket n ≡ (some s, n') → is_open n s ≡ false
  pub opens :
      (n n' : p.Net) (s x : ℕ)
      → w.socket n ≡ (some s, n')
      → is_open n' x ≡ (if s == x then true else is_open n x)
  pub opens_none : (n n' : p.Net) (x : ℕ) → w.socket n ≡ (none, n') → is_open n' x ≡ is_open n x
  pub closes :
      (n : p.Net) (s x : ℕ) → is_open (w.close s n) x ≡ (if s == x then false else is_open n x)
  pub connect_keeps :
      (s : ℕ) (ip : Bytes) (port : ℕ) (n : p.Net) (x : ℕ)
      → is_open (w.connect s ip port n).1 x ≡ is_open n x
  pub bind_keeps :
      (s : ℕ) (ip : Bytes) (port : ℕ) (n : p.Net) (x : ℕ)
      → is_open (w.bind s ip port n).1 x ≡ is_open n x
  pub listen_keeps :
      (s : ℕ) (backlog : ℤ) (n : p.Net) (x : ℕ) → is_open (w.listen s backlog n).1 x ≡ is_open n x
  pub reuse_keeps : (s : ℕ) (n : p.Net) (x : ℕ) → is_open (w.set_reuse s n) x ≡ is_open n x

module _ {p : Platform} (w : Winsock p) (laws : Sockets w) where
  -- The sockets that are open are those of before, with this one, if there is one, which is new.
  abbrev pub Opened : p.Net → Option ℕ → p.Net → Type 0
  Opened n none n' = (x : ℕ) → laws.is_open n' x ≡ laws.is_open n x
  Opened n (some s) n' =
      (laws.is_open n s ≡ false)
      × ((x : ℕ) → laws.is_open n' x ≡ (if s == x then true else laws.is_open n x))

  close_fresh :
      (n n1 n2 : p.Net) (s : ℕ)
      → w.socket n ≡ (some s, n1)
      → ((x : ℕ) → laws.is_open n2 x ≡ laws.is_open n1 x)
      → Opened n none (w.close s n2)
  close_fresh n n1 n2 s got keeps x =
      ground (arith, laws.closes n2 s x, keeps x, laws.opens n n1 s x got, laws.fresh n n1 s got)

  keep_fresh :
      (n n1 n2 : p.Net) (s : ℕ)
      → w.socket n ≡ (some s, n1)
      → ((x : ℕ) → laws.is_open n2 x ≡ laws.is_open n1 x)
      → Opened n (some s) n2
  keep_fresh n n1 n2 s got keeps = (laws.fresh n n1 s got, λ x. keeps x ∙ laws.opens n n1 s x got)

  connected-Opened :
      (out_err : ErrorInfo) (s : ℕ) (addr : Address) (r : Bool × p.Net) (n n1 : p.Net)
      → w.socket n ≡ (some s, n1)
      → ((x : ℕ) → laws.is_open r.1 x ≡ laws.is_open n1 x)
      → Opened n (connected w out_err s addr r).0.socket (connected w out_err s addr r).2
  unfolding construct
  connected-Opened out_err s addr (true, n2) n n1 got keeps = keep_fresh n n1 n2 s got keeps
  connected-Opened out_err s addr (false, n2) n n1 got keeps = close_fresh n n1 n2 s got keeps

  opened-Opened :
      (out_err : ErrorInfo) (addr : Address) (r : Option ℕ × p.Net) (n : p.Net)
      → w.socket n ≡ r
      → Opened n (opened w out_err addr r).0.socket (opened w out_err addr r).2
  unfolding construct
  opened-Opened out_err addr (none, n1) n got = λ x. laws.opens_none n n1 x got
  opened-Opened out_err addr (some s, n1) n got =
      connected-Opened out_err s addr (w.connect s addr.ip addr.port n1) n n1 got
        (λ x. laws.connect_keeps s addr.ip addr.port n1 x)

  -- Whatever Winsock answers, `connect_to` leaves open what was open, and besides that exactly the new
  -- socket of the handler that it returns; a handler without a socket means that none was left open.
  pub connect_to-Opened :
      (host : Bytes) (port : ℤ) (out_err : ErrorInfo) (n : p.Net)
      → Opened n (connect_to w host port out_err n).0.socket (connect_to w host port out_err n).2
  unfolding connect_to
  connect_to-Opened host port out_err n = elim (Option-cases (w.inet_pton host)) [
    | inl bad ↦ rw bad (λ x. refl)
    | inr (ip, good) ↦
        rw good (opened-Opened out_err (record { ip = ip; port = to_u16 port }) (w.socket n) n refl)
  ]

  listened-Opened :
      (s : ℕ) (r : Bool × p.Net) (n n1 : p.Net)
      → w.socket n ≡ (some s, n1)
      → ((x : ℕ) → laws.is_open r.1 x ≡ laws.is_open n1 x)
      → Opened n (listened w s r).0 (listened w s r).1
  listened-Opened s (true, n2) n n1 got keeps = keep_fresh n n1 n2 s got keeps
  listened-Opened s (false, n2) n n1 got keeps = close_fresh n n1 n2 s got keeps

  bound-Opened :
      (s : ℕ) (backlog : ℤ) (r : Bool × p.Net) (n n1 : p.Net)
      → w.socket n ≡ (some s, n1)
      → ((x : ℕ) → laws.is_open r.1 x ≡ laws.is_open n1 x)
      → Opened n (bound w s backlog r).0 (bound w s backlog r).1
  bound-Opened s backlog (true, n2) n n1 got keeps =
      listened-Opened s (w.listen s backlog n2) n n1 got
        (λ x. laws.listen_keeps s backlog n2 x ∙ keeps x)
  bound-Opened s backlog (false, n2) n n1 got keeps = close_fresh n n1 n2 s got keeps

  listener_opened-Opened :
      (port backlog : ℤ) (r : Option ℕ × p.Net) (n : p.Net)
      → w.socket n ≡ r
      → Opened n (listener_opened w port backlog r).0 (listener_opened w port backlog r).1
  listener_opened-Opened port backlog (none, n1) n got = λ x. laws.opens_none n n1 x got
  listener_opened-Opened port backlog (some s, n1) n got = bound-Opened s backlog _ n n1 got (λ x.
      laws.bind_keeps s no_address.ip (to_u16 port) (w.set_reuse s n1) x ∙ laws.reuse_keeps s n1 x)

  -- Whatever Winsock answers, `create_listener` leaves open what was open, and besides that exactly the
  -- socket that it returns.
  pub create_listener-Opened :
      (port backlog : ℤ) (n : p.Net)
      → Opened n (create_listener w port backlog n).0 (create_listener w port backlog n).1
  unfolding create_listener
  create_listener-Opened port backlog n = listener_opened-Opened port backlog (w.socket n) n refl
