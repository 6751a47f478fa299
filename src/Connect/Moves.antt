-- ===== src/Connect/Moves.antt =====
-- What becomes of a socket when its handler is moved and destroyed, and when a connection succeeded.
use dcn1003_group.Base.{
  ℕ, ◌≡◌, refl, Bool, true, false, Option, none, some, inl, inr, arith, Bytes, Option-cases,
}
use dcn1003_group.Base.Int.{ℤ}
use dcn1003_group.Error.{ErrorInfo, is_success}
use dcn1003_group.Platform.{Platform}
use dcn1003_group.Connect.{
  Winsock, Handler, Address, to_u16, move_construct, construct, destroy, move_assign, connected,
  opened, connect_to,
}

module _ {p : Platform} (w : Winsock p) where
  -- Once all handlers are destroyed, a move made no difference: after the move constructor, the two
  -- handlers together close what the one would have closed, and after the move assignment the two close
  -- what they would have closed without it, each socket once.
  pub move-destroy :
      (this other : Handler) (n : p.Net)
      → (destroy w (move_construct other).1 (destroy w (move_construct other).0 n)
          ≡ destroy w other n)
        × (destroy w
              (move_assign w this other n).1
              (destroy w (move_assign w this other n).0 (move_assign w this other n).2)
            ≡ destroy w other (destroy w this n))
  unfolding move_construct move_assign destroy
  move-destroy this other n = (refl, refl)

  connected_success :
      (out_err : ErrorInfo) (s : ℕ) (addr : Address) (r : Bool × p.Net)
      → is_success (connected w out_err s addr r).1 ≡ true
      → (connected w out_err s addr r).0.socket ≡ some s
  unfolding construct
  connected_success out_err s addr (true, n) ok = refl
  connected_success out_err s addr (false, n) ok = cc

  opened_success :
      (out_err : ErrorInfo) (addr : Address) (r : Option ℕ × p.Net)
      → is_success (opened w out_err addr r).1 ≡ true
      → (s : ℕ) × ((opened w out_err addr r).0.socket ≡ some s)
  opened_success out_err addr (none, n) ok = cc
  opened_success out_err addr (some s, n) ok =
      (s, connected_success out_err s addr (w.connect s addr.ip addr.port n) ok)

  -- A connection without error has a socket.
  pub connect_to_success :
      (host : Bytes) (port : ℤ) (out_err : ErrorInfo) (n : p.Net)
      → is_success (connect_to w host port out_err n).1 ≡ true
      → (s : ℕ) × ((connect_to w host port out_err n).0.socket ≡ some s)
  unfolding connect_to
  connect_to_success host port out_err n ok = elim (Option-cases (w.inet_pton host)) [
    | inl bad ↦ absurd (ground arith)
    | inr (ip, good) ↦ rw good (
        opened_success out_err (record { ip = ip; port = to_u16 port }) (w.socket n)
          (rw good at ok))
  ]

  connected_failure :
      (out_err : ErrorInfo) (s : ℕ) (addr : Address) (r : Bool × p.Net)
      → is_success (connected w out_err s addr r).1 ≡ false
      → (connected w out_err s addr r).0.socket ≡ none
  unfolding construct
  connected_failure out_err s addr (true, n) failed = cc
  connected_failure out_err s addr (false, n) failed = refl

  opened_failure :
      (out_err : ErrorInfo) (addr : Address) (r : Option ℕ × p.Net)
      → is_success (opened w out_err addr r).1 ≡ false
      → (opened w out_err addr r).0.socket ≡ none
  unfolding construct
  opened_failure out_err addr (none, n) failed = refl
  opened_failure out_err addr (some s, n) failed =
      connected_failure out_err s addr (w.connect s addr.ip addr.port n) failed

  -- A connection with an error has none.
  pub connect_to_failure :
      (host : Bytes) (port : ℤ) (out_err : ErrorInfo) (n : p.Net)
      → is_success (connect_to w host port out_err n).1 ≡ false
      → (connect_to w host port out_err n).0.socket ≡ none
  unfolding connect_to construct
  connect_to_failure host port out_err n failed = elim (Option-cases (w.inet_pton host)) [
    | inl bad ↦ rw bad refl
    | inr (ip, good) ↦ rw good (
        opened_failure out_err (record { ip = ip; port = to_u16 port }) (w.socket n)
          (rw good at failed))
  ]
