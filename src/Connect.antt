-- ===== src/Connect.antt =====
-- The start and the end of a connection: the constructor, the moves and the destructor of
-- `SocketHandler` (driver/include/SocketHandler.h, driver/src/SocketHandler.cpp), `connect_to` of
-- programs/Client/src/connect_to.cpp and `create_listener` of programs/Server/src/listener.cpp.
pub mod Owned
pub mod Moves
pub mod Held
mod Tests
use dcn1003_group.Base.{
  ℕ, ◌-◌, ◌%◌, Bool, true, false, Option, none, some, List, [], ◌∷◌, ◌++◌, Bytes, codes,
}
use dcn1003_group.Base.Int.{ℤ, pos, negsuc}
use dcn1003_group.Error.{ErrorCode, ErrorInfo}
use dcn1003_group.Number.{to_string}
use dcn1003_group.Platform.{Platform}

-- What is taken from Winsock besides `send` and `recv`. `bind`, `listen` and `connect` say whether the
-- result was not SOCKET_ERROR; `none` is INVALID_SOCKET.
pub record Winsock (p : Platform) : Type 0 where
  pub inet_pton : Bytes → Option Bytes
  pub inet_ntop : Bytes → Bytes
  pub socket : p.Net → Option ℕ × p.Net
  pub set_reuse : ℕ → p.Net → p.Net
  pub connect : ℕ → Bytes → ℕ → p.Net → Bool × p.Net
  pub bind : ℕ → Bytes → ℕ → p.Net → Bool × p.Net
  pub listen : ℕ → ℤ → p.Net → Bool × p.Net
  pub close : ℕ → p.Net → p.Net
  pub last_error : p.Net → ℤ

-- `sockaddr_in`: the four bytes of the address, and the port as `ntohs` gives it.
pub record Address : Type 0 where
  pub ip : Bytes
  pub port : ℕ

-- `sockaddr_in dummy{}`; INADDR_ANY is the same address.
abbrev pub no_address : Address
no_address = record { ip = 0 ∷ 0 ∷ 0 ∷ 0 ∷ []; port = 0 }

-- `static_cast<u_short>(port)`
abbrev pub to_u16 : ℤ → ℕ
to_u16 (pos n) = n % 65536
to_u16 (negsuc n) = 65535 - n % 65536

-- The members of a `SocketHandler`; the text of the address is `ip` up to its zero byte.
pub record Handler : Type 0 where
  pub socket : Option ℕ
  pub ip : Bytes
  pub port : ℤ

-- A handler whose socket was moved away.
abbrev pub moved_from : Handler
moved_from = record { socket = none; ip = []; port = negsuc 0 }

-- The move constructor: the new handler, and what is left of the other.
unfoldable pub move_construct : Handler → Handler × Handler
move_construct other = (other, moved_from)

module _ {p : Platform} (w : Winsock p) where
  -- The constructor from a socket and its address.
  unfoldable pub construct : Option ℕ → Address → Handler
  construct s addr = record { socket = s; ip = w.inet_ntop addr.ip; port = pos addr.port }

  -- `if (socket != INVALID_SOCKET) closesocket(socket);`
  abbrev pub close_valid : Option ℕ → p.Net → p.Net
  close_valid none n = n
  close_valid (some s) n = w.close s n

  unfoldable pub destroy : Handler → p.Net → p.Net
  destroy h n = close_valid h.socket n

  -- The move assignment to another handler: this one, the other, and the sockets.
  unfoldable pub move_assign : Handler → Handler → p.Net → Handler × Handler × p.Net
  move_assign this other n = (other, moved_from, close_valid this.socket n)

  abbrev socket_error : Bytes → ErrorInfo
  socket_error message = record { e = ErrorCode.socket_err; message = message }

  abbrev invalid_handler : Handler
  invalid_handler = construct none no_address

  -- What follows `connect` of a new socket.
  abbrev connected : ErrorInfo → ℕ → Address → Bool × p.Net → Handler × ErrorInfo × p.Net
  connected out_err s addr (true, n) =
      (construct (some s) addr, record out_err { e = ErrorCode.success }, n)
  connected out_err s addr (false, n) = (
    invalid_handler,
    socket_error (codes "connect() failed: " ++ to_string (w.last_error n)),
    w.close s n,
  )

  -- What follows `socket`.
  abbrev opened : ErrorInfo → Address → Option ℕ × p.Net → Handler × ErrorInfo × p.Net
  opened out_err addr (none, n) =
      (invalid_handler, socket_error (codes "socket() failed: " ++ to_string (w.last_error n)), n)
  opened out_err addr (some s, n) = connected out_err s addr (w.connect s addr.ip addr.port n)

  -- What follows `inet_pton`.
  abbrev resolved : Bytes → ℕ → ErrorInfo → Option Bytes → p.Net → Handler × ErrorInfo × p.Net
  resolved host port out_err none n =
      (invalid_handler, socket_error (codes "Invalid host IP: " ++ host), n)
  resolved host port out_err (some ip) n =
      opened out_err (record { ip = ip; port = port }) (w.socket n)

  unfoldable pub connect_to : Bytes → ℤ → ErrorInfo → p.Net → Handler × ErrorInfo × p.Net
  unfolding construct
  connect_to host port out_err n = resolved host (to_u16 port) out_err (w.inet_pton host) n

  abbrev listened : ℕ → Bool × p.Net → Option ℕ × p.Net
  listened s (true, n) = (some s, n)
  listened s (false, n) = (none, w.close s n)

  abbrev bound : ℕ → ℤ → Bool × p.Net → Option ℕ × p.Net
  bound s backlog (true, n) = listened s (w.listen s backlog n)
  bound s backlog (false, n) = (none, w.close s n)

  abbrev listener_opened : ℤ → ℤ → Option ℕ × p.Net → Option ℕ × p.Net
  listener_opened port backlog (none, n) = (none, n)
  listener_opened port backlog (some s, n) =
      bound s backlog (w.bind s no_address.ip (to_u16 port) (w.set_reuse s n))

  unfoldable pub create_listener : ℤ → ℤ → p.Net → Option ℕ × p.Net
  create_listener port backlog n = listener_opened port backlog (w.socket n)
