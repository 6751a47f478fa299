-- ===== src/Socket.antt =====
-- driver/src/SocketHandler.cpp: the loops of `socket_send` and `socket_recv`.
pub mod Send
pub mod Receive
pub mod Kept
use dcn1003_group.Base.{
  ℕ, zero, suc, ◌+◌, ◌-◌, ◌%◌, ◌^◌, Bool, true, false, [], ◌++◌, ltb, if◌then◌else◌, Bytes, codes,
  length, drop,
}
use dcn1003_group.Base.Int.{ℤ, pos, negsuc, pos_part, leb_ℤ}
use dcn1003_group.Error.{ErrorCode, ErrorInfo, no_error}
use dcn1003_group.Platform.{Platform}

-- `static_cast<int>(n)`: the low 32 bits, in two's complement.
unfoldable pub to_int : ℕ → ℤ
to_int n = let m = n % 2 ^ 32 in if ltb m (2 ^ 31) then pos m else negsuc (2 ^ 32 - 1 - m)

abbrev pub send_failed : ErrorInfo
send_failed = record { e = ErrorCode.socket_err; message = codes "send failed" }

abbrev pub recv_failed : ErrorInfo
recv_failed = record { e = ErrorCode.socket_err; message = codes "Not enough length data receive." }

-- The loops run on fuel. This value, which no code of the program returns, says that it ran out.
abbrev pub out_of_fuel : ErrorInfo
out_of_fuel = record { e = ErrorCode.unknown_err; message = [] }

module _ (p : Platform) (s : ℕ) where
  -- What follows a call of `send`: `sent <= 0` is the failure, else the loop goes on from the new total.
  after_send : (ℕ → p.Net → ErrorInfo × p.Net) → ℕ → ℤ × p.Net → ErrorInfo × p.Net
  after_send loop total (pos zero, n') = (send_failed, n')
  after_send loop total (pos (suc k), n') = loop (total + suc k) n'
  after_send loop total (negsuc k, n') = (send_failed, n')

  -- The loop of `socket_send` with `total_sent`.
  send_loop : ℕ → Bytes → ℕ → p.Net → ErrorInfo × p.Net
  unfolding after_send
  send_loop zero d total n = (out_of_fuel, n)
  send_loop (suc fuel) d total n =
      if ltb total (length d)
      then after_send (send_loop fuel d) total
          (p.send s (drop total d) (to_int (length d - total)) n)
      else (no_error, n)

  -- Every round sends a byte at least, so one round more than there are bytes is enough.
  unfoldable pub socket_send : Bytes → p.Net → ErrorInfo × p.Net
  unfolding send_loop
  socket_send d = send_loop (suc (length d)) d 0

  -- What follows a call of `recv`, with the buffer filled so far.
  after_recv :
      (ℕ → Bytes → p.Net → ErrorInfo × Bytes × p.Net)
      → ℕ
      → Bytes
      → ℤ × Bytes × p.Net
      → ErrorInfo × Bytes × p.Net
  after_recv loop total buffer (pos zero, b, n') = (recv_failed, buffer, n')
  after_recv loop total buffer (pos (suc k), b, n') = loop (total + suc k) (buffer ++ b) n'
  after_recv loop total buffer (negsuc k, b, n') = (recv_failed, buffer, n')

  -- The loop of `socket_recv` with `total_recv`.
  recv_loop : ℕ → ℕ → ℕ → Bytes → p.Net → ErrorInfo × Bytes × p.Net
  unfolding after_recv
  recv_loop zero len total buffer n = (out_of_fuel, buffer, n)
  recv_loop (suc fuel) len total buffer n =
      if ltb total len
      then after_recv (recv_loop fuel len) total buffer (p.recv s (to_int (len - total)) n)
      else (no_error, buffer, n)

  unfoldable pub socket_recv : ℕ → p.Net → ErrorInfo × Bytes × p.Net
  unfolding recv_loop
  socket_recv len = recv_loop (suc len) len 0 []
