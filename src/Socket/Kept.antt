-- ===== src/Socket/Kept.antt =====
-- What the loops of `socket_send` and `socket_recv` keep: whatever `send` and `recv` keep.
use dcn1003_group.Base.{
  ℕ, zero, suc, ◌+◌, ◌-◌, ◌≡◌, refl, ◌∙◌, Bool, [], ◌++◌, ltb, Bytes, length, drop, both_branches,
}
use dcn1003_group.Base.Int.{ℤ, pos, negsuc}
use dcn1003_group.Error.{ErrorInfo}
use dcn1003_group.Platform.{Platform}
use dcn1003_group.Socket.{
  to_int, after_send, send_loop, socket_send, after_recv, recv_loop, socket_recv,
}

-- An observation of the sockets that no call of `send` or `recv` changes.
pub record Transfers (p : Platform) (seen : p.Net → Bool) : Type 0 where
  pub sends : (s : ℕ) (d : Bytes) (len : ℤ) (n : p.Net) → seen (p.send s d len n).1 ≡ seen n
  pub recvs : (s : ℕ) (len : ℤ) (n : p.Net) → seen (p.recv s len n).2 ≡ seen n

module _ (p : Platform) (seen : p.Net → Bool) (keeps : Transfers p seen) (s : ℕ) where
  after_send_keeps :
      (loop : ℕ → p.Net → ErrorInfo × p.Net) (total : ℕ) (answer : ℤ × p.Net)
      → ((total' : ℕ) (n : p.Net) → seen (loop total' n).1 ≡ seen n)
      → seen (after_send p s loop total answer).1 ≡ seen answer.1
  unfolding after_send
  after_send_keeps loop total (pos zero, n) h = refl
  after_send_keeps loop total (pos (suc k), n) h = h (total + suc k) n
  after_send_keeps loop total (negsuc k, n) h = refl

  send_loop_keeps :
      (fuel : ℕ) (d : Bytes) (total : ℕ) (n : p.Net)
      → seen (send_loop p s fuel d total n).1 ≡ seen n
  unfolding send_loop
  send_loop_keeps zero d total n = refl
  send_loop_keeps (suc fuel) d total n =
      both_branches (λ (r : ErrorInfo × p.Net). seen r.1 ≡ seen n) (ltb total (length d))
        (after_send_keeps (send_loop p s fuel d) total
            (p.send s (drop total d) (to_int (length d - total)) n)
            (λ total' n'. send_loop_keeps fuel d total' n')
          ∙ keeps.sends s (drop total d) (to_int (length d - total)) n)
        refl

  pub socket_send_keeps : (d : Bytes) (n : p.Net) → seen (socket_send p s d n).1 ≡ seen n
  unfolding socket_send
  socket_send_keeps d n = send_loop_keeps (suc (length d)) d 0 n

  after_recv_keeps :
      (loop : ℕ → Bytes → p.Net → ErrorInfo × Bytes × p.Net) (total : ℕ) (buffer : Bytes)
      (answer : ℤ × Bytes × p.Net)
      → ((total' : ℕ) (buffer' : Bytes) (n : p.Net) → seen (loop total' buffer' n).2 ≡ seen n)
      → seen (after_recv p s loop total buffer answer).2 ≡ seen answer.2
  unfolding after_recv
  after_recv_keeps loop total buffer (pos zero, b, n) h = refl
  after_recv_keeps loop total buffer (pos (suc k), b, n) h = h (total + suc k) (buffer ++ b) n
  after_recv_keeps loop total buffer (negsuc k, b, n) h = refl

  recv_loop_keeps :
      (fuel len total : ℕ) (buffer : Bytes) (n : p.Net)
      → seen (recv_loop p s fuel len total buffer n).2 ≡ seen n
  unfolding recv_loop
  recv_loop_keeps zero len total buffer n = refl
  recv_loop_keeps (suc fuel) len total buffer n =
      both_branches (λ (r : ErrorInfo × Bytes × p.Net). seen r.2 ≡ seen n) (ltb total len)
        (after_recv_keeps (recv_loop p s fuel len) total buffer (p.recv s (to_int (len - total)) n)
            (λ total' buffer' n'. recv_loop_keeps fuel len total' buffer' n')
          ∙ keeps.recvs s (to_int (len - total)) n)
        refl

  pub socket_recv_keeps : (len : ℕ) (n : p.Net) → seen (socket_recv p s len n).2 ≡ seen n
  unfolding socket_recv
  socket_recv_keeps len n = recv_loop_keeps (suc len) len 0 [] n
