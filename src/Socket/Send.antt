-- ===== src/Socket/Send.antt =====
-- `socket_send` ends, and on success it has queued exactly the bytes that it was given.
use dcn1003_group.Base.{
  ℕ, zero, suc, ◌+◌, ◌-◌, ◌≤◌, ◌<◌, ◌^◌, ◌≡◌, refl, ◌⊎◌, inl, inr, ◌++◌, append-nil, append_assoc,
  arith, ltb, Bool-cases, Bytes, length, take, drop, drop_all, drop-drop, take-append-drop, sym, ap,
  ◌∙◌,
}
use dcn1003_group.Base.Int.{ℤ, pos, negsuc}
use dcn1003_group.Error.{ErrorCode, ErrorInfo}
use dcn1003_group.Platform.{Platform, Stream}
use dcn1003_group.Socket.{to_int, after_send, send_loop, socket_send}

pub to_int_small : (n : ℕ) → n < 2 ^ 31 → to_int n ≡ pos n
unfolding to_int
to_int_small n h = ground arith

-- `err.e` of a socket operation that ended: the two codes that the code returns.
abbrev pub IsEnd : ErrorInfo → Type 0
IsEnd err = (err.e ≡ ErrorCode.success) ⊎ (err.e ≡ ErrorCode.socket_err)

module _ (p : Platform) (s : ℕ) where
  after_send_ends :
      (loop : ℕ → p.Net → ErrorInfo × p.Net) (total : ℕ) (r : ℤ × p.Net)
      → ((t : ℕ) (n : p.Net) → total < t → IsEnd (loop t n).0)
      → IsEnd (after_send p s loop total r).0
  unfolding after_send
  after_send_ends loop total (pos zero, n') h = inr refl
  after_send_ends loop total (pos (suc k), n') h = h (total + suc k) n' (omega arith)
  after_send_ends loop total (negsuc k, n') h = inr refl

  send_loop_ends :
      (fuel : ℕ) (d : Bytes) (total : ℕ) (n : p.Net)
      → length d - total < fuel
      → IsEnd (send_loop p s fuel d total n).0
  unfolding send_loop
  send_loop_ends zero d total n h = elim h [ ]
  send_loop_ends (suc fuel) d total n h = elim (Bool-cases (ltb total (length d))) [
    | inr done ↦ rw done (inl refl)
    | inl more ↦ rw more (
        after_send_ends (send_loop p s fuel d) total _
          (λ t n' lt. send_loop_ends fuel d t n' (ground arith)))
  ]

  -- Whatever the operating system answers, `socket_send` ends, with success or with SOCKET_ERR.
  pub socket_send_ends : (d : Bytes) (n : p.Net) → IsEnd (socket_send p s d n).0
  unfolding socket_send
  socket_send_ends d n = send_loop_ends (suc (length d)) d 0 n (omega arith)

module _ (p : Platform) (s : ℕ) (stream : Stream p s) where
  queued_part :
      (d x y : Bytes) (total k : ℕ)
      → y ≡ x ++ take k (drop total d)
      → y ++ drop (total + k) d ≡ x ++ drop total d
  queued_part d x y total k e = rw e (
      append_assoc x (take k (drop total d)) (drop (total + k) d)
      ∙ ap (λ rest. x ++ rest) (rw (← drop-drop total k d) (take-append-drop k (drop total d))))

  after_send_queues :
      (loop : ℕ → p.Net → ErrorInfo × p.Net) (d : Bytes) (total : ℕ) (n : p.Net) (r : ℤ × p.Net)
      → length d < 2 ^ 31
      → total < length d
      → p.send s (drop total d) (to_int (length d - total)) n ≡ r
      → ((t : ℕ) (n' : p.Net)
          → t ≤ length d
          → (loop t n').0.e ≡ ErrorCode.success
          → stream.sent (loop t n').1 ≡ stream.sent n' ++ drop t d)
      → (after_send p s loop total r).0.e ≡ ErrorCode.success
      → stream.sent (after_send p s loop total r).1 ≡ stream.sent n ++ drop total d
  unfolding after_send
  after_send_queues loop d total n (pos zero, n') small more e ih h = cc
  after_send_queues loop d total n (negsuc k, n') small more e ih h = cc
  after_send_queues loop d total n (pos (suc k), n') small more e ih h =
      let (fits, grown) =
        stream.send_queues (drop total d) (length d - total) k n n'
          (rw (to_int_small (length d - total) (omega arith)) at e) in
      ih (total + suc k) n' (omega arith) h
      ∙ queued_part d (stream.sent n) (stream.sent n') total (suc k) grown

  send_loop_queues :
      (fuel : ℕ) (d : Bytes) (total : ℕ) (n : p.Net)
      → length d < 2 ^ 31
      → total ≤ length d
      → (send_loop p s fuel d total n).0.e ≡ ErrorCode.success
      → stream.sent (send_loop p s fuel d total n).1 ≡ stream.sent n ++ drop total d
  unfolding send_loop
  send_loop_queues zero d total n small bound h = cc
  send_loop_queues (suc fuel) d total n small bound h = elim (Bool-cases (ltb total (length d))) [
    | inr done ↦ rw (done, drop_all total d (ground arith)) (sym (append-nil (stream.sent n)))
    | inl more ↦ rw more (
        after_send_queues (send_loop p s fuel d) d total n _ small (ground arith) refl
          (λ t n' le ok. send_loop_queues fuel d t n' small le ok) (rw more at h))
  ]

  -- A successful `socket_send` of less than 2^31 bytes has queued exactly these bytes, in order.
  pub socket_send_queues :
      (d : Bytes) (n : p.Net)
      → length d < 2 ^ 31
      → (socket_send p s d n).0.e ≡ ErrorCode.success
      → stream.sent (socket_send p s d n).1 ≡ stream.sent n ++ d
  unfolding socket_send
  socket_send_queues d n small h = send_loop_queues (suc (length d)) d 0 n small (omega arith) h

-- What no call of `send` changes, `socket_send` does not change.
module _ (p : Platform) (s : ℕ) (view : p.Net → Bytes)
    (fixed : (d : Bytes) (len : ℤ) (n : p.Net) → view (p.send s d len n).1 ≡ view n) where
  after_send_keeps :
      (loop : ℕ → p.Net → ErrorInfo × p.Net) (total : ℕ) (r : ℤ × p.Net)
      → ((t : ℕ) (n : p.Net) → view (loop t n).1 ≡ view n)
      → view (after_send p s loop total r).1 ≡ view r.1
  unfolding after_send
  after_send_keeps loop total (pos zero, n') keeps = refl
  after_send_keeps loop total (pos (suc k), n') keeps = keeps (total + suc k) n'
  after_send_keeps loop total (negsuc k, n') keeps = refl

  send_loop_keeps :
      (fuel : ℕ) (d : Bytes) (total : ℕ) (n : p.Net)
      → view (send_loop p s fuel d total n).1 ≡ view n
  unfolding send_loop
  send_loop_keeps zero d total n = refl
  send_loop_keeps (suc fuel) d total n = elim (Bool-cases (ltb total (length d))) [
    | inr done ↦ rw done refl
    | inl more ↦ rw more (
        after_send_keeps (send_loop p s fuel d) total _ (λ t n'. send_loop_keeps fuel d t n')
        ∙ fixed (drop total d) (to_int (length d - total)) n)
  ]

  pub socket_send_keeps : (d : Bytes) (n : p.Net) → view (socket_send p s d n).1 ≡ view n
  unfolding socket_send
  socket_send_keeps d n = send_loop_keeps (suc (length d)) d 0 n
