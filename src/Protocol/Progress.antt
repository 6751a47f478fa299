-- ===== src/Protocol/Progress.antt =====
-- What sending and receiving a message do to the bytes that are still to come.
use dcn1003_group.Base.{
  ℕ, ◌+◌, ◌≤◌, ◌<◌, ◌^◌, ◌≡◌, refl, ap, ◌∙◌, true, inl, inr, not, ◌==◌, is_empty, arith, Bool-cases,
  Bytes, length, length-append,
}
use dcn1003_group.Base.Int.{ℤ}
use dcn1003_group.Error.{ErrorCode, ErrorInfo, is_success}
use dcn1003_group.Platform.{Platform, Stream}
use dcn1003_group.Socket.{socket_send, socket_recv}
use dcn1003_group.Socket.Send.{socket_send_keeps}
use dcn1003_group.Socket.Receive.{socket_recv_takes}
use dcn1003_group.Crypto.{key_size, aes_encrypt, compute_hmac, iv_gen}
use dcn1003_group.Protocol.{
  header_bytes, MsgHeader, Process, header_size, header_of, max_body, load_key, body_sent,
  header_sent, send_frame, send_data, send_body, package_send, receive_body, package_receive,
}

module _ (p : Platform) (s : ℕ) (view : p.Net → Bytes)
    (fixed : (d : Bytes) (len : ℤ) (n : p.Net) → view (p.send s d len n).1 ≡ view n) where
  header_sent_keeps :
      (ciphertext : Bytes) (r : ErrorInfo × p.Net) (h : Process p)
      → view (header_sent p s ciphertext r h).1.net ≡ view r.1
  header_sent_keeps ciphertext r h = elim (Bool-cases (is_success r.0)) [
    | inl ok ↦ rw ok (
        body_sent_keeps (socket_send p s ciphertext r.1)
        ∙ socket_send_keeps p s view fixed ciphertext r.1)
    | inr failed ↦ rw failed refl
  ]
    where
      body_sent_keeps : (q : ErrorInfo × p.Net) → view (body_sent p s q h).1.net ≡ view q.1
      body_sent_keeps q = ground arith

  send_data_keeps : (text : Bytes) (h : Process p) → view (send_data p s text h).1.net ≡ view h.net
  unfolding send_data send_frame
  send_data_keeps text h = elim (Bool-cases (not ((compute_hmac p h.key text).1 == key_size))) [
    | inl stopped ↦ rw stopped refl
    | inr computed ↦ rw computed (elim (Bool-cases (not (iv_gen p 16 h.rng).0)) [
      | inl stopped ↦ rw stopped refl
      | inr drawn ↦
          rw drawn (elim (Bool-cases (is_empty (aes_encrypt p text h.key (iv_gen p 16 h.rng).1))) [
            | inl stopped ↦ rw stopped refl
            | inr ready ↦ rw ready (framed _ _ _)
          ])
    ])
  ]
    where
      framed :
          (header : MsgHeader) (ciphertext : Bytes) (q : Process p)
          → view (send_frame p s header ciphertext q).1.net ≡ view q.net
      framed header ciphertext q =
          header_sent_keeps ciphertext (socket_send p s (header_bytes header) q.net) q
          ∙ socket_send_keeps p s view fixed (header_bytes header) q.net

  -- Sending a message changes nothing that no call of `send` changes.
  pub package_send_keeps :
      (msg : Bytes) (cmd : ℕ) (h : Process p) → view (package_send p s msg cmd h).1.net ≡ view h.net
  unfolding package_send send_body load_key
  package_send_keeps msg cmd h = elim (Bool-cases (is_success (load_key p h).0)) [
    | inl ok ↦ rw ok (send_data_keeps _ _ ∙ ap view (load_key_net h))
    | inr failed ↦ rw failed (ap view (load_key_net h))
  ]
    where
      load_key_net : (q : Process p) → (load_key p q).1.net ≡ q.net
      load_key_net q = ground arith

module _ (p : Platform) (s : ℕ) (stream : Stream p s) where
  success_of : (err : ErrorInfo) → is_success err ≡ true → err.e ≡ ErrorCode.success
  success_of err e = ground arith

  -- A successful `socket_recv` leaves less to come, by what it took.
  recv_shortens :
      (len : ℕ) (n : p.Net)
      → len < 2 ^ 31
      → is_success (socket_recv p s len n).0 ≡ true
      → length (stream.coming (socket_recv p s len n).2) + len ≡ length (stream.coming n)
  recv_shortens len n small ok =
      let (whole, size) =
        socket_recv_takes p s stream len n small (success_of (socket_recv p s len n).0 ok) in
      omega (
        arith,
        ap length whole,
        length-append (socket_recv p s len n).1 (stream.coming (socket_recv p s len n).2),
      )

  receive_body_read :
      (header : MsgHeader) (q : Process p)
      → is_success (receive_body p s header q).0 ≡ true
      → (1 ≤ header.body_len)
        × (header.body_len ≤ max_body)
        × (is_success (socket_recv p s header.body_len q.net).0 ≡ true)
        × ((receive_body p s header q).2.net ≡ (socket_recv p s header.body_len q.net).2)
  unfolding receive_body
  receive_body_read header q ok = ground arith

  receive_body_takes :
      (header : MsgHeader) (q : Process p)
      → is_success (receive_body p s header q).0 ≡ true
      → length (stream.coming (receive_body p s header q).2.net) < length (stream.coming q.net)
  receive_body_takes header q ok =
      let (low, high, read, left) = receive_body_read header q ok in
      rw left (omega (arith, recv_shortens header.body_len q.net (omega arith) read))

  -- A received message has taken more than a header from the stream.
  pub package_receive_takes :
      (h : Process p)
      → is_success (package_receive p s h).0 ≡ true
      → length (stream.coming (package_receive p s h).2.net) + header_size
        < length (stream.coming h.net)
  unfolding package_receive
  package_receive_takes h ok =
      elim (Bool-cases (is_success (socket_recv p s header_size h.net).0)) [
        | inr failed ↦ cc
        | inl read ↦
            (let (err, buffer, n) = socket_recv p s header_size h.net in
              rw read (
                omega (
                  arith,
                  recv_shortens header_size h.net (omega arith) read,
                  receive_body_takes (header_of buffer) (record h { net = n }) (rw read at ok),
                )))
      ]
