-- ===== src/Protocol/Kept.antt =====
-- What sending and receiving a message, and a call of the client, keep of the sockets: whatever `send` and
-- `recv` keep.
use dcn1003_group.Base.{ℕ, ◌≡◌, refl, ◌∙◌, Bool, Bytes, List, arith, both_branches}
use dcn1003_group.Error.{ErrorInfo, is_success}
use dcn1003_group.Dispatch.{MsgBody}
use dcn1003_group.Platform.{Platform}
use dcn1003_group.Crypto.{aes_encrypt, compute_hmac, iv_gen}
use dcn1003_group.Socket.{socket_send, socket_recv}
use dcn1003_group.Socket.Kept.{Transfers, socket_send_keeps, socket_recv_keeps}
use dcn1003_group.Protocol.{
  Process, MsgHeader, header_bytes, header_of, header_size, body_sent, header_sent, send_frame,
  send_data, load_key, key_loaded, send_body, package_send_fields, receive_body, package_receive,
  new_body, header_for, stamped, counted,
}

module _ (p : Platform) (seen : p.Net → Bool) (keeps : Transfers p seen) (s : ℕ) where
  body_sent_keeps :
      (answer : ErrorInfo × p.Net) (h : Process p)
      → seen (body_sent p s answer h).1.net ≡ seen answer.1
  body_sent_keeps (err, n) h = ground arith

  header_sent_keeps :
      (ciphertext : Bytes) (answer : ErrorInfo × p.Net) (h : Process p)
      → seen (header_sent p s ciphertext answer h).1.net ≡ seen answer.1
  header_sent_keeps ciphertext (err, n) h =
      both_branches (λ (r : ErrorInfo × Process p). seen r.1.net ≡ seen n) (is_success err)
        (body_sent_keeps (socket_send p s ciphertext n) h
          ∙ socket_send_keeps p seen keeps s ciphertext n)
        refl

  send_frame_keeps :
      (header : MsgHeader) (ciphertext : Bytes) (h : Process p)
      → seen (send_frame p s header ciphertext h).1.net ≡ seen h.net
  unfolding send_frame
  send_frame_keeps header ciphertext h =
      header_sent_keeps ciphertext (socket_send p s (header_bytes header) h.net) h
      ∙ socket_send_keeps p seen keeps s (header_bytes header) h.net

  send_data_keeps : (text : Bytes) (h : Process p) → seen (send_data p s text h).1.net ≡ seen h.net
  unfolding send_data
  send_data_keeps text h =
      let (mac, mac_size) = compute_hmac p h.key text in
      let (ok, iv, rng) = iv_gen p 16 h.rng in
      let ciphertext = aes_encrypt p text h.key iv in
      let sent =
        send_frame_keeps (header_for ciphertext iv mac) ciphertext (record h { rng = rng }) in
      ground (arith, sent)

  key_loaded_keeps :
      (body : MsgBody) (answer : ErrorInfo × Process p)
      → seen (key_loaded p s body answer).1.net ≡ seen answer.1.net
  key_loaded_keeps body (err, h) =
      let sent = send_data_keeps (p.serialize (stamped p body h)) (counted p h) in
      ground (arith, sent)

  load_key_keeps : (h : Process p) → seen (load_key p h).1.net ≡ seen h.net
  unfolding load_key
  load_key_keeps h = ground arith

  pub package_send_fields_keeps :
      (fields : List Bytes) (cmd : ℕ) (h : Process p)
      → seen (package_send_fields p s fields cmd h).1.net ≡ seen h.net
  unfolding package_send_fields send_body
  package_send_fields_keeps fields cmd h =
      key_loaded_keeps (new_body cmd fields) (load_key p h) ∙ load_key_keeps h

  receive_body_keeps :
      (header : MsgHeader) (h : Process p) → seen (receive_body p s header h).2.net ≡ seen h.net
  unfolding receive_body
  receive_body_keeps header h =
      let read = socket_recv_keeps p seen keeps s header.body_len h.net in ground (arith, read)

  pub package_receive_keeps : (h : Process p) → seen (package_receive p s h).2.net ≡ seen h.net
  unfolding package_receive
  package_receive_keeps h =
      let (err, buffer, n) = socket_recv p s header_size h.net in
      let read = socket_recv_keeps p seen keeps s header_size h.net in
      let rest = receive_body_keeps (header_of buffer) (record h { net = n }) in
      ground (arith, read, rest)
