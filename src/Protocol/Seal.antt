-- ===== src/Protocol/Seal.antt =====
-- What `send_data` puts on the connection, and that `open_frame` opens it again.
use dcn1003_group.Base.{
  ℕ, ◌<◌, ◌^◌, ◌≡◌, sym, ap, ◌∙◌, true, false, ◌++◌, append_assoc, arith, ==_iff, Bytes,
  bytes_eq_self, is_empty, length,
}
use dcn1003_group.Error.{ErrorCode, ErrorInfo}
use dcn1003_group.Platform.{Platform, Stream, Ciphers}
use dcn1003_group.Socket.{socket_send}
use dcn1003_group.Socket.Send.{socket_send_queues}
use dcn1003_group.Crypto.{key_size, aes_encrypt, aes_decrypt, iv_gen, compute_hmac}
use dcn1003_group.Protocol.Header.{FitsHeader}
use dcn1003_group.Protocol.{
  MsgHeader, Process, header_bytes, header_for, send_frame, send_data, open_frame, parsed,
  body_sent, header_sent,
}

module _ (p : Platform) where
  abbrev Parts : Bytes → Bytes → Bytes → Type 0
  Parts text key iv =
      (front : Bytes) × (tail : Bytes) × (c1 : p.Cipher) × (c2 : p.Cipher) × (c3 : p.Cipher)
      × (p.encrypt_init key iv p.cipher_new ≡ (true, c1))
      × (p.encrypt_update text c1 ≡ (true, front, c2))
      × (p.encrypt_final c2 ≡ (true, tail, c3))
      × (aes_encrypt p text key iv ≡ front ++ tail)

  -- A ciphertext that is not empty comes from three calls that succeeded.
  encrypted-Parts :
      (text key iv : Bytes) → is_empty (aes_encrypt p text key iv) ≡ false → Parts text key iv
  unfolding aes_encrypt is_empty
  encrypted-Parts text key iv h =
      let (ok1, c1) = p.encrypt_init key iv p.cipher_new in
      let (ok2, front, c2) = p.encrypt_update text c1 in
      let (ok3, tail, c3) = p.encrypt_final c2 in
      (front, tail, c1, c2, c3, ground arith, ground arith, ground arith, ground arith)

module _ (p : Platform) (laws : Ciphers p) where
  -- Decryption undoes every encryption that did not fail.
  pub aes_decrypt-aes_encrypt :
      (text key iv : Bytes)
      → is_empty (aes_encrypt p text key iv) ≡ false
      → aes_decrypt p (aes_encrypt p text key iv) key iv ≡ text
  unfolding aes_decrypt
  aes_decrypt-aes_encrypt text key iv h =
      let (front, tail, c1, c2, c3, e1, e2, e3, whole) = encrypted-Parts p text key iv h in
      let (d1, d2, d3, front', tail', f1, f2, f3, plain) =
        laws.decrypts key iv text front tail c1 c2 c3 e1 e2 e3 in
      rw (whole, f1, f2, f3) plain

module _ (p : Platform) where
  -- The choices of `send_data`.
  abbrev pub iv_of : Process p → Bytes
  iv_of h = (p.rand_bytes 16 h.rng).1

  abbrev pub ciphertext_of : Bytes → Process p → Bytes
  ciphertext_of text h = aes_encrypt p text h.key (iv_of h)

  abbrev pub header_of_text : Bytes → Process p → MsgHeader
  header_of_text text h = header_for (ciphertext_of text h) (iv_of h) (p.mac h.key text)

module _ (p : Platform) (s : ℕ) where
  -- What a successful `send_data` has established.
  pub record Sealed (text : Bytes) (h : Process p) : Type 0 where
    pub mac_size : length (p.mac h.key text) ≡ key_size
    pub random : (p.rand_bytes 16 h.rng).0 ≡ true
    pub encrypted : is_empty (ciphertext_of p text h) ≡ false
    pub framed :
        send_data p s text h
        ≡ send_frame p s
            (header_of_text p text h)
            (ciphertext_of p text h)
            (record h { rng = (p.rand_bytes 16 h.rng).2 })

  pub send_data-Sealed :
      (text : Bytes) (h : Process p)
      → (send_data p s text h).0.e ≡ ErrorCode.success
      → Sealed text h
  unfolding send_data compute_hmac iv_gen
  send_data-Sealed text h ok = ground arith

module _ (p : Platform) (s : ℕ) (laws : Ciphers p) where
  pub header_of_text-FitsHeader :
      (text : Bytes) (h : Process p) → Sealed p s text h → FitsHeader (header_of_text p text h)
  header_of_text-FitsHeader text h sealed = record {
    version = omega arith;
    body_len = omega arith;
    iv =
        laws.rand_fills 16 (iv_of p h) h.rng (p.rand_bytes 16 h.rng).2
          (ap (λ ok. (ok, (p.rand_bytes 16 h.rng).1, (p.rand_bytes 16 h.rng).2)) sealed.random);
    mac = sealed.mac_size;
  }

  -- A frame that `send_data` has put together is opened, under the same key, to the same text.
  pub open_frame-Sealed :
      (text : Bytes) (h : Process p)
      → Sealed p s text h
      → is_empty text ≡ false
      → open_frame p h.key (header_of_text p text h) (ciphertext_of p text h)
        ≡ parsed (p.parse text)
  unfolding open_frame compute_hmac
  open_frame-Sealed text h sealed filled = rw (
    aes_decrypt-aes_encrypt p laws text h.key (iv_of p h) sealed.encrypted,
    filled,
    (==_iff _ key_size).1 sealed.mac_size,
    bytes_eq_self,
  )

module _ (p : Platform) (s : ℕ) (stream : Stream p s) where
  body_sent_success :
      (r : ErrorInfo × p.Net) (h : Process p)
      → (body_sent p s r h).0.e ≡ ErrorCode.success
      → (r.0.e ≡ ErrorCode.success) × ((body_sent p s r h).1.net ≡ r.1)
  body_sent_success r h ok = ground arith

  header_sent_success :
      (ciphertext : Bytes) (r : ErrorInfo × p.Net) (h : Process p)
      → (header_sent p s ciphertext r h).0.e ≡ ErrorCode.success
      → (r.0.e ≡ ErrorCode.success)
        × (header_sent p s ciphertext r h ≡ body_sent p s (socket_send p s ciphertext r.1) h)
  header_sent_success ciphertext r h ok = ground arith

  -- Both sends of a frame succeeded, so the stream has its header and then its body.
  pub send_frame_queues :
      (header : MsgHeader) (ciphertext : Bytes) (h : Process p)
      → length (header_bytes header) < 2 ^ 31
      → length ciphertext < 2 ^ 31
      → (send_frame p s header ciphertext h).0.e ≡ ErrorCode.success
      → stream.sent (send_frame p s header ciphertext h).1.net
        ≡ stream.sent h.net ++ (header_bytes header ++ ciphertext)
  unfolding send_frame
  send_frame_queues header ciphertext h small small' ok =
      let r1 = socket_send p s (header_bytes header) h.net in
      let r2 = socket_send p s ciphertext r1.1 in
      let (ok1, same) = header_sent_success ciphertext r1 h ok in
      let (ok2, last) =
        body_sent_success r2 h (ap (λ (r : ErrorInfo × Process p). r.0.e) (sym same) ∙ ok) in
      ap (λ (r : ErrorInfo × Process p). stream.sent r.1.net) same
      ∙ ap stream.sent last
      ∙ socket_send_queues p s stream ciphertext r1.1 small' ok2
      ∙ ap (λ front. front ++ ciphertext)
          (socket_send_queues p s stream (header_bytes header) h.net small ok1)
      ∙ append_assoc (stream.sent h.net) (header_bytes header) ciphertext
