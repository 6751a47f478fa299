-- ===== src/Protocol/RoundTrip.antt =====
-- A message that `Package_send` sent is the one that `Package_receive` at the other end returns.
use dcn1003_group.Base.{
  ℕ, ◌≤◌, ◌<◌, ◌^◌, ◌≡◌, ◌≢◌, refl, sym, ap, ◌∙◌, false, some, [], ◌∷◌, ◌++◌, append_assoc, arith,
  Bytes, is_empty, length, append_split, Option,
}
use dcn1003_group.Error.{ErrorCode, ErrorInfo, no_error}
use dcn1003_group.Dispatch.{Payload, MsgBody}
use dcn1003_group.Platform.{Platform, Stream, IsOpen, Serializes, Ciphers, FitsWire}
use dcn1003_group.Protocol.{
  Process, max_body, header_bytes, load_key, key_loaded, stamped, counted, new_body, send_data,
  send_body, package_send_fields, package_receive, open_frame, parsed,
}
use dcn1003_group.Protocol.Header.{length-header_bytes}
use dcn1003_group.Protocol.Seal.{
  ciphertext_of, header_of_text, send_data-Sealed, header_of_text-FitsHeader, open_frame-Sealed,
  send_frame_queues,
}
use dcn1003_group.Protocol.Receive.{package_receive_front}

not_empty_length : (b : Bytes) → is_empty b ≡ false → 1 ≤ length b
unfolding is_empty
not_empty_length [] h = cc
not_empty_length (x ∷ b) h = omega arith

ne_nil_not_empty : (b : Bytes) → b ≢ [] → is_empty b ≡ false
unfolding is_empty
ne_nil_not_empty [] h = absurd (h refl)
ne_nil_not_empty (x ∷ b) h = refl

-- Two ends of a connection over one library: the sender's socket and the receiver's.
module _ (p : Platform) (serializes : Serializes p) (ciphers : Ciphers p) (s r : ℕ)
    (out : Stream p s) (incoming : Stream p r) (link : IsOpen p r incoming) where
  -- What a successful `send_data` of a serialized message has queued is received as that message.
  delivered :
      (msg : MsgBody) (h h' : Process p) (frame rest : Bytes)
      → FitsWire msg
      → length (ciphertext_of p (p.serialize msg) h) ≤ max_body
      → (send_data p s (p.serialize msg) h).0.e ≡ ErrorCode.success
      → out.sent (send_data p s (p.serialize msg) h).1.net ≡ out.sent h.net ++ frame
      → incoming.coming h'.net ≡ frame ++ rest
      → h'.key ≡ h.key
      → ((package_receive p r h').0 ≡ no_error)
        × ((package_receive p r h').1 ≡ some msg)
        × (incoming.coming (package_receive p r h').2.net ≡ rest)
  delivered msg h h' frame rest fits small ok queued front same_key =
      let text = p.serialize msg in
      let ct = ciphertext_of p text h in
      let header = header_of_text p text h in
      let sealed = send_data-Sealed p s text h ok in
      let sized = header_of_text-FitsHeader p s ciphers text h sealed in
      let filled = ne_nil_not_empty text (serializes.not_empty msg) in
      let len_eq : header.body_len ≡ length ct = omega arith in
      let queued' =
        send_frame_queues p s out header ct (record h { rng = (p.rand_bytes 16 h.rng).2 })
          (rw (length-header_bytes header sized) (omega arith)) (omega arith)
          (rw sealed.framed at ok) in
      let frame_eq : frame ≡ header_bytes header ++ ct =
        (append_split (out.sent h.net) frame (out.sent h.net) (header_bytes header ++ ct) refl
          (sym queued ∙ (rw (← sealed.framed) at queued'))).1 in
      let (got, body, left) =
        package_receive_front p r incoming link header ct rest h' sized refl (sym len_eq)
          (rw len_eq (not_empty_length ct sealed.encrypted)) (rw len_eq small)
          (front
            ∙ ap (λ (b : Bytes). b ++ rest) frame_eq
            ∙ append_assoc (header_bytes header) ct rest) in
      let opened : open_frame p h'.key header ct ≡ (no_error, some msg) = rw same_key (
        open_frame-Sealed p s ciphers text h sealed filled
        ∙ ap (parsed) (serializes.parses msg fits)) in
      (
        got ∙ ap (λ (x : ErrorInfo × Option MsgBody). x.0) opened,
        body ∙ ap (λ (x : ErrorInfo × Option MsgBody). x.1) opened,
        left,
      )

  load_key-net : (h : Process p) → (load_key p h).1.net ≡ h.net
  unfolding load_key
  load_key-net h = ground arith

  -- The state in which `send_body` seals its message: the key is loaded, the counter has moved on.
  abbrev ready : Process p → Process p
  ready h = counted p (load_key p h).1

  -- The length of the encrypted body of a message that is sent in this state.
  abbrev pub wire_size : Payload → ℕ → Process p → ℕ
  wire_size fields cmd h =
      length
        (ciphertext_of p (p.serialize (stamped p (new_body cmd fields) (load_key p h).1)) (ready h))

  load_key-req_id : (h : Process p) → (load_key p h).1.req_id ≡ h.req_id
  unfolding load_key
  load_key-req_id h = ground arith

  key_loaded_success :
      (body : MsgBody) (r : ErrorInfo × Process p)
      → (key_loaded p s body r).0.e ≡ ErrorCode.success
      → key_loaded p s body r ≡ send_data p s (p.serialize (stamped p body r.1)) (counted p r.1)
  key_loaded_success body r ok = ground arith

  -- The fields of a successful `Package_send`, with the command, the request counter and the time of
  -- the sender, are what `Package_receive` at the other end returns, and exactly the bytes that the
  -- send queued are taken from the stream. The ends share the key, the message's numbers fit 32 bits,
  -- and the ciphertext is at most 16 MiB.
  pub package_receive-package_send :
      (fields : Payload) (cmd : ℕ) (h h' : Process p) (frame rest : Bytes)
      → cmd < 2 ^ 32
      → h.req_id < 2 ^ 32
      → wire_size fields cmd h ≤ max_body
      → (package_send_fields p s fields cmd h).0.e ≡ ErrorCode.success
      → out.sent (package_send_fields p s fields cmd h).1.net ≡ out.sent h.net ++ frame
      → incoming.coming h'.net ≡ frame ++ rest
      → h'.key ≡ (load_key p h).1.key
      → ((package_receive p r h').0 ≡ no_error)
        × ((package_receive p r h').1 ≡ some (stamped p (new_body cmd fields) (load_key p h).1))
        × (incoming.coming (package_receive p r h').2.net ≡ rest)
  unfolding package_send_fields send_body
  package_receive-package_send fields cmd h h' frame rest c q small ok queued front same_key =
      let body = new_body cmd fields in
      let same = key_loaded_success body (load_key p h) ok in
      delivered (stamped p body (load_key p h).1) (ready h) h' frame rest
        (c, rw (load_key-req_id h) q, omega arith) small
        (ap (λ (x : ErrorInfo × Process p). x.0.e) (sym same) ∙ ok)
        (ap (λ (x : ErrorInfo × Process p). out.sent x.1.net) (sym same)
          ∙ queued
          ∙ ap (λ n. out.sent n ++ frame) (sym (load_key-net h)))
        front same_key
