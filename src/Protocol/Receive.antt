-- ===== src/Protocol/Receive.antt =====
-- What `Package_receive` accepts.
use dcn1003_group.Base.{
  ℕ, ◌≤◌, ◌≡◌, refl, true, false, some, ◌++◌, arith, bytes_eq_iff, Bytes, is_empty, length,
}
use dcn1003_group.Error.{ErrorCode, ErrorInfo, is_success}
use dcn1003_group.Dispatch.{MsgBody}
use dcn1003_group.Platform.{Platform, Stream, IsOpen}
use dcn1003_group.Socket.{socket_recv}
use dcn1003_group.Socket.Receive.{socket_recv_front}
use dcn1003_group.Crypto.{key_size, aes_decrypt, compute_hmac}
use dcn1003_group.Protocol.Header.{FitsHeader, header_of-header_bytes, length-header_bytes}
use dcn1003_group.Protocol.{
  MsgHeader, Process, header_size, max_body, app_version, header_bytes, header_of, open_frame,
  receive_body, package_receive,
}

module _ (p : Platform) where
  -- The message came out of the frame: its MAC under the key is the header's, and it parses.
  pub record Authentic (key : Bytes) (header : MsgHeader) (buffer : Bytes) (msg : MsgBody)
      : Type 0 where
    pub filled : is_empty (aes_decrypt p buffer key header.iv) ≡ false
    pub mac_size : length (p.mac key (aes_decrypt p buffer key header.iv)) ≡ key_size
    pub mac : p.mac key (aes_decrypt p buffer key header.iv) ≡ header.mac
    pub parsed : p.parse (aes_decrypt p buffer key header.iv) ≡ some msg

  -- `open_frame` yields a message only from a frame whose MAC is right.
  pub open_frame-Authentic :
      (key : Bytes) (header : MsgHeader) (buffer : Bytes) (msg : MsgBody)
      → (open_frame p key header buffer).1 ≡ some msg
      → Authentic key header buffer msg
  unfolding open_frame compute_hmac
  open_frame-Authentic key header buffer msg h =
      ground (arith, bytes_eq_iff (p.mac key (aes_decrypt p buffer key header.iv)) header.mac)

module _ (p : Platform) (s : ℕ) where
  -- What stands behind a message that `Package_receive` hands over.
  pub record Accepted (h : Process p) (msg : MsgBody) : Type 0 where
    pub header : MsgHeader
    pub buffer : Bytes
    pub read : header ≡ header_of (socket_recv p s header_size h.net).1
    pub version : header.version ≡ app_version
    pub not_empty : 1 ≤ header.body_len
    pub bounded : header.body_len ≤ max_body
    pub body : buffer ≡ (socket_recv p s header.body_len (socket_recv p s header_size h.net).2).1
    pub authentic : Authentic p h.key header buffer msg

  header_received :
      (h : Process p) (msg : MsgBody)
      → (package_receive p s h).1 ≡ some msg
      → (receive_body p s
          (header_of (socket_recv p s header_size h.net).1)
          (record h { net = (socket_recv p s header_size h.net).2 })).1
        ≡ some msg
  unfolding package_receive
  header_received h msg got = ground arith

  body_received :
      (header : MsgHeader) (h : Process p) (msg : MsgBody)
      → (receive_body p s header h).1 ≡ some msg
      → (header.version ≡ app_version)
        × (1 ≤ header.body_len)
        × (header.body_len ≤ max_body)
        × ((open_frame p h.key header (socket_recv p s header.body_len h.net).1).1 ≡ some msg)
  unfolding receive_body
  body_received header h msg got = ground arith

  -- A message is handed over only if the header has the program's version and a body length between 1
  -- and 16 MiB, and the decrypted body has the header's MAC under the process's key and parses to the
  -- message.
  pub package_receive-Accepted :
      (h : Process p) (msg : MsgBody) → (package_receive p s h).1 ≡ some msg → Accepted h msg
  package_receive-Accepted h msg got =
      let n = (socket_recv p s header_size h.net).2 in
      let header = header_of (socket_recv p s header_size h.net).1 in
      let (same_version, low, high, opened) =
        body_received header (record h { net = n }) msg (header_received h msg got) in
      record {
        header = header;
        buffer = (socket_recv p s header.body_len n).1;
        read = refl;
        version = same_version;
        not_empty = low;
        bounded = high;
        body = refl;
        authentic =
            open_frame-Authentic p h.key header (socket_recv p s header.body_len n).1 msg opened;
      }

module _ (p : Platform) (s : ℕ) (stream : Stream p s) (link : IsOpen p s stream) where
  receive_body_front :
      (header : MsgHeader) (buffer rest : Bytes) (h : Process p)
      → header.version ≡ app_version
      → length buffer ≡ header.body_len
      → 1 ≤ header.body_len
      → header.body_len ≤ max_body
      → stream.coming h.net ≡ buffer ++ rest
      → ((receive_body p s header h).0 ≡ (open_frame p h.key header buffer).0)
        × ((receive_body p s header h).1 ≡ (open_frame p h.key header buffer).1)
        × (stream.coming (receive_body p s header h).2.net ≡ rest)
  unfolding receive_body
  receive_body_front header buffer rest h v size low high e =
      let (ok, got, left) =
        socket_recv_front p s stream link header.body_len h.net buffer rest (omega arith) size e in
      ground arith

  -- A frame at the front of the stream, whose header has its sizes and is within the limits, is
  -- opened, and exactly the frame is taken from the stream.
  pub package_receive_front :
      (header : MsgHeader) (buffer rest : Bytes) (h : Process p)
      → FitsHeader header
      → header.version ≡ app_version
      → length buffer ≡ header.body_len
      → 1 ≤ header.body_len
      → header.body_len ≤ max_body
      → stream.coming h.net ≡ header_bytes header ++ (buffer ++ rest)
      → ((package_receive p s h).0 ≡ (open_frame p h.key header buffer).0)
        × ((package_receive p s h).1 ≡ (open_frame p h.key header buffer).1)
        × (stream.coming (package_receive p s h).2.net ≡ rest)
  unfolding package_receive
  package_receive_front header buffer rest h fits v size low high e =
      let (ok, got, left) =
        socket_recv_front p s stream link header_size h.net (header_bytes header) (buffer ++ rest)
          (omega arith) (length-header_bytes header fits) e in
      let h' = record h { net = (socket_recv p s header_size h.net).2 } in
      rw
        (
          success_of (socket_recv p s header_size h.net).0 ok,
          got,
          header_of-header_bytes header fits,
        )
        (receive_body_front header buffer rest h' v size low high left)
    where
      success_of : (err : ErrorInfo) → err.e ≡ ErrorCode.success → is_success err ≡ true
      success_of err e = ground arith
