-- ===== src/Protocol.antt =====
-- driver/include/protocol.h and driver/src/protocol.cpp: one message on a connection. The header is
-- sent as it lies in memory, its two numbers in little-endian order.
pub mod Kept
pub mod Header
pub mod Seal
pub mod Receive
pub mod RoundTrip
pub mod Progress
mod Tests
use dcn1003_group.Base.{
  ℕ, suc, ◌+◌, ◌*◌, ◌/◌, ◌%◌, ◌^◌, Bool, true, false, not, ◌||◌, Option, none, some, List, [], ◌∷◌,
  ◌++◌, ltb, ◌==◌, if◌then◌else◌, Bytes, codes, bytes_eq, is_empty, length, get_or, take, drop,
  replicate,
}
use dcn1003_group.Error.{ErrorCode, ErrorInfo, no_error, is_success}
use dcn1003_group.Dispatch.{Payload, MsgBody}
use dcn1003_group.Platform.{Platform}
use dcn1003_group.Socket.{socket_send, socket_recv}
use dcn1003_group.Crypto.{key_size, aes_encrypt, aes_decrypt, iv_gen, compute_hmac, read_app_key}

abbrev pub max_body : ℕ
max_body = 16 * 1024 * 1024

-- `std::stoi(APP_VERSION)`; the build sets APP_VERSION to "000001".
abbrev pub app_version : ℕ
app_version = 1

pub record MsgHeader : Type 0 where
  pub version : ℕ
  pub body_len : ℕ
  pub iv : Bytes
  pub mac : Bytes

abbrev pub u32_bytes : ℕ → Bytes
u32_bytes n = (n % 256) ∷ (n / 256 % 256) ∷ (n / 65536 % 256) ∷ (n / 16777216 % 256) ∷ []

abbrev pub u32_of : Bytes → ℕ
u32_of b = get_or b 0 0 + 256 * get_or b 1 0 + 65536 * get_or b 2 0 + 16777216 * get_or b 3 0

-- `sizeof(MsgHeader_t)`
abbrev pub header_size : ℕ
header_size = 56

unfoldable pub header_bytes : MsgHeader → Bytes
header_bytes h = u32_bytes h.version ++ (u32_bytes h.body_len ++ (h.iv ++ h.mac))

unfoldable pub header_of : Bytes → MsgHeader
header_of b = record {
  version = u32_of b;
  body_len = u32_of (drop 4 b);
  iv = take 16 (drop 8 b);
  mac = take 32 (drop 24 b);
}

abbrev pub fail : ErrorCode → Bytes → ErrorInfo
fail code message = record { e = code; message = message }

-- The process-wide state that the functions use: the sockets, the random generator, `openssl::key`,
-- the request counter, and the time.
pub record Process (p : Platform) : Type 0 where
  pub net : p.Net
  pub rng : p.Rng
  pub key : Bytes
  pub req_id : ℕ
  pub now : ℕ

abbrev pub header_for : Bytes → Bytes → Bytes → MsgHeader
header_for ciphertext iv mac = record {
  version = app_version;
  body_len = length ciphertext % 2 ^ 32;
  iv = iv;
  mac = mac;
}

abbrev pub new_body : ℕ → Payload → MsgBody
new_body cmd payload = record { cmd_type = cmd; req_id = 0; timestamp = 0; payload = payload }

abbrev pub parsed : Option MsgBody → ErrorInfo × Option MsgBody
parsed none = (fail ErrorCode.proto_parse_err (codes "protobuf parse failed."), none)
parsed (some msg) = (no_error, some msg)

-- `MsgBody body;`, which a receive without error has filled.
abbrev pub received : Option MsgBody → MsgBody
received none = record { cmd_type = 0; req_id = 0; timestamp = 0; payload = [] }
received (some body) = body

module _ (p : Platform) where
  -- `body.set_timestamp(…)` and `body.set_req_id(…)`
  abbrev pub stamped : MsgBody → Process p → MsgBody
  stamped body h = record body { timestamp = h.now % 2 ^ 32; req_id = h.req_id }

  -- `g_req_id_counter.fetch_add(1)`
  abbrev pub counted : Process p → Process p
  counted h = record h { req_id = (h.req_id + 1) % 2 ^ 32 }

  -- The check at the start: a key that is still all zero is read again.
  unfoldable pub load_key : Process p → ErrorInfo × Process p
  load_key h =
      let (err, key) = read_app_key p h.key in
      if bytes_eq h.key (replicate 32 0)
      then (if is_success err then (no_error, record h { key = key }) else (
        fail ErrorCode.read_err (codes "retry load key to memory failed."),
        record h { key = key },
      ))
      else (no_error, h)

  -- What `Package_receive` does with a whole frame: decryption, the check of the MAC, parsing.
  unfoldable pub open_frame : Bytes → MsgHeader → Bytes → ErrorInfo × Option MsgBody
  open_frame key header buffer =
      let plaintext = aes_decrypt p buffer key header.iv in
      let (mac, mac_size) = compute_hmac p key plaintext in
      if is_empty plaintext
      then (fail ErrorCode.decrypt_err (codes "aes decrypt failed."), none)
      else if not (mac_size == key_size)
      then (fail ErrorCode.mac_calc_err (codes "mac calc failed."), none)
      else if not (bytes_eq mac header.mac)
      then (
        fail ErrorCode.mac_check_err (codes "mac check failed: recv mac != body calc mac"),
        none,
      )
      else parsed (p.parse plaintext)

module _ (p : Platform) (s : ℕ) where
  -- The result of the second send, which is made only after the first succeeded.
  abbrev pub body_sent : ErrorInfo × p.Net → Process p → ErrorInfo × Process p
  body_sent (err, n) h =
      if is_success err
      then (no_error, record h { net = n })
      else (fail ErrorCode.send_err (codes "Package_send: send body failed."), record h { net = n })

  abbrev pub header_sent : Bytes → ErrorInfo × p.Net → Process p → ErrorInfo × Process p
  header_sent ciphertext (err, n) h =
      if is_success err then body_sent (socket_send p s ciphertext n) h else (
        fail ErrorCode.send_err (codes "Package_send: send header failed."),
        record h { net = n },
      )

  -- The two sends at the end of `send_body`.
  unfoldable pub send_frame : MsgHeader → Bytes → Process p → ErrorInfo × Process p
  send_frame header ciphertext h =
      header_sent ciphertext (socket_send p s (header_bytes header) h.net) h

  -- From the serialized body on: MAC, IV, encryption, sending.
  unfoldable pub send_data : Bytes → Process p → ErrorInfo × Process p
  unfolding send_frame
  send_data text h =
      let (mac, mac_size) = compute_hmac p h.key text in
      let (ok, iv, rng) = iv_gen p 16 h.rng in
      let ciphertext = aes_encrypt p text h.key iv in
      if not (mac_size == key_size)
      then (fail ErrorCode.mac_calc_err (codes "mac calc failed."), h)
      else if not ok
      then (fail ErrorCode.iv_calc_err (codes "generated iv failed."), record h { rng = rng })
      else if is_empty ciphertext
      then (fail ErrorCode.encrypt_err (codes "aes encrypt failed."), record h { rng = rng })
      else send_frame (header_for ciphertext iv mac) ciphertext (record h { rng = rng })

  -- What follows the loading of the key.
  abbrev pub key_loaded : MsgBody → ErrorInfo × Process p → ErrorInfo × Process p
  key_loaded body (err, h) =
      if is_success err then send_data (p.serialize (stamped p body h)) (counted p h) else (err, h)

  unfoldable pub send_body : MsgBody → Process p → ErrorInfo × Process p
  send_body body h = key_loaded body (load_key p h)

  -- The two overloads of `Package_send`: one field, or a list of fields.
  unfoldable pub package_send : Bytes → ℕ → Process p → ErrorInfo × Process p
  unfolding send_body
  package_send msg cmd = send_body (new_body cmd (msg ∷ []))

  unfoldable pub package_send_fields : List Bytes → ℕ → Process p → ErrorInfo × Process p
  unfolding send_body
  package_send_fields fields cmd = send_body (new_body cmd fields)

  -- The body of a frame whose header was read.
  unfoldable pub receive_body : MsgHeader → Process p → ErrorInfo × Option MsgBody × Process p
  unfolding open_frame
  receive_body header h =
      let (err, buffer, n) = socket_recv p s header.body_len h.net in
      let (err', msg) = open_frame p h.key header buffer in
      if not (header.version == app_version)
      then (fail ErrorCode.recv_err (codes "Unsupported protocol version."), none, h)
      else if header.body_len == 0 || ltb max_body header.body_len
      then (fail ErrorCode.recv_err (codes "Package body length = 0 or too long."), none, h)
      else if not (is_success err)
      then (
        fail ErrorCode.recv_err (codes "Package body receive failed."),
        none,
        record h { net = n },
      )
      else (err', msg, record h { net = n })

  unfoldable pub package_receive : Process p → ErrorInfo × Option MsgBody × Process p
  unfolding receive_body
  package_receive h =
      let (err, buffer, n) = socket_recv p s header_size h.net in
      if not (is_success err)
      then (
        fail ErrorCode.recv_err (codes "Package header receive failed."),
        none,
        record h { net = n },
      )
      else receive_body (header_of buffer) (record h { net = n })
