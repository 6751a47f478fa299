-- ===== src/Platform.antt =====
-- What the program takes from outside the repository: the operating system's sockets, OpenSSL, the
-- generated protobuf code, the key file. `Platform` has the functions that are called; the records
-- below it state what their documentation promises.
use dcn1003_group.Base.{
  ℕ, suc, ◌≤◌, ◌<◌, ◌^◌, ◌≡◌, ◌≢◌, Bool, true, Option, some, [], ◌++◌, Bytes, length, take,
}
use dcn1003_group.Base.Int.{ℤ, pos}
use dcn1003_group.Dispatch.{MsgBody}

pub record Platform : Type 1 where
  -- The state of the sockets of one process.
  pub Net : Type 0
  -- `send(socket, data, len, 0)`: the return value.
  pub send : ℕ → Bytes → ℤ → Net → ℤ × Net
  -- `recv(socket, buffer, len, 0)`: the return value and the bytes put into the buffer.
  pub recv : ℕ → ℤ → Net → ℤ × Bytes × Net
  -- The state of the random generator; `RAND_bytes(buf, n)`.
  pub Rng : Type 0
  pub rand_bytes : ℕ → Rng → Bool × Bytes × Rng
  -- A cipher context, and the three calls of an AES-256-CBC encryption and of a decryption. Each says
  -- whether it returned 1; the second and third give the bytes that they put out.
  pub Cipher : Type 0
  pub cipher_new : Cipher
  pub encrypt_init : Bytes → Bytes → Cipher → Bool × Cipher
  pub encrypt_update : Bytes → Cipher → Bool × Bytes × Cipher
  pub encrypt_final : Cipher → Bool × Bytes × Cipher
  pub decrypt_init : Bytes → Bytes → Cipher → Bool × Cipher
  pub decrypt_update : Bytes → Cipher → Bool × Bytes × Cipher
  pub decrypt_final : Cipher → Bool × Bytes × Cipher
  -- `EVP_MAC_init`, `update` and `final` for HMAC-SHA256: the bytes of the MAC.
  pub mac : Bytes → Bytes → Bytes
  -- `SerializeToString` and `ParseFromArray` of the generated `MsgBody`.
  pub serialize : MsgBody → Bytes
  pub parse : Bytes → Option MsgBody
  -- The bytes of the file "app.key", if it can be opened.
  pub key_file : Option Bytes

-- What a connected socket `s` does, after the documentation of `send` and `recv`: a positive result
-- says how many bytes of the buffer were queued, or how many were taken from the stream.
pub record Stream (p : Platform) (s : ℕ) : Type 0 where
  -- All that was ever queued, and all that is still to be received.
  pub sent : p.Net → Bytes
  pub coming : p.Net → Bytes
  pub send_queues :
      (d : Bytes) (len k : ℕ) (n n' : p.Net)
      → p.send s d (pos len) n ≡ (pos (suc k), n')
      → (suc k ≤ len) × (sent n' ≡ sent n ++ take (suc k) d)
  pub recv_takes :
      (len k : ℕ) (b : Bytes) (n n' : p.Net)
      → p.recv s (pos len) n ≡ (pos (suc k), b, n')
      → (suc k ≤ len) × (length b ≡ suc k) × (coming n ≡ b ++ coming n')

-- What the generated protobuf code promises for a message whose numbers fit their 32 bits.
abbrev pub FitsWire : MsgBody → Type 0
FitsWire b = (b.cmd_type < 2 ^ 32) × (b.req_id < 2 ^ 32) × (b.timestamp < 2 ^ 32)

pub record Serializes (p : Platform) : Type 0 where
  pub parses : (b : MsgBody) → FitsWire b → p.parse (p.serialize b) ≡ some b
  -- The payload is always present in a message that the program builds.
  pub not_empty : (b : MsgBody) → p.serialize b ≢ []

-- What OpenSSL promises: `RAND_bytes` fills the buffer, and a decryption under the same key and IV
-- undoes an encryption.
pub record Ciphers (p : Platform) : Type 0 where
  pub rand_fills :
      (n : ℕ) (iv : Bytes) (r r' : p.Rng) → p.rand_bytes n r ≡ (true, iv, r') → length iv ≡ n
  pub decrypts :
      (key iv text front tail : Bytes) (c1 c2 c3 : p.Cipher)
      → p.encrypt_init key iv p.cipher_new ≡ (true, c1)
      → p.encrypt_update text c1 ≡ (true, front, c2)
      → p.encrypt_final c2 ≡ (true, tail, c3)
      → (d1 : p.Cipher) × (d2 : p.Cipher) × (d3 : p.Cipher) × (front' : Bytes) × (tail' : Bytes)
        × (p.decrypt_init key iv p.cipher_new ≡ (true, d1))
        × (p.decrypt_update (front ++ tail) d1 ≡ (true, front', d2))
        × (p.decrypt_final d2 ≡ (true, tail', d3))
        × (front' ++ tail' ≡ text)

-- The connection is in order: while bytes are to come, `recv` gives at least one.
pub record IsOpen (p : Platform) (s : ℕ) (stream : Stream p s) : Type 0 where
  pub recv_progress :
      (len : ℕ) (n : p.Net)
      → stream.coming n ≢ []
      → (k : ℕ) × (b : Bytes) × (n' : p.Net) × (p.recv s (pos (suc len)) n ≡ (pos (suc k), b, n'))
