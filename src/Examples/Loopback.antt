-- ===== src/Examples/Loopback.antt =====
-- A platform that meets its documentation: a socket moves one byte in a call, the cipher copies its
-- input, the MAC is the length of the text 32 times, and a message is written with each byte of the
-- payload raised by one and a zero behind each field.
use dcn1003_group.Base.{
  ℕ, zero, suc, ◌≤◌, ◌%◌, ◌≡◌, ◌≢◌, refl, ap, sym, ◌∙◌, Bool, true, Option, none, some, [], ◌∷◌,
  ◌++◌, append-nil, arith, Bytes, length, take, replicate,
}
use dcn1003_group.Base.Int.{ℤ, pos, negsuc}
use dcn1003_group.Dispatch.{MsgBody, Payload}
use dcn1003_group.Protocol.{u32_bytes}
use dcn1003_group.Platform.{Platform, Stream, IsOpen, Serializes, Ciphers}

pub record Pipe : Type 0 where
  pub sent : Bytes
  pub coming : Bytes

abbrev send_byte : Bytes → ℤ → Pipe → ℤ × Pipe
send_byte (x ∷ d) (pos (suc len)) n = (pos 1, record n { sent = n.sent ++ x ∷ [] })
send_byte _ _ n = (pos 0, n)

abbrev take_byte : ℤ → Bytes → Bytes → ℤ × Bytes × Pipe
take_byte (pos (suc len)) (x ∷ rest) sent = (pos 1, x ∷ [], record { sent = sent; coming = rest })
take_byte _ coming sent = (pos 0, [], record { sent = sent; coming = coming })

abbrev write_fields : Payload → Bytes
write_fields [] = []
write_fields ([] ∷ fields) = 0 ∷ write_fields fields
write_fields ((c ∷ f) ∷ fields) = suc c ∷ write_fields (f ∷ fields)

abbrev push_byte : ℕ → Payload → Payload
push_byte c [] = (c ∷ []) ∷ []
push_byte c (f ∷ fields) = (c ∷ f) ∷ fields

abbrev read_fields : Bytes → Payload
read_fields [] = []
read_fields (zero ∷ s) = [] ∷ read_fields s
read_fields (suc c ∷ s) = push_byte c (read_fields s)

abbrev read_message : Bytes → Option MsgBody
read_message (cmd ∷ req ∷ time ∷ s) =
    some (record { cmd_type = cmd; req_id = req; timestamp = time; payload = read_fields s })
read_message _ = none

abbrev pub loopback : Platform
loopback = record {
  Net = Pipe;
  send = λ s d len n. send_byte d len n;
  recv = λ s len n. take_byte len n.coming n.sent;
  Rng = ℕ;
  rand_bytes = λ n r. (true, replicate n r, suc r);
  Cipher = ℕ;
  cipher_new = 0;
  encrypt_init = λ key iv c. (true, c);
  encrypt_update = λ text c. (true, text, c);
  encrypt_final = λ c. (true, [], c);
  decrypt_init = λ key iv c. (true, c);
  decrypt_update = λ text c. (true, text, c);
  decrypt_final = λ c. (true, [], c);
  mac = λ key text. replicate 32 (length text % 256);
  serialize = λ b. b.cmd_type ∷ b.req_id ∷ b.timestamp ∷ write_fields b.payload;
  parse = read_message;
  key_file = some (replicate 32 7);
}

pub send_byte_queues :
    (d : Bytes) (len k : ℕ) (n n' : Pipe)
    → send_byte d (pos len) n ≡ (pos (suc k), n')
    → (suc k ≤ len) × (n'.sent ≡ n.sent ++ take (suc k) d)
send_byte_queues [] len k n n' e = ground arith
send_byte_queues (x ∷ d) zero k n n' e = ground arith
send_byte_queues (x ∷ d) (suc len) k n n' e = ground arith

pub take_byte_takes :
    (len k : ℕ) (coming sent b : Bytes) (n' : Pipe)
    → take_byte (pos len) coming sent ≡ (pos (suc k), b, n')
    → (suc k ≤ len) × (length b ≡ suc k) × (coming ≡ b ++ n'.coming)
take_byte_takes zero k coming sent b n' e = ground arith
take_byte_takes (suc len) k [] sent b n' e = ground arith
take_byte_takes (suc len) k (x ∷ rest) sent b n' e = ground arith

abbrev pub loopback_stream : (s : ℕ) → Stream loopback s
loopback_stream s = record {
  sent = λ n. n.sent;
  coming = λ n. n.coming;
  send_queues = λ d len k n n' e. send_byte_queues d len k n n' e;
  recv_takes = λ len k b n n' e. take_byte_takes len k n.coming n.sent b n' e;
}

take_byte_progress :
    (len : ℕ) (coming sent : Bytes)
    → coming ≢ []
    → (k : ℕ) × (b : Bytes) × (n' : Pipe) × (take_byte (pos (suc len)) coming sent
        ≡ (pos (suc k), b, n'))
take_byte_progress len [] sent h = absurd (h refl)
take_byte_progress len (x ∷ rest) sent h = (0, x ∷ [], record { sent = sent; coming = rest }, refl)

pub loopback-IsOpen : (s : ℕ) → IsOpen loopback s (loopback_stream s)
loopback-IsOpen s = record { recv_progress = λ len n h. take_byte_progress len n.coming n.sent h }

read_fields-write_fields : (fields : Payload) → read_fields (write_fields fields) ≡ fields
read_fields-write_fields [] = refl
read_fields-write_fields ([] ∷ fields) = ap (λ rest. [] ∷ rest) (read_fields-write_fields fields)
read_fields-write_fields ((c ∷ f) ∷ fields) =
    ap (push_byte c) (read_fields-write_fields (f ∷ fields))

pub loopback-Serializes : Serializes loopback
loopback-Serializes = record {
  parses = λ b fits.
      ap
        (λ fields. some (record {
          cmd_type = b.cmd_type;
          req_id = b.req_id;
          timestamp = b.timestamp;
          payload = fields;
        }))
        (read_fields-write_fields b.payload);
  not_empty = λ b e. cc;
}

length-replicate_rng : (n x : ℕ) → length (replicate n x) ≡ n
length-replicate_rng zero x = refl
length-replicate_rng (suc n) x = ap suc (length-replicate_rng n x)

rand_fills_all :
    (n : ℕ) (iv : Bytes) (r r' : ℕ) → loopback.rand_bytes n r ≡ (true, iv, r') → length iv ≡ n
rand_fills_all n iv r r' e =
    ap length (sym (ap (λ (t : Bool × Bytes × ℕ). t.1) e)) ∙ length-replicate_rng n r

copies :
    (text front tail : Bytes) (c1 c2 c3 : ℕ)
    → loopback.encrypt_update text c1 ≡ (true, front, c2)
    → loopback.encrypt_final c2 ≡ (true, tail, c3)
    → front ++ tail ≡ text
copies text front tail c1 c2 c3 e1 e2 =
    ap (λ (b : Bytes). front ++ b) (sym (ap (λ (t : Bool × Bytes × ℕ). t.1) e2))
    ∙ append-nil front
    ∙ sym (ap (λ (t : Bool × Bytes × ℕ). t.1) e1)

pub loopback-Ciphers : Ciphers loopback
loopback-Ciphers = record {
  rand_fills = λ n iv r r' e. rand_fills_all n iv r r' e;
  decrypts = λ key iv text front tail c1 c2 c3 e1 e2 e3. (
    0,
    0,
    0,
    front ++ tail,
    [],
    refl,
    refl,
    refl,
    append-nil (front ++ tail) ∙ copies text front tail c1 c2 c3 e2 e3,
  );
}

-- Sending takes nothing from the stream.
pub send_byte_coming : (d : Bytes) (len : ℤ) (n : Pipe) → (send_byte d len n).1.coming ≡ n.coming
send_byte_coming [] len n = refl
send_byte_coming (x ∷ d) (pos zero) n = refl
send_byte_coming (x ∷ d) (pos (suc len)) n = refl
send_byte_coming (x ∷ d) (negsuc k) n = refl

-- The frame of a body of less than 256 bytes, when the random generator stands at 1.
abbrev pub frame_of : Bytes → Bytes
frame_of body =
    u32_bytes 1
    ++ (u32_bytes (length body) ++ (replicate 16 1 ++ (replicate 32 (length body) ++ body)))
