-- ===== src/PasswordHash.antt =====
-- driver/src/password_hash.cpp: the text "pbkdf2$<iterations>$<salt>$<key>" that a password is kept as.
pub mod Hex
pub mod Verify
mod Tests
use dcn1003_group.Base.{
  ℕ, zero, suc, ◌+◌, ◌-◌, ◌*◌, ◌/◌, ◌%◌, ◌^◌, Bool, true, false, not, ◌||◌, ◌&&◌, Option, none,
  some, [], ◌∷◌, ◌++◌, leb, ◌==◌, if◌then◌else◌, Bytes, codes, bytes_eq, is_empty, length, take,
  drop,
}
use dcn1003_group.Base.Int.{ℤ, pos, leb_ℤ}
use dcn1003_group.Number.{skip_space, stoi, to_string}
use dcn1003_group.Socket.{to_int}

-- What is taken from OpenSSL: `RAND_bytes`, and `PKCS5_PBKDF2_HMAC` with SHA-256 by its arguments
-- password, length, salt, length, iterations and length of the key; `none` if it does not return 1.
pub record Derivation : Type 1 where
  pub Rng : Type 0
  pub rand_bytes : ℕ → Rng → Bool × Bytes × Rng
  pub pbkdf2 : Bytes → ℤ → Bytes → ℤ → ℤ → ℕ → Option Bytes

abbrev pub salt_len : ℕ
salt_len = 16

abbrev pub key_len : ℕ
key_len = 32

-- The default of the argument `iterations`.
abbrev pub default_iterations : ℤ
default_iterations = pos 120000

abbrev pub hex_digit : ℕ → ℕ
hex_digit n = if leb n 9 then b'0' + n else b'a' + (n - 10)

-- Two digits for each byte.
unfoldable pub to_hex : Bytes → Bytes
to_hex [] = []
to_hex (x ∷ bytes) = hex_digit (x / 16) ∷ hex_digit (x % 16) ∷ to_hex bytes

-- The value of a hexadecimal digit.
abbrev pub hex_value : ℕ → Option ℕ
hex_value c =
    if leb b'0' c && leb c b'9'
    then some (c - b'0')
    else if leb b'a' c && leb c b'f'
    then some (c - b'a' + 10)
    else if leb b'A' c && leb c b'F'
    then some (c - b'A' + 10)
    else none

-- The one character that is left behind a sign.
abbrev scan_digit : Bytes → Option ℕ
scan_digit [] = none
scan_digit (c ∷ s) = hex_value c

abbrev negated : Option ℕ → Option ℕ
negated none = none
negated (some n) = some ((2 ^ 32 - n) % 2 ^ 32)

abbrev second_digit : ℕ → ℕ → Option ℕ → Option ℕ
second_digit n d (some m) = some (n * 16 + m)
second_digit n d none = if n == 0 && (d == b'x' || d == b'X') then none else some n

abbrev scan_digits : Option ℕ → Bytes → Option ℕ
scan_digits none s = none
scan_digits (some n) [] = some n
scan_digits (some n) (d ∷ s) = second_digit n d (hex_value d)

abbrev scan_item : Bytes → Option ℕ
scan_item [] = none
scan_item (c ∷ s) =
    if c == b'-'
    then negated (scan_digit s)
    else if c == b'+'
    then scan_digit s
    else scan_digits (hex_value c) s

-- `sscanf(s, "%2x", &b)`: white space, then at most two characters with sign and digits; the prefix
-- "0x" with nothing behind it is no number.
unfoldable pub scan_hex2 : Bytes → Option ℕ
scan_hex2 s = scan_item (take 2 (skip_space s))

abbrev push_hex : Option ℕ → Option Bytes → Option Bytes
push_hex none out = none
push_hex (some b) none = none
push_hex (some b) (some out) = some (b % 256 ∷ out)

unfoldable pub from_pairs : Bytes → Option Bytes
from_pairs [] = some []
from_pairs (c ∷ []) = none
from_pairs (c ∷ d ∷ hex) = push_hex (scan_hex2 (c ∷ d ∷ hex)) (from_pairs hex)

unfoldable pub from_hex : Bytes → Option Bytes
unfolding from_pairs
from_hex hex = if not (length hex % 2 == 0) then none else from_pairs hex

-- `a ^ b` and `a | b` on the lowest bits.
unfoldable pub xor_bits : ℕ → ℕ → ℕ → ℕ
xor_bits zero a b = 0
xor_bits (suc k) a b = (a % 2 + b % 2) % 2 + 2 * xor_bits k (a / 2) (b / 2)

unfoldable pub or_bits : ℕ → ℕ → ℕ → ℕ
or_bits zero a b = 0
or_bits (suc k) a b = (if a % 2 == 0 then b % 2 else 1) + 2 * or_bits k (a / 2) (b / 2)

unfoldable pub differences : Bytes → Bytes → ℕ → ℕ
differences (x ∷ a) (y ∷ b) diff = differences a b (or_bits 8 diff (xor_bits 8 x y))
differences _ _ diff = diff

unfoldable pub consteq : Bytes → Bytes → Bool
unfolding differences
consteq a b = if not (length a == length b) then false else differences a b 0 == 0

unfoldable pub is_encoded : Bytes → Bool
is_encoded s = bytes_eq (take 7 s) (codes "pbkdf2$")

-- The text before the first `sep`, and the text behind it: `s.find(sep)` with the two `substr`.
unfoldable pub cut : ℕ → Bytes → Option (Bytes × Bytes)
cut sep [] = none
cut sep (c ∷ s) =
    if c == sep
    then some ([], s)
    else elim (cut sep s) [ none ↦ none | some (front, behind) ↦ some (c ∷ front, behind) ]

module _ (d : Derivation) where
  abbrev pub derive : Bytes → Bytes → ℤ → Option Bytes
  derive password salt iter =
      d.pbkdf2 password (to_int (length password)) salt (to_int (length salt)) iter key_len

  abbrev pub encode : ℤ → Bytes → Option Bytes → Bytes
  encode iterations salt none = []
  encode iterations salt (some key) =
      codes "pbkdf2$" ++ (to_string iterations ++ (b'$' ∷ (to_hex salt ++ (b'$' ∷ to_hex key))))

  -- An empty text says that OpenSSL failed.
  unfoldable pub make : Bytes → ℤ → d.Rng → Bytes × d.Rng
  unfolding to_hex
  make password iterations rng =
      let (ok, salt, rng') = d.rand_bytes salt_len rng in
      if not ok
      then ([], rng')
      else (encode iterations salt (derive password salt iterations), rng')

  abbrev matches : Option Bytes → Bytes → Bool
  matches none expect = false
  matches (some got) expect = consteq got expect

  abbrev verify_key : Bytes → ℤ → Bytes → Option Bytes → Bool
  verify_key password iter salt none = false
  verify_key password iter salt (some expect) =
      if not (length expect == key_len) then false else matches (derive password salt iter) expect

  abbrev verify_salt : Bytes → ℤ → Option Bytes → Bytes → Bool
  verify_salt password iter none hash_hex = false
  verify_salt password iter (some salt) hash_hex = verify_key password iter salt (from_hex hash_hex)

  abbrev verify_iterations : Bytes → Option ℤ → Bytes → Bytes → Bool
  verify_iterations password none salt_hex hash_hex = false
  verify_iterations password (some iter) salt_hex hash_hex =
      if leb_ℤ iter (pos 0) then false else verify_salt password iter (from_hex salt_hex) hash_hex

  abbrev verify_behind : Bytes → Bytes → Option (Bytes × Bytes) → Bool
  verify_behind password iter_text none = false
  verify_behind password iter_text (some (salt_hex, hash_hex)) =
      verify_iterations password (stoi iter_text) salt_hex hash_hex

  abbrev verify_parts : Bytes → Option (Bytes × Bytes) → Bool
  verify_parts password none = false
  verify_parts password (some (iter_text, rest)) = verify_behind password iter_text (cut b'$' rest)

  unfoldable pub verify : Bytes → Bytes → Bool
  verify password encoded =
      if not (is_encoded encoded) then false else verify_parts password (cut b'$' (drop 7 encoded))
