-- ===== src/PasswordHash/Hex.antt =====
-- The hexadecimal text of bytes, and the comparison of `consteq`.
use dcn1003_group.Base.{
  ℕ, zero, suc, ◌+◌, ◌*◌, ◌/◌, ◌%◌, ◌<◌, ◌≡◌, refl, ◌↔◌, true, false, some, [], ◌∷◌, arith, All,
  Bytes, length, ◌==◌, Lacks, if◌then◌else◌,
}
use dcn1003_group.Number.{skip_space, is_space}
use dcn1003_group.PasswordHash.{
  hex_digit, to_hex, hex_value, scan_hex2, from_pairs, from_hex, xor_bits, or_bits, differences,
  consteq,
}

abbrev pub IsByte : ℕ → Type 0
IsByte x = x < 256

hex_value-hex_digit : (n : ℕ) → n < 16 → hex_value (hex_digit n) ≡ some n
hex_value-hex_digit n h = ground arith

hex_digit-not_space : (n : ℕ) → n < 16 → is_space (hex_digit n) ≡ false
hex_digit-not_space n h = ground arith

scan_hex2_digits :
    (m n : ℕ) (s : Bytes)
    → m < 16
    → n < 16
    → scan_hex2 (hex_digit m ∷ hex_digit n ∷ s) ≡ some (m * 16 + n)
unfolding scan_hex2 skip_space
scan_hex2_digits m n s hm hn =
    ground (arith, hex_value-hex_digit m hm, hex_value-hex_digit n hn, hex_digit-not_space m hm)

from_pairs-to_hex : (buf : Bytes) → All IsByte buf → from_pairs (to_hex buf) ≡ some buf
unfolding from_pairs to_hex
from_pairs-to_hex [] h = refl
from_pairs-to_hex (x ∷ rest) (hx, h) =
    rw
      (
        scan_hex2_digits (x / 16) (x % 16) (to_hex rest) (omega arith) (omega arith),
        from_pairs-to_hex rest h,
      )
      (ground arith)

length-to_hex : (buf : Bytes) → length (to_hex buf) ≡ 2 * length buf
unfolding to_hex
length-to_hex [] = refl
length-to_hex (x ∷ rest) = omega (arith, length-to_hex rest)

-- `from_hex` reads back the bytes that `to_hex` wrote.
pub from_hex-to_hex : (buf : Bytes) → All IsByte buf → from_hex (to_hex buf) ≡ some buf
unfolding from_hex
from_hex-to_hex buf h = rw (is_even, from_pairs-to_hex buf h) refl
  where
    is_even : (length (to_hex buf) % 2 == 0) ≡ true
    is_even = rw (length-to_hex buf) (ground arith)

pub to_hex-Lacks : (b : ℕ) (buf : Bytes) → b < b'0' → Lacks b (to_hex buf)
unfolding to_hex
to_hex-Lacks b [] h = tt
to_hex-Lacks b (x ∷ rest) h = (λ e. ground arith, (λ e. ground arith, to_hex-Lacks b rest h))

-- A number of at most `k` binary digits.
abbrev Fits : ℕ → ℕ → Type 0
Fits zero a = a ≡ 0
Fits (suc k) a = Fits k (a / 2)

byte-Fits : (x : ℕ) → IsByte x → Fits 8 x
byte-Fits x h = omega arith

xor_bits_zero : (k a b : ℕ) → Fits k a → Fits k b → xor_bits k a b ≡ 0 → a ≡ b
unfolding xor_bits
xor_bits_zero zero a b ha hb e = omega arith
xor_bits_zero (suc k) a b ha hb e =
    let halves = xor_bits_zero k (a / 2) (b / 2) ha hb (omega arith) in omega arith

xor_bits_self : (k a : ℕ) → xor_bits k a a ≡ 0
unfolding xor_bits
xor_bits_self zero a = refl
xor_bits_self (suc k) a = omega (arith, xor_bits_self k (a / 2))

or_bits_zero : (k a b : ℕ) → Fits k a → Fits k b → or_bits k a b ≡ 0 → (a ≡ 0) × (b ≡ 0)
unfolding or_bits
or_bits_zero zero a b ha hb e = (ha, hb)
or_bits_zero (suc k) a b ha hb e =
    let (ea, eb) = or_bits_zero k (a / 2) (b / 2) ha hb (ground arith) in
    (ground arith, ground arith)

half_of : (bit n : ℕ) → bit < 2 → (bit + 2 * n) / 2 ≡ n
half_of bit n h = omega arith

or_bits-Fits : (k a b : ℕ) → Fits k (or_bits k a b)
unfolding or_bits
or_bits-Fits zero a b = refl
or_bits-Fits (suc k) a b =
    rw (half_of (if a % 2 == 0 then b % 2 else 1) (or_bits k (a / 2) (b / 2)) (ground arith))
      (or_bits-Fits k (a / 2) (b / 2))

xor_bits-Fits : (k a b : ℕ) → Fits k (xor_bits k a b)
unfolding xor_bits
xor_bits-Fits zero a b = refl
xor_bits-Fits (suc k) a b =
    rw (half_of ((a % 2 + b % 2) % 2) (xor_bits k (a / 2) (b / 2)) (omega arith))
      (xor_bits-Fits k (a / 2) (b / 2))

differences_zero :
    (a b : Bytes) (diff : ℕ)
    → length a ≡ length b
    → All IsByte a
    → All IsByte b
    → Fits 8 diff
    → differences a b diff ≡ 0
    → (diff ≡ 0) × (a ≡ b)
unfolding differences
differences_zero [] [] diff len ha hb fits e = (e, refl)
differences_zero [] (y ∷ b) diff len ha hb fits e = cc
differences_zero (x ∷ a) [] diff len ha hb fits e = cc
differences_zero (x ∷ a) (y ∷ b) diff len (hx, ha) (hy, hb) fits e =
    let (none_here, tails) =
      differences_zero a b (or_bits 8 diff (xor_bits 8 x y)) (omega arith) ha hb
        (or_bits-Fits 8 diff (xor_bits 8 x y)) e in
    let (none_before, same_bits) =
      or_bits_zero 8 diff (xor_bits 8 x y) fits (xor_bits-Fits 8 x y) none_here in
    let heads = xor_bits_zero 8 x y (byte-Fits x hx) (byte-Fits y hy) same_bits in
    (none_before, rw (heads, tails) refl)

differences_self : (a : Bytes) → differences a a 0 ≡ 0
unfolding differences or_bits
differences_self [] = refl
differences_self (x ∷ a) = rw (xor_bits_self 8 x) (differences_self a)

-- On strings of bytes, `consteq` is equality.
pub consteq_iff : (a b : Bytes) → All IsByte a → All IsByte b → (consteq a b ≡ true) ↔ (a ≡ b)
unfolding consteq
consteq_iff a b ha hb = (λ e. same e, λ e. rw e (ground (arith, differences_self b)))
  where
    same : consteq a b ≡ true → a ≡ b
    same e = (differences_zero a b 0 (ground arith) ha hb refl (ground arith)).1
