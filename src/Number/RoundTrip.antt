-- ===== src/Number/RoundTrip.antt =====
-- What `decimal` prints, and that `stoi` reads it back.
use dcn1003_group.Base.{
  ℕ, zero, suc, ◌+◌, ◌-◌, ◌*◌, ◌∙◌, false, ◌++◌, ◌/◌, ◌%◌, ◌≤◌, ◌≡◌, ◌≢◌, refl, some, [], ◌∷◌,
  arith, Bytes, All, Lacks,
}
use dcn1003_group.Base.Int.{ℤ, pos, negsuc, int_max, pos_part, neg_part}
use dcn1003_group.Number.{is_digit, read_digits, stoi, digits, decimal, to_string}

abbrev pub IsDigit : ℕ → Type 0
IsDigit c = (b'0' ≤ c) × (c ≤ b'9')

read_digits-digits :
    (f n : ℕ) (out : Bytes)
    → n ≤ f
    → read_digits (digits f n out) (some 0) ≡ read_digits out (some n)
unfolding read_digits digits
read_digits-digits zero n out h = ground arith
read_digits-digits (suc f) n out h =
    ground (arith, read_digits-digits f (n / 10) ((b'0' + n % 10) ∷ out))

digits-IsDigit : (f n : ℕ) (out : Bytes) → All IsDigit out → All IsDigit (digits f n out)
unfolding digits
digits-IsDigit zero n out h = ground arith
digits-IsDigit (suc f) n out h = ground (arith, digits-IsDigit f (n / 10) ((b'0' + n % 10) ∷ out))

digits-ne-nil : (f n : ℕ) (out : Bytes) → digits f n out ≢ []
unfolding digits
digits-ne-nil zero n out = ground arith
digits-ne-nil (suc f) n out = ground (arith, digits-ne-nil f (n / 10) ((b'0' + n % 10) ∷ out))

pub decimal-ne-nil : (n : ℕ) → decimal n ≢ []
unfolding decimal
decimal-ne-nil n = digits-ne-nil n n []

pub decimal-IsDigit : (n : ℕ) → All IsDigit (decimal n)
unfolding decimal
decimal-IsDigit n = digits-IsDigit n n [] tt

Lacks-of_digits : (b : ℕ) (s : Bytes) → ¬ (IsDigit b) → All IsDigit s → Lacks b s
Lacks-of_digits b [] h hs = tt
Lacks-of_digits b (c ∷ s) h (hc, hs) = (λ e. ground (arith, h), Lacks-of_digits b s h hs)

-- A printed number holds no byte but digits.
pub decimal-Lacks : (b n : ℕ) → ¬ (IsDigit b) → Lacks b (decimal n)
decimal-Lacks b n h = Lacks-of_digits b (decimal n) h (decimal-IsDigit n)

stoi_of_digits :
    (s : Bytes) (n : ℕ)
    → All IsDigit s
    → s ≢ []
    → read_digits s (some 0) ≡ some n
    → n ≤ int_max
    → stoi s ≡ some (pos n)
unfolding stoi read_digits
stoi_of_digits [] n hs ne e le = absurd (ne refl)
stoi_of_digits (c ∷ s) n hs ne e le = ground arith

read_digits-decimal : (n : ℕ) → read_digits (decimal n) (some 0) ≡ some n
unfolding decimal read_digits
read_digits-decimal n = read_digits-digits n n [] (omega arith)

read_digits-append :
    (s t : Bytes) (c n : ℕ)
    → All IsDigit s
    → is_digit c ≡ false
    → read_digits (s ++ c ∷ t) (some n) ≡ read_digits s (some n)
unfolding read_digits
read_digits-append [] t c n h other = rw other refl
read_digits-append (b ∷ s) t c n (hb, h) other =
    ground (arith, read_digits-append s t c (n * 10 + (b - b'0')) h other)

-- The digits of a printed number are read up to the byte behind them.
pub read_digits-decimal_append :
    (n c : ℕ) (t : Bytes) → is_digit c ≡ false → read_digits (decimal n ++ c ∷ t) (some 0) ≡ some n
read_digits-decimal_append n c t other =
    read_digits-append (decimal n) t c 0 (decimal-IsDigit n) other ∙ read_digits-decimal n

-- `stoi` reads back every number that fits an `int`.
pub stoi-decimal : (n : ℕ) → n ≤ int_max → stoi (decimal n) ≡ some (pos n)
stoi-decimal n le =
    stoi_of_digits (decimal n) n (decimal-IsDigit n) (decimal-ne-nil n) (read_digits-decimal n) le

stoi_of_minus :
    (s : Bytes) (n : ℕ)
    → All IsDigit s
    → s ≢ []
    → read_digits s (some 0) ≡ some (suc n)
    → n ≤ int_max
    → stoi (b'-' ∷ s) ≡ some (negsuc n)
unfolding stoi read_digits
stoi_of_minus [] n hs ne e le = absurd (ne refl)
stoi_of_minus (c ∷ s) n hs ne e le = ground arith

abbrev pub IsInt : ℤ → Type 0
IsInt z = (pos_part z ≤ int_max) × (neg_part z ≤ int_max + 1)

-- `stoi` undoes `to_string` on every `int`.
pub stoi-to_string : (z : ℤ) → IsInt z → stoi (to_string z) ≡ some z
unfolding to_string
stoi-to_string (pos n) h = stoi-decimal n (omega arith)
stoi-to_string (negsuc n) h =
    stoi_of_minus (decimal (suc n)) n (decimal-IsDigit (suc n)) (decimal-ne-nil (suc n))
      (read_digits-decimal (suc n)) (omega arith)
