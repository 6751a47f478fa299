-- ===== src/Number.antt =====
-- The conversions between `int` and text that the program takes from the standard library:
-- `std::stoi`, `std::to_string`, and `os << n` for an unsigned `n`.
pub mod RoundTrip
use dcn1003_group.Base.{
  ℕ, zero, suc, ◌+◌, ◌-◌, ◌*◌, ◌/◌, ◌%◌, ◌≤◌, Bool, Option, none, some, [], ◌∷◌, ◌&&◌, ◌||◌, leb,
  ltb, ◌==◌, if◌then◌else◌, Bytes,
}
use dcn1003_group.Base.Int.{ℤ, pos, negsuc, int_max}

-- `isspace` in the "C" locale
abbrev pub is_space : ℕ → Bool
is_space c = c == 32 || leb 9 c && leb c 13

abbrev pub is_digit : ℕ → Bool
is_digit c = leb b'0' c && leb c b'9'

unfoldable pub skip_space : Bytes → Bytes
skip_space [] = []
skip_space (c ∷ s) = if is_space c then skip_space s else c ∷ s

abbrev value_or_zero : Option ℕ → ℕ
value_or_zero none = 0
value_or_zero (some n) = n

-- The digits at the front; `none` means that there was none so far.
pub read_digits : Bytes → Option ℕ → Option ℕ
read_digits [] acc = acc
read_digits (c ∷ s) acc =
    let rest = read_digits s (some (value_or_zero acc * 10 + (c - b'0'))) in
    if is_digit c then rest else acc

-- `none` stands for the exceptions `invalid_argument` and `out_of_range`.
abbrev positive_int : Option ℕ → Option ℤ
positive_int none = none
positive_int (some n) = if leb n int_max then some (pos n) else none

abbrev negative_int : Option ℕ → Option ℤ
negative_int none = none
negative_int (some zero) = some (pos 0)
negative_int (some (suc n)) = if leb n int_max then some (negsuc n) else none

pub signed_int : Bytes → Option ℤ
unfolding read_digits
signed_int [] = none
signed_int (c ∷ s) =
    if c == b'-'
    then negative_int (read_digits s none)
    else if c == b'+'
    then positive_int (read_digits s none)
    else positive_int (read_digits (c ∷ s) none)

-- `std::stoi(s)`: white space, a sign, digits; what follows is ignored.
unfoldable pub stoi : Bytes → Option ℤ
unfolding skip_space signed_int
stoi s = signed_int (skip_space s)

-- One digit in each round; `n` rounds are more than enough.
pub digits : ℕ → ℕ → Bytes → Bytes
digits zero n out = (b'0' + n % 10) ∷ out
digits (suc fuel) n out =
    let rest = digits fuel (n / 10) ((b'0' + n % 10) ∷ out) in
    if n / 10 == 0 then (b'0' + n % 10) ∷ out else rest

unfoldable pub decimal : ℕ → Bytes
unfolding digits
decimal n = digits n n []

unfoldable pub to_string : ℤ → Bytes
unfolding decimal
to_string (pos n) = decimal n
to_string (negsuc n) = b'-' ∷ decimal (suc n)

-- The text behind the sign.
abbrev behind_sign : Bytes → Bytes
behind_sign [] = []
behind_sign (c ∷ s) = if c == b'-' || c == b'+' then s else c ∷ s

-- `std::atoi(s)`: 0 if there is no number. For a number that is no `int` the standard leaves the result
-- open; it is `overflow`.
unfoldable pub atoi : (Bytes → ℤ) → Bytes → ℤ
unfolding stoi
atoi overflow s = elim (stoi s) [
  | some z ↦ z
  | none ↦ elim (read_digits (behind_sign (skip_space s)) none) [
    | none ↦ pos 0
    | some n ↦ overflow s
  ]
]
