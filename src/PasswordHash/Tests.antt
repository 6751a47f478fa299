-- ===== src/PasswordHash/Tests.antt =====
-- Encoded passwords over a derivation that repeats the first byte of the password.
use dcn1003_group.Base.{◌≡◌, refl, ◌↔◌, true, some, [], ◌∷◌, arith, Bytes, codes, replicate}
use dcn1003_group.Base.Int.{pos}
use dcn1003_group.Number.{decimal, to_string, skip_space}
use dcn1003_group.PasswordHash.{
  default_iterations, to_hex, from_hex, from_pairs, scan_hex2, is_encoded, derive, make, verify,
}
use dcn1003_group.PasswordHash.Verify.{verify-make}
use dcn1003_group.Examples.Repeated.{repeated, repeated-Fills}

abbrev password : Bytes
password = b'a' ∷ b'b' ∷ []

encoded_text :
    (make repeated password default_iterations 18).0
    ≡ codes
        "pbkdf2$120000$12121212121212121212121212121212$6161616161616161616161616161616161616161616161616161616161616161"
unfolding make to_hex to_string decimal codes
encoded_text = refl

-- One digit, a sign or white space before a digit pass for a byte.
lenient_hex : from_hex (codes "+1 7") ≡ some (1 ∷ 7 ∷ [])
unfolding from_hex from_pairs scan_hex2 skip_space codes
lenient_hex = refl

verify-make_example :
    (is_encoded (make repeated password (pos 120000) 18).0 ≡ true)
    × ((verify repeated (b'a' ∷ b'c' ∷ []) (make repeated password (pos 120000) 18).0 ≡ true) ↔ (
        derive repeated (b'a' ∷ b'c' ∷ []) (replicate 16 18) (pos 120000)
        ≡ derive repeated password (replicate 16 18) (pos 120000)))
unfolding make codes
verify-make_example =
    verify-make repeated password (b'a' ∷ b'c' ∷ []) 120000 18 repeated-Fills (omega arith)
      (omega arith) (λ e. cc)

abbrev key : Bytes
key = 1 ∷ 2 ∷ []

abbrev other_key : Bytes
other_key = 1 ∷ 3 ∷ []
