-- ===== src/PasswordHash/Verify.antt =====
-- Which passwords `verify` accepts for the text that `make` wrote.
use mathlib.Core.Option.{some-injective}
use dcn1003_group.Base.{
  ℕ, ◌≤◌, ◌≡◌, ◌≢◌, refl, sym, ap, ◌∙◌, ◌↔◌, Bool, true, inl, inr, Option, none, some, [], ◌∷◌,
  ◌++◌, arith, All, Bool-cases, Option-cases, Bytes, Lacks, codes, bytes_eq, length,
}
use dcn1003_group.Base.Int.{ℤ, pos, int_max}
use dcn1003_group.Number.{decimal, to_string}
use dcn1003_group.Number.RoundTrip.{decimal-Lacks, stoi-decimal}
use dcn1003_group.PasswordHash.{
  Derivation, salt_len, key_len, to_hex, is_encoded, cut, derive, encode, make, matches, verify,
}
use dcn1003_group.PasswordHash.Hex.{IsByte, from_hex-to_hex, to_hex-Lacks, consteq_iff}

cut-append : (sep : ℕ) (x y : Bytes) → Lacks sep x → cut sep (x ++ (sep ∷ y)) ≡ some (x, y)
unfolding cut
cut-append sep [] y h = ground arith
cut-append sep (c ∷ x) y (hc, h) = ground (arith, cut-append sep x y h)

-- What OpenSSL promises: the salt and the key have the lengths that were asked for.
pub record Fills (d : Derivation) : Type 0 where
  pub rand_fills :
      (n : ℕ) (salt : Bytes) (r r' : d.Rng)
      → d.rand_bytes n r ≡ (true, salt, r')
      → (length salt ≡ n) × All IsByte salt
  pub key_fills :
      (password salt key : Bytes) (password_len salt_len iter : ℤ) (n : ℕ)
      → d.pbkdf2 password password_len salt salt_len iter n ≡ some key
      → (length key ≡ n) × All IsByte key

module _ (d : Derivation) where
  -- `verify` takes the parts of an encoded text apart.
  verify-encode :
      (other salt key : Bytes) (iter : ℕ)
      → 1 ≤ iter
      → iter ≤ int_max
      → All IsByte salt
      → All IsByte key
      → length key ≡ key_len
      → verify d other (encode d (pos iter) salt (some key))
        ≡ matches d (derive d other salt (pos iter)) key
  unfolding verify is_encoded to_string codes bytes_eq
  verify-encode other salt key iter low high hs hk len =
      rw
        (
          cut-append b'$' (decimal iter) (to_hex salt ++ (b'$' ∷ to_hex key))
              (decimal-Lacks b'$' iter (λ h. ground arith)),
          cut-append b'$' (to_hex salt) (to_hex key) (to_hex-Lacks b'$' salt (omega arith)),
          stoi-decimal iter high,
          from_hex-to_hex salt hs,
          from_hex-to_hex key hk,
        )
        (ground arith)

  matches_iff :
      (got : Option Bytes) (key : Bytes)
      → ((b : Bytes) → got ≡ some b → All IsByte b)
      → All IsByte key
      → (matches d got key ≡ true) ↔ (got ≡ some key)
  matches_iff none key hb hk = (λ e. cc, λ e. cc)
  matches_iff (some b) key hb hk =
      let (to, from) = consteq_iff b key (hb b refl) hk in
      (λ e. ap some (to e), λ e. from (some-injective b key e))

  -- A text that is not empty holds a salt and a key.
  made :
      (password : Bytes) (iter : ℤ) (rng : d.Rng)
      → (make d password iter rng).0 ≢ []
      → (d.rand_bytes salt_len rng
          ≡ (true, (d.rand_bytes salt_len rng).1, (d.rand_bytes salt_len rng).2))
        × (key : Bytes) × (derive d password (d.rand_bytes salt_len rng).1 iter ≡ some key)
  unfolding make
  made password iter rng filled = elim (Bool-cases (d.rand_bytes salt_len rng).0) [
    | inr failed ↦ absurd (filled (rw failed refl))
    | inl ok ↦ elim (Option-cases (derive d password (d.rand_bytes salt_len rng).1 iter)) [
      | inl failed ↦ absurd (filled (rw (ok, failed) refl))
      | inr (key, derived) ↦ (ground arith, key, derived)
    ]
  ]

  -- If `make` did not fail, its text is an encoded one, and `verify` accepts exactly the passwords from
  -- which PBKDF2 derives the same key as from the original one, with the salt that `make` drew and the
  -- same number of iterations, which is positive and an `int`.
  pub verify-make :
      (password other : Bytes) (iter : ℕ) (rng : d.Rng)
      → Fills d
      → 1 ≤ iter
      → iter ≤ int_max
      → (make d password (pos iter) rng).0 ≢ []
      → (is_encoded (make d password (pos iter) rng).0 ≡ true)
        × ((verify d other (make d password (pos iter) rng).0 ≡ true) ↔ (
            derive d other (d.rand_bytes salt_len rng).1 (pos iter)
            ≡ derive d password (d.rand_bytes salt_len rng).1 (pos iter)))
  unfolding make is_encoded codes bytes_eq
  verify-make password other iter rng fills low high filled =
      let (drawn, key, derived) = made password (pos iter) rng filled in
      let salt = (d.rand_bytes salt_len rng).1 in
      let (_, hs) = fills.rand_fills salt_len salt rng (d.rand_bytes salt_len rng).2 drawn in
      let (len, hk) = fills.key_fills _ salt key _ _ _ key_len derived in
      let (to, from) =
        matches_iff (derive d other salt (pos iter)) key
          (λ b e. (fills.key_fills _ salt b _ _ _ key_len e).1) hk in
      let text : (make d password (pos iter) rng).0 ≡ encode d (pos iter) salt (some key) =
        rw (ap (λ (x : Bool × Bytes × d.Rng). x.0) drawn, derived) refl in
      let accepts =
        ap (verify d other) text ∙ verify-encode other salt key iter low high hs hk len in
      (rw text refl, (λ e. to (sym accepts ∙ e) ∙ sym derived, λ e. accepts ∙ from (e ∙ derived)))
