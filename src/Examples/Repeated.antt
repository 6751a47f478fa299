-- ===== src/Examples/Repeated.antt =====
-- A key derivation that repeats the first byte of the password, with a salt that repeats a number.
use dcn1003_group.Base.{
  ℕ, zero, suc, ◌%◌, ◌≡◌, refl, sym, ap, Bool, true, some, arith, All, Bytes, length, replicate,
  get_or,
}
use mathlib.Core.Option.{some-injective}
use dcn1003_group.PasswordHash.{Derivation}
use dcn1003_group.PasswordHash.Hex.{IsByte}
use dcn1003_group.PasswordHash.Verify.{Fills}

abbrev pub repeated : Derivation
repeated = record {
  Rng = ℕ;
  rand_bytes = λ n r. (true, replicate n (r % 256), suc r);
  pbkdf2 = λ password len salt salt_len iter n. some (replicate n (get_or password 0 0 % 256));
}

replicate_fills : (n x : ℕ) → IsByte x → (length (replicate n x) ≡ n) × All IsByte (replicate n x)
replicate_fills zero x h = (refl, tt)
replicate_fills (suc n) x h = let (len, bytes) = replicate_fills n x h in (ap suc len, (h, bytes))

pub repeated-Fills : Fills repeated
repeated-Fills = record {
  rand_fills = λ n salt r r' e.
      rw (sym (ap (λ (t : Bool × Bytes × ℕ). t.1) e)) (replicate_fills n (r % 256) (omega arith));
  key_fills = λ password salt key l s iter n e.
      rw (sym (some-injective _ key e))
        (replicate_fills n (get_or password 0 0 % 256) (omega arith));
}
