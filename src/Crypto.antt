-- ===== src/Crypto.antt =====
-- third_party/openssl/src/openssl.cpp: the wrappers over OpenSSL's calls, and the reading of the key.
use dcn1003_group.Base.{
  ℕ, ◌≡◌, All, Bool, ◌&&◌, none, some, [], ◌++◌, leb, if◌then◌else◌, Bytes, codes, length, take,
}
use dcn1003_group.PasswordHash.{to_hex, from_hex}
use dcn1003_group.PasswordHash.Hex.{IsByte, from_hex-to_hex}
use dcn1003_group.Error.{ErrorCode, ErrorInfo, no_error}
use dcn1003_group.Platform.{Platform}

-- The text of a SHA-256 digest, two hexadecimal digits for each of its 32 bytes; `digest` is OpenSSL's.
unfoldable pub sha256 : (Bytes → Bytes) → Bytes → Bytes
unfolding to_hex
sha256 digest str = to_hex (take 32 (digest str))

-- The digest can be read back from the text, so that two texts are equal only for equal digests.
sha256-from_hex :
    (digest : Bytes → Bytes) (str : Bytes)
    → All IsByte (take 32 (digest str))
    → from_hex (sha256 digest str) ≡ some (take 32 (digest str))
unfolding sha256
sha256-from_hex digest str h = from_hex-to_hex (take 32 (digest str)) h

abbrev pub key_size : ℕ
key_size = 32

module _ (p : Platform) where
  -- The ciphertext, or nothing if one of the three calls failed.
  unfoldable pub aes_encrypt : Bytes → Bytes → Bytes → Bytes
  aes_encrypt plain_text key iv =
      let (ok1, ctx1) = p.encrypt_init key iv p.cipher_new in
      let (ok2, front, ctx2) = p.encrypt_update plain_text ctx1 in
      let (ok3, tail, ctx3) = p.encrypt_final ctx2 in
      if ok1 && ok2 && ok3 then front ++ tail else []

  unfoldable pub aes_decrypt : Bytes → Bytes → Bytes → Bytes
  aes_decrypt cipher_text key iv =
      let (ok1, ctx1) = p.decrypt_init key iv p.cipher_new in
      let (ok2, front, ctx2) = p.decrypt_update cipher_text ctx1 in
      let (ok3, tail, ctx3) = p.decrypt_final ctx2 in
      if ok1 && ok2 && ok3 then front ++ tail else []

  unfoldable pub iv_gen : ℕ → p.Rng → Bool × Bytes × p.Rng
  iv_gen n rng = p.rand_bytes n rng

  -- The MAC and its length, `*out_len`.
  unfoldable pub compute_hmac : Bytes → Bytes → Bytes × ℕ
  compute_hmac key text = (p.mac key text, length (p.mac key text))

  -- The error, and the new value of the key, which a failure leaves alone.
  unfoldable pub read_app_key : Bytes → ErrorInfo × Bytes
  read_app_key key = elim p.key_file [
    | none ↦ (record { e = ErrorCode.read_err; message = codes "Unable to open key file" }, key)
    | some content ↦ if leb key_size (length content) then (no_error, take key_size content) else (
      record { e = ErrorCode.read_err; message = codes "key file size is not 32 byte!" },
      key,
    )
  ]
