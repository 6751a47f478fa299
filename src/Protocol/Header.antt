-- ===== src/Protocol/Header.antt =====
-- The header as it lies in memory is read back as it was written.
use dcn1003_group.Base.{
  ℕ, ◌<◌, ◌^◌, ◌≡◌, ap, ◌∙◌, ◌++◌, arith, Bytes, length, length-append, take, drop, take-append,
  drop-append, take_all,
}
use dcn1003_group.Protocol.{MsgHeader, header_size, u32_bytes, u32_of, header_bytes, header_of}

-- The sizes of the four members.
pub record FitsHeader (h : MsgHeader) : Type 0 where
  pub version : h.version < 2 ^ 32
  pub body_len : h.body_len < 2 ^ 32
  pub iv : length h.iv ≡ 16
  pub mac : length h.mac ≡ 32

u32_of-u32_bytes : (n : ℕ) → n < 2 ^ 32 → u32_of (u32_bytes n) ≡ n
u32_of-u32_bytes n h = omega arith

pub length-header_bytes : (h : MsgHeader) → FitsHeader h → length (header_bytes h) ≡ header_size
unfolding header_bytes
length-header_bytes h fits = omega (arith, length-append h.iv h.mac)

take_front : (n : ℕ) (x y : Bytes) → length x ≡ n → take n (x ++ y) ≡ x
take_front n x y e = rw (← e) (take-append x y)

drop_front : (n : ℕ) (x y : Bytes) → length x ≡ n → drop n (x ++ y) ≡ y
drop_front n x y e = rw (← e) (drop-append x y)

-- A header whose members have their sizes is read back from its 56 bytes.
pub header_of-header_bytes : (h : MsgHeader) → FitsHeader h → header_of (header_bytes h) ≡ h
unfolding header_bytes header_of
header_of-header_bytes h fits = λ i. record {
  version = u32_of-u32_bytes h.version fits.version i;
  body_len = u32_of-u32_bytes h.body_len fits.body_len i;
  iv = take_front 16 h.iv h.mac fits.iv i;
  mac =
      (ap (take 32) (drop_front 16 h.iv h.mac fits.iv)
          ∙ take_all 32 h.mac (omega (arith, fits.mac)))
        i;
}
