-- ===== src/Message/Wire.antt =====
-- The crates that src/message.rs calls: `bytes` and `nom` for the fields of a frame, `prost` for the
-- commands and the metadata, `crc` for the checksum. Each operation is a parameter with what its
-- documentation says of it.
use pulsar_rs.Shared.{ℕ, ◌≡◌, ◌^◌, ◌<◌, ◌≤◌, Option, ◌++◌, length}
use pulsar_rs.Proto.{Bytes}

-- nom's `IResult`: the rest of the input and the value, or any of its errors.
pub data Parsed (A : Type 0) : Type 0 where
  parsed : Bytes → A → Parsed A
  failed : Parsed A

infixl 5 ◌>>=◌
abbrev pub ◌>>=◌ : {A B : Type 0} → Parsed A → (Bytes × A → Parsed B) → Parsed B
parsed i a >>= f = f (i, a)
failed >>= f = failed

pub record Wire : Type 0 where
  -- `BufMut::put_u32` and `put_u16`, as the bytes that they write.
  pub put_u32 : ℕ → Bytes
  pub put_u16 : ℕ → Bytes
  -- `Buf::get_u32` at the front of a buffer of four bytes or more.
  pub get_u32 : Bytes → ℕ
  pub be_u32 : Bytes → Parsed ℕ
  pub be_u16 : Bytes → Parsed ℕ
  -- `nom::bytes::streaming::take`.
  pub take : ℕ → Bytes → Parsed Bytes
  pub length-put_u32 : (n : ℕ) → length (put_u32 n) ≡ 4
  pub length-put_u16 : (n : ℕ) → length (put_u16 n) ≡ 2
  pub get_u32-put_u32 : (n : ℕ) (rest : Bytes) → n < 2 ^ 32 → get_u32 (put_u32 n ++ rest) ≡ n
  pub get_u32-append : (xs rest : Bytes) → 4 ≤ length xs → get_u32 (xs ++ rest) ≡ get_u32 xs
  pub be_u32-put_u32 :
      (n : ℕ) (rest : Bytes) → n < 2 ^ 32 → be_u32 (put_u32 n ++ rest) ≡ parsed rest n
  pub be_u16-put_u16 :
      (n : ℕ) (rest : Bytes) → n < 2 ^ 16 → be_u16 (put_u16 n ++ rest) ≡ parsed rest n
  pub take-append : (xs rest : Bytes) → take (length xs) (xs ++ rest) ≡ parsed rest xs

-- `encode` appends to a Vec, which has room; `encoded_len` is the number of bytes that it writes.
pub record Prost (A : Type 0) : Type 0 where
  pub encode : A → Bytes
  pub encoded_len : A → ℕ
  pub decode : Bytes → Option A
  pub encoded_len-length : (a : A) → encoded_len a ≡ length (encode a)

-- The checksum that `CRC_CASTAGNOLI` computes is a u32.
pub record Crc : Type 0 where
  pub checksum : Bytes → ℕ
  pub checksum_lt : (b : Bytes) → checksum b < 2 ^ 32
