-- ===== src/Tests/Crates.antt =====
-- Concrete stand-ins for the crates that src/message.rs and src/producer.rs call: big-endian fields,
-- and encodings of one byte for the few values that the tests use.
use pulsar_rs.Shared.{
  ℕ, zero, suc, ◌+◌, ◌*◌, ◌/◌, ◌%◌, ◌^◌, ◌≡◌, ◌<◌, ◌≤◌, refl, ap, Bool, Option, none, some, List,
  [], ◌∷◌, ◌++◌, arith, length, take, drop, length-append, take-append, drop-append, leb,
  if◌then◌else◌, le→leb,
}
use pulsar_rs.Proto.{
  Bytes, BaseCommand, MessageMetadata, SingleMessageMetadata, default_metadata,
  default_single_metadata,
}
use pulsar_rs.Message.Wire.{Wire, Prost, Crc, Parsed, parsed, failed}
use pulsar_rs.Message.Batch.{Nom}
use pulsar_rs.Connection.Messages

abbrev put_u32 : ℕ → Bytes
put_u32 n = n / 2 ^ 24 % 256 ∷ n / 2 ^ 16 % 256 ∷ n / 2 ^ 8 % 256 ∷ n % 256 ∷ []

abbrev put_u16 : ℕ → Bytes
put_u16 n = n / 2 ^ 8 % 256 ∷ n % 256 ∷ []

abbrev get_u32 : Bytes → ℕ
get_u32 (a ∷ b ∷ c ∷ d ∷ rest) = a * 2 ^ 24 + b * 2 ^ 16 + c * 2 ^ 8 + d
get_u32 _ = 0

abbrev be_u32 : Bytes → Parsed ℕ
be_u32 (a ∷ b ∷ c ∷ d ∷ rest) = parsed rest (a * 2 ^ 24 + b * 2 ^ 16 + c * 2 ^ 8 + d)
be_u32 _ = failed

abbrev be_u16 : Bytes → Parsed ℕ
be_u16 (a ∷ b ∷ rest) = parsed rest (a * 2 ^ 8 + b)
be_u16 _ = failed

abbrev take_bytes : ℕ → Bytes → Parsed Bytes
take_bytes n i = if leb n (length i) then parsed (drop n i) (take n i) else failed

pub four_bytes :
    (n : ℕ)
    → n < 2 ^ 32
    → n / 2 ^ 24 % 256 * 2 ^ 24 + n / 2 ^ 16 % 256 * 2 ^ 16 + n / 2 ^ 8 % 256 * 2 ^ 8 + n % 256 ≡ n
four_bytes n h = omega arith

pub two_bytes : (n : ℕ) → n < 2 ^ 16 → n / 2 ^ 8 % 256 * 2 ^ 8 + n % 256 ≡ n
two_bytes n h = omega arith

pub get_u32_front : (xs rest : Bytes) → 4 ≤ length xs → get_u32 (xs ++ rest) ≡ get_u32 xs
get_u32_front (a ∷ b ∷ c ∷ d ∷ xs) rest h = refl
get_u32_front [] rest h = absurd (omega arith)
get_u32_front (a ∷ []) rest h = absurd (omega arith)
get_u32_front (a ∷ b ∷ []) rest h = absurd (omega arith)
get_u32_front (a ∷ b ∷ c ∷ []) rest h = absurd (omega arith)

pub take_all : (xs rest : Bytes) → take_bytes (length xs) (xs ++ rest) ≡ parsed rest xs
take_all xs rest =
    rw
      (
        le→leb (length xs) (length (xs ++ rest)) (omega (arith, length-append xs rest)),
        take-append xs rest,
        drop-append xs rest,
      )
      refl

abbrev pub wire : Wire
wire = record {
  put_u32 = put_u32;
  put_u16 = put_u16;
  get_u32 = get_u32;
  be_u32 = be_u32;
  be_u16 = be_u16;
  take = take_bytes;
  length-put_u32 = λ n. refl;
  length-put_u16 = λ n. refl;
  get_u32-put_u32 = λ n rest h. four_bytes n h;
  get_u32-append = get_u32_front;
  be_u32-put_u32 = λ n rest h. ap (parsed rest) (four_bytes n h);
  be_u16-put_u16 = λ n rest h. ap (parsed rest) (two_bytes n h);
  take-append = take_all;
}

-- Commands by their number: only a ping is read back.
abbrev read_command : Bytes → Option BaseCommand
read_command [] = none
read_command (t ∷ rest) = if leb t 18 then some Messages.ping.command else none

abbrev pub commands : Prost BaseCommand
commands = record {
  encode = λ c. c.type_ ∷ [];
  encoded_len = λ c. 1;
  decode = read_command;
  encoded_len-length = λ c. refl;
}

-- Metadata by its sequence id.
abbrev read_metadata : Bytes → Option MessageMetadata
read_metadata [] = none
read_metadata (n ∷ rest) = some (record default_metadata { sequence_id = n })

abbrev pub metadata : Prost MessageMetadata
metadata = record {
  encode = λ m. m.sequence_id ∷ [];
  encoded_len = λ m. 1;
  decode = read_metadata;
  encoded_len-length = λ m. refl;
}

abbrev read_single : Bytes → Option SingleMessageMetadata
read_single [] = none
read_single (n ∷ rest) = some (record default_single_metadata { payload_size = n })

abbrev pub single_metadata : Prost SingleMessageMetadata
single_metadata = record {
  encode = λ m. m.payload_size ∷ [];
  encoded_len = λ m. 1;
  decode = read_single;
  encoded_len-length = λ m. refl;
}

abbrev pub crc : Crc
crc = record { checksum = λ b. length b % 2 ^ 32; checksum_lt = λ b. omega arith }

abbrev accept : {B : Type 0} → Bytes → Option B → Parsed B
accept i none = failed
accept i (some b) = parsed i b

abbrev convert : {A B : Type 0} → (A → Option B) → Parsed A → Parsed B
convert f failed = failed
convert f (parsed i a) = accept i (f a)

abbrev check : {A : Type 0} → (A → Bool) → Parsed A → Parsed A
check f failed = failed
check f (parsed i a) = if f a then parsed i a else failed

module _ {A : Type 0} where
  abbrev prepend : A → Parsed (List A) → Parsed (List A)
  prepend a failed = failed
  prepend a (parsed i l) = parsed i (a ∷ l)

  abbrev then_more : Parsed A → (Bytes → Parsed (List A)) → Parsed (List A)
  then_more failed more = failed
  then_more (parsed i a) more = prepend a (more i)

  abbrev count_with : (Bytes → Parsed A) → ℕ → Bytes → Parsed (List A)
  count_with p zero i = parsed i []
  count_with p (suc n) i = then_more (p i) (count_with p n)

abbrev pub nom : Nom
nom = record {
  map_res = λ p f i. convert f (p i);
  verify = λ p f i. check f (p i);
  count = count_with;
  map_res-some = λ p f i j a b h k. rw (h, k) refl;
  verify-true = λ p f i j a h k. rw (h, k) refl;
  verify-false = λ p f i j a h k. rw (h, k) refl;
  count-zero = λ p i. refl;
  count-parsed = λ p n i j k a l h q. rw (h, q) refl;
  count-failed = λ p n i h. rw h refl;
}
