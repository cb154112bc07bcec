-- ===== src/Message/Batch.antt =====
-- Batches in src/message.rs: `BatchedMessage`, `batched_message`, `parse_batched_message` and
-- `serialize`. nom's combinators are a parameter, with what their documentation says of them.
pub mod RoundTrip
use pulsar_rs.Shared.{
  ℕ, zero, suc, ◌+◌, ◌%◌, ◌^◌, ◌≡◌, Bool, true, false, Option, none, some, List, [], ◌∷◌, ◌++◌, ltb,
}
use pulsar_rs.Proto.{Bytes, SingleMessageMetadata}
use pulsar_rs.Errors.{ConnectionError, decoding, Result, ok, err}
use pulsar_rs.Message.Wire.{Wire, Prost, Parsed, parsed, failed, ◌>>=◌}

pub record Nom : Type 1 where
  pub map_res : {A B : Type 0} → (Bytes → Parsed A) → (A → Option B) → Bytes → Parsed B
  pub verify : {A : Type 0} → (Bytes → Parsed A) → (A → Bool) → Bytes → Parsed A
  -- `nom::multi::count`.
  pub count : {A : Type 0} → (Bytes → Parsed A) → ℕ → Bytes → Parsed (List A)
  pub map_res-some :
      {A B : Type 0} (p : Bytes → Parsed A) (f : A → Option B) (i j : Bytes) (a : A) (b : B)
      → p i ≡ parsed j a
      → f a ≡ some b
      → map_res p f i ≡ parsed j b
  pub verify-true :
      {A : Type 0} (p : Bytes → Parsed A) (f : A → Bool) (i j : Bytes) (a : A)
      → p i ≡ parsed j a
      → f a ≡ true
      → verify p f i ≡ parsed j a
  pub verify-false :
      {A : Type 0} (p : Bytes → Parsed A) (f : A → Bool) (i j : Bytes) (a : A)
      → p i ≡ parsed j a
      → f a ≡ false
      → verify p f i ≡ failed
  pub count-zero : {A : Type 0} (p : Bytes → Parsed A) (i : Bytes) → count p 0 i ≡ parsed i []
  pub count-parsed :
      {A : Type 0} (p : Bytes → Parsed A) (n : ℕ) (i j k : Bytes) (a : A) (l : List A)
      → p i ≡ parsed j a
      → count p n j ≡ parsed k l
      → count p (suc n) i ≡ parsed k (a ∷ l)
  pub count-failed :
      {A : Type 0} (p : Bytes → Parsed A) (n : ℕ) (i : Bytes)
      → p i ≡ failed
      → count p (suc n) i ≡ failed

pub record BatchedMessage : Type 0 where
  pub metadata : SingleMessageMetadata
  pub payload : Bytes

module _ (w : Wire) (ps : Prost SingleMessageMetadata) where
  module _ (nom : Nom) where
    -- `payload_size >= 0` of an i32.
    abbrev pub size_is_positive : SingleMessageMetadata → Bool
    size_is_positive metadata = ltb metadata.payload_size (2 ^ 31)

    unfoldable pub batched_message : Bytes → Parsed BatchedMessage
    batched_message i = do
      (i, metadata_size) ← w.be_u32 i
      (i, metadata) ← nom.verify (nom.map_res (w.take metadata_size) ps.decode) size_is_positive i
      (i, payload) ← w.take metadata.payload_size i
      parsed i (record { metadata = metadata; payload = payload })

    abbrev pub all_parsed :
        Parsed (List BatchedMessage) → Result (List BatchedMessage) ConnectionError
    all_parsed (parsed i result) = ok result
    all_parsed failed = err decoding

    unfoldable pub parse_batched_message : ℕ → Bytes → Result (List BatchedMessage) ConnectionError
    parse_batched_message count payload = all_parsed (nom.count batched_message count payload)

  -- `serialize` appends to `buf`.
  unfoldable pub serialize : BatchedMessage → Bytes → Bytes
  serialize message buf =
      ((buf ++ w.put_u32 (ps.encoded_len message.metadata % 2 ^ 32)) ++ ps.encode message.metadata)
      ++ message.payload

  -- The loop over `serialize` in src/producer.rs.
  unfoldable pub serialize_all : List BatchedMessage → Bytes → Bytes
  unfolding serialize
  serialize_all [] buf = buf
  serialize_all (m ∷ ms) buf = serialize_all ms (serialize m buf)
