-- ===== src/Errors/Server.antt =====
-- `ServerError` of PulsarApi.proto and `server_error` of src/error.rs.
use pulsar_rs.Shared.{arith, nat_eq, ℕ, Option, some, List, [], ◌∷◌, ◌≡◌, ◌↔◌, refl, subst}
use pulsar_rs.Shared.Assoc

pub data ServerError : Type 0 where
  unknown_error metadata_error persistence_error authentication_error authorization_error
        consumer_busy service_not_ready producer_blocked_quota_exceeded_error
        producer_blocked_quota_exceeded_exception checksum_error unsupported_version_error
        topic_not_found subscription_not_found consumer_not_found too_many_requests
        topic_terminated_error producer_busy invalid_topic_name incompatible_schema
        consumer_assign_error transaction_coordinator_not_found invalid_txn_status not_allowed_error
        transaction_conflict transaction_not_found producer_fenced :
      ServerError

-- The number of an error in PulsarApi.proto.
unfoldable pub error_number : ServerError → ℕ
error_number unknown_error = 0
error_number metadata_error = 1
error_number persistence_error = 2
error_number authentication_error = 3
error_number authorization_error = 4
error_number consumer_busy = 5
error_number service_not_ready = 6
error_number producer_blocked_quota_exceeded_error = 7
error_number producer_blocked_quota_exceeded_exception = 8
error_number checksum_error = 9
error_number unsupported_version_error = 10
error_number topic_not_found = 11
error_number subscription_not_found = 12
error_number consumer_not_found = 13
error_number too_many_requests = 14
error_number topic_terminated_error = 15
error_number producer_busy = 16
error_number invalid_topic_name = 17
error_number incompatible_schema = 18
error_number consumer_assign_error = 19
error_number transaction_coordinator_not_found = 20
error_number invalid_txn_status = 21
error_number not_allowed_error = 22
error_number transaction_conflict = 23
error_number transaction_not_found = 24
error_number producer_fenced = 25

-- The arms of the match in `server_error`, in order.
abbrev pub error_table : List (ℕ × ServerError)
error_table =
    (0, unknown_error)
    ∷ (1, metadata_error)
    ∷ (2, persistence_error)
    ∷ (3, authentication_error)
    ∷ (4, authorization_error)
    ∷ (5, consumer_busy)
    ∷ (6, service_not_ready)
    ∷ (7, producer_blocked_quota_exceeded_error)
    ∷ (8, producer_blocked_quota_exceeded_exception)
    ∷ (9, checksum_error)
    ∷ (10, unsupported_version_error)
    ∷ (11, topic_not_found)
    ∷ (12, subscription_not_found)
    ∷ (13, consumer_not_found)
    ∷ (14, too_many_requests)
    ∷ (15, topic_terminated_error)
    ∷ (16, producer_busy)
    ∷ (17, invalid_topic_name)
    ∷ (18, incompatible_schema)
    ∷ (19, consumer_assign_error)
    ∷ (20, transaction_coordinator_not_found)
    ∷ (21, invalid_txn_status)
    ∷ (22, not_allowed_error)
    ∷ (23, transaction_conflict)
    ∷ (24, transaction_not_found)
    ∷ (25, producer_fenced)
    ∷ []

unfoldable pub server_error : ℕ → Option ServerError
unfolding Assoc.lookup
server_error i = Assoc.lookup i error_table

-- The entries of the table carry the numbers of PulsarApi.proto.
error_table-Numbered : Assoc.Entries (λ n t. error_number t ≡ n) error_table
unfolding error_number
error_table-Numbered = ground arith

server_error-error_number : (t : ServerError) → server_error (error_number t) ≡ some t
unfolding server_error error_number Assoc.lookup
server_error-error_number unknown_error = refl
server_error-error_number metadata_error = refl
server_error-error_number persistence_error = refl
server_error-error_number authentication_error = refl
server_error-error_number authorization_error = refl
server_error-error_number consumer_busy = refl
server_error-error_number service_not_ready = refl
server_error-error_number producer_blocked_quota_exceeded_error = refl
server_error-error_number producer_blocked_quota_exceeded_exception = refl
server_error-error_number checksum_error = refl
server_error-error_number unsupported_version_error = refl
server_error-error_number topic_not_found = refl
server_error-error_number subscription_not_found = refl
server_error-error_number consumer_not_found = refl
server_error-error_number too_many_requests = refl
server_error-error_number topic_terminated_error = refl
server_error-error_number producer_busy = refl
server_error-error_number invalid_topic_name = refl
server_error-error_number incompatible_schema = refl
server_error-error_number consumer_assign_error = refl
server_error-error_number transaction_coordinator_not_found = refl
server_error-error_number invalid_txn_status = refl
server_error-error_number not_allowed_error = refl
server_error-error_number transaction_conflict = refl
server_error-error_number transaction_not_found = refl
server_error-error_number producer_fenced = refl

-- The number of a server error is read back as this error, and a number is read as an error only when
-- it is the number of this error.
pub server_error_iff : (n : ℕ) (t : ServerError) → (server_error n ≡ some t) ↔ (error_number t ≡ n)
unfolding server_error
server_error_iff n t = (
  λ q. Assoc.Entries-lookup (λ n t. error_number t ≡ n) n error_table error_table-Numbered q,
  λ q. subst (λ n. server_error n ≡ some t) q (server_error-error_number t),
)
