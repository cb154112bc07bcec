-- ===== src/Producer/Topics/SendAll.antt =====
-- `send_all` loses no result.
use pulsar_rs.Shared.{
  ℕ, ◌≡◌, refl, ap, true, false, List, [], ◌∷◌, map, Bool-cases, inl, inr, arith,
}
use pulsar_rs.Proto.{Str}
use pulsar_rs.Errors.{
  Error, ProducerError, producer_error, Sends, done, sent, failed, Result, ok, err,
}
use pulsar_rs.Producer.Topics.{
  Producers, all_ok, unwrapped, as_sends, collect, send_each, MultiTopicProducer, send, send_all,
  send_with, send_all_with,
}

-- The results in the error of a partial send.
abbrev pub results_of : Sends → List (Result ℕ Error)
results_of done = []
results_of (sent n sends) = ok n ∷ results_of sends
results_of (failed e sends) = err e ∷ results_of sends

-- What the caller gets tells the result of every send: all futures, or an error with every result, of
-- which one is an error.
abbrev pub Tells : Result (List ℕ) Error → List (Result ℕ Error) → Type 0
Tells (ok ns) sends = map (λ n. ok n) ns ≡ sends
Tells (err e) sends =
    (s : Sends) × (e ≡ producer_error (ProducerError.partial_send s))
    × (results_of s ≡ sends)
    × (all_ok sends ≡ false)

unwrapped-all_ok :
    (sends : List (Result ℕ Error))
    → all_ok sends ≡ true
    → map (λ n. ok n) (unwrapped sends) ≡ sends
unwrapped-all_ok [] h = refl
unwrapped-all_ok (ok n ∷ sends) h = ap (◌∷◌ (ok n)) (unwrapped-all_ok sends h)
unwrapped-all_ok (err e ∷ sends) h = absurd (ground (arith, h))

results_of-as_sends : (sends : List (Result ℕ Error)) → results_of (as_sends sends) ≡ sends
results_of-as_sends [] = refl
results_of-as_sends (ok n ∷ sends) = ap (◌∷◌ (ok n)) (results_of-as_sends sends)
results_of-as_sends (err e ∷ sends) = ap (◌∷◌ (err e)) (results_of-as_sends sends)

collect-Tells : (sends : List (Result ℕ Error)) → Tells (collect sends) sends
unfolding collect
collect-Tells sends = elim (Bool-cases (all_ok sends)) [
  | inl t ↦ rw t (unwrapped-all_ok sends t)
  | inr t ↦ rw t (as_sends sends, refl, results_of-as_sends sends, t)
]

-- The messages are sent one after the other, each from the state that the one before left, and these
-- are the results, whether a send fails or not.
pub data SentAll {S M : Type 0} (send : M → S → Result ℕ Error × S)
    : List M → S → List (Result ℕ Error) → S → Type 0 where
  nothing : (s : S) → SentAll send [] s [] s
  one_more :
      (m : M) (messages : List M) (s next end : S) (r : Result ℕ Error)
      (sends : List (Result ℕ Error))
      → send m s ≡ (r, next)
      → SentAll send messages next sends end
      → SentAll send (m ∷ messages) s (r ∷ sends) end

send_each-SentAll :
    {S M : Type 0} (send : M → S → Result ℕ Error × S) (messages : List M) (s : S)
    → SentAll send messages s (send_each send messages s).0 (send_each send messages s).1
send_each-SentAll send [] s = nothing s
send_each-SentAll send (m ∷ messages) s =
    one_more m messages s (send m s).1 _ (send m s).0 _ refl
      (send_each-SentAll send messages (send m s).1)

-- Every message was sent, and the caller is told all results.
abbrev pub Answers :
    {S M : Type 0} → (M → S → Result ℕ Error × S) → List M → S → Result (List ℕ) Error × S → Type 0
Answers send messages s (r, end) =
    (sends : List (Result ℕ Error)) × SentAll send messages s sends end × Tells r sends

answered :
    {S M : Type 0} (send : M → S → Result ℕ Error × S) (messages : List M) (s : S)
    → Answers send messages s (collect (send_each send messages s).0, (send_each send messages s).1)
answered send messages s = (
  (send_each send messages s).0,
  send_each-SentAll send messages s,
  collect-Tells (send_each send messages s).0,
)

module _ {W P M : Type 0} (out : Producers W P M) where
  -- Both kinds of producers send every message of `send_all`, in order and also after one failed, and
  -- what is returned tells the result of each send, in the same order: the futures of all, or, if one
  -- failed, an error that holds all results.
  pub send_all-Tells :
      (topic : Str) (messages : List M) (m : MultiTopicProducer out) (p : P) (world : W)
      → Answers (send out topic) messages m (send_all out topic messages m)
        × Answers (send_with out) messages (p, world) (send_all_with out messages (p, world))
  unfolding send_all send_all_with
  send_all-Tells topic messages m p world =
      (answered (send out topic) messages m, answered (send_with out) messages (p, world))
