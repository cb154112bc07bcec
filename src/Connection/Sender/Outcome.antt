-- ===== src/Connection/Sender/Outcome.antt =====
-- When a request succeeds.
use pulsar_rs.Shared.{
  ◌≡◌, refl, ◌↔◌, Bool, true, false, ◌&&◌, Option, none, some, arith, if◌then◌else◌,
}
use pulsar_rs.Proto.{BaseCommand}
use pulsar_rs.Message.Key.{Message, RequestKey}
use pulsar_rs.Errors.{ConnectionError, Result, ok, err}
use pulsar_rs.Connection.Receiver.{request}
use pulsar_rs.Connection.Sender.{
  Sender, Env, Response, answered, canceled, timeout, extract_message, register, transmit,
  send_message, await_response,
}

module _ {R : Type 0} (extract : BaseCommand → Option R) (a : R) where
  extract_message-ok :
      (m : Message)
      → (extract_message m extract ≡ ok a)
        ↔ ((m.command.error ≡ none) × (extract m.command ≡ some a))
  unfolding extract_message
  extract_message-ok m = ground arith

  await_response-ok :
      (s : Sender) (w : Response)
      → ((await_response s w extract).0 ≡ ok a) ↔ (
          (m : Message) × (w ≡ answered m)
          × (m.command.error ≡ none)
          × (extract m.command ≡ some a))
  unfolding await_response
  await_response-ok s (answered m) = (
    λ h. let (e, x) = (extract_message-ok m).0 h in (m, refl, e, x),
    λ t. ground (arith, extract_message-ok m),
  )
  await_response-ok s canceled = (λ h. cc, λ t. cc)
  await_response-ok s timeout = (λ h. cc, λ t. cc)

  gated-ok :
      (b c : Bool) (t : Result R ConnectionError × Sender) (s : Sender)
      → ((if b && c then t else (err ConnectionError.disconnected, s)).0 ≡ ok a)
        ↔ ((b ≡ true) × (c ≡ true) × (t.0 ≡ ok a))
  gated-ok true true t s = (λ h. (refl, refl, h), λ h. h.2)
  gated-ok true false t s = (λ h. cc, λ h. cc)
  gated-ok false c t s = (λ h. cc, λ h. cc)

-- A request succeeds with a value exactly when both of the receiver's channels take it and the wait
-- ends with a message that carries no error and from which the value is extracted.
pub send_message-ok :
    {R : Type 0} (s : Sender) (env : Env) (msg : Message) (key : RequestKey)
    (extract : BaseCommand → Option R) (a : R)
    → ((send_message s env msg key extract).0 ≡ ok a) ↔ (
        (env.registrations_open ≡ true)
        × (env.tx_open ≡ true)
        × ((m : Message) × (env.response ≡ answered m)
            × (m.command.error ≡ none)
            × (extract m.command ≡ some a)))
unfolding send_message
send_message-ok s env msg key extract a =
    let gate =
      gated-ok extract a env.registrations_open env.tx_open
        (await_response (transmit (register s env (request key)) env msg) env.response extract)
        (transmit (register s env (request key)) env msg) in
    let wait =
      await_response-ok extract a (transmit (register s env (request key)) env msg) env.response in
    (λ h. let (b, c, t) = gate.0 h in (b, c, wait.0 t), λ h. gate.1 (h.0, h.1, wait.1 h.2))
