-- ===== src/Tests/Sender.antt =====
-- The sender of a connection on a few calls.
use pulsar_rs.Shared.{◌≡◌, ◌≢◌, ◌↔◌, arith, refl, true, false, some, none, [], ◌∷◌}
use pulsar_rs.Errors.{ok}
use pulsar_rs.Errors.SharedError
use pulsar_rs.Message.Key.{Message, request_id}
use pulsar_rs.Connection.Messages
use pulsar_rs.Connection.Sender.{Sender, Env, answered, canceled, send_message}
use pulsar_rs.Connection.Sender.Ids.{nth, nth-distinct}
use pulsar_rs.Connection.Sender.Outcome.{send_message-ok}
use pulsar_rs.Connection.Sender.Keys.{after, lookup_topic, SendsKeyed, after-SendsKeyed}

abbrev sender : Sender
sender = record {
  request_id = 0;
  next_channel = 0;
  error = SharedError.new;
  registrations = [];
  tx = [];
}

abbrev open_env : Env
open_env = record { registrations_open = true; tx_open = true; response = answered Messages.pong }

abbrev dropped_env : Env
dropped_env = record { registrations_open = true; tx_open = true; response = canceled }

nth-distinct_example : nth 3 sender ≢ nth 8 sender
nth-distinct_example = nth-distinct sender 3 8 (omega arith) (omega arith) (omega arith)

send_message-ok_example :
    ((send_message sender open_env Messages.ping (request_id 0) (λ c. some c.type_)).0 ≡ ok 19) ↔ (
      (true ≡ true)
      × (true ≡ true)
      × ((m : Message) × (answered Messages.pong ≡ answered m)
          × (m.command.error ≡ none)
          × (some m.command.type_ ≡ some 19)))
send_message-ok_example =
    send_message-ok sender open_env Messages.ping (request_id 0) (λ c. some c.type_) 19

after-SendsKeyed_example : SendsKeyed sender (after (lookup_topic (116 ∷ []) false) sender open_env)
after-SendsKeyed_example =
    after-SendsKeyed (lookup_topic (116 ∷ []) false) sender open_env refl refl
