-- ===== src/Tests/Receiver.antt =====
-- The receiver of a connection on a few registrations and messages.
use mathlib.Core.List.{Mem}
use pulsar_rs.Shared.{◌+◌, ◌≡◌, ◌≤◌, refl, false, some, none, List, [], ◌∷◌, All, nat_eq}
use pulsar_rs.Shared.Assoc
use pulsar_rs.Proto.{command_of_type}
use pulsar_rs.Errors.SharedError
use pulsar_rs.Message.Key.{Message, request_id, request_key}
use pulsar_rs.Connection.Messages
use pulsar_rs.Connection.Receiver.{
  Receiver, new, request, ping_request, resolve, on_register, on_message, item, closed, message,
  Polled, Inbound, inbound_loop, poll, Register,
}
use pulsar_rs.Connection.Receiver.Rule.{Input, run}
use pulsar_rs.Connection.Receiver.Pairing.{IsAnswer, to_request, pairing_either_order}
use pulsar_rs.Connection.Receiver.Disjoint.{IsDisjoint, run-IsDisjoint}
use pulsar_rs.Connection.Receiver.Origin.{Origin}
use pulsar_rs.Connection.Receiver.History.{registered, arrived, messages_of, run-Origin}
use pulsar_rs.Connection.Receiver.Once.{resolutions, waiting, requests, run-once}
use pulsar_rs.Connection.Receiver.Stop.{Reports, poll-Reports}
use pulsar_rs.Connection.Receiver.Heartbeat.{outbounds, pings, replicate, inbound_loop-pongs}

abbrev idle : Receiver
idle = new SharedError.new

-- The answer to request 5.
abbrev answer : Message
answer = record {
  command = record (command_of_type 13) { success = some (record { request_id = 5 }) };
  payload = none;
}

answer-IsAnswer : IsAnswer answer (request_id 5)
unfolding request_key
answer-IsAnswer = to_request 5 refl refl refl

pairing_either_order_example :
    ((on_register idle (request (request_id 5) 1)).1 ≡ [])
    × (on_message (on_register idle (request (request_id 5) 1)).0 answer
        ≡ (idle, resolve 1 answer ∷ []))
    × ((on_message idle answer).1 ≡ [])
    × (on_register (on_message idle answer).0 (request (request_id 5) 1)
        ≡ (idle, resolve 1 answer ∷ []))
unfolding Assoc.lookup
pairing_either_order_example =
    pairing_either_order idle (request_id 5) 1 answer answer-IsAnswer refl refl

-- A request and a ping in a first poll, their answers and a broker's ping in a second.
abbrev registrations : List (Polled Register)
registrations = item (request (request_id 5) 1) ∷ item (ping_request 2) ∷ []

abbrev inbound : List (Polled Inbound)
inbound = item (message answer) ∷ item (message Messages.ping) ∷ item (message Messages.pong) ∷ []

abbrev inputs : List Input
inputs =
    record { down = false; regs = registrations; msgs = [] }
    ∷ record { down = false; regs = []; msgs = inbound }
    ∷ []

run-IsDisjoint_example : IsDisjoint (run idle inputs).0
run-IsDisjoint_example = run-IsDisjoint SharedError.new inputs

run-Origin_example :
    All
      (Origin (λ reg. Mem reg (registered inputs)) (λ m. Mem m (arrived inputs)))
      (run idle inputs).1
run-Origin_example = run-Origin SharedError.new inputs

run-once_example :
    resolutions 1 (run idle inputs).1 + waiting 1 (run idle inputs).0.pending_requests
    ≤ requests 1 (registered inputs)
run-once_example = run-once SharedError.new inputs 1

poll-Reports_example :
    Reports SharedError.new
      (poll idle false registrations (closed ∷ [])).0
      (poll idle false registrations (closed ∷ [])).1.error
poll-Reports_example = poll-Reports idle registrations (closed ∷ [])

inbound_loop-pongs_example :
    outbounds (inbound_loop idle inbound).2 ≡ replicate (pings (messages_of inbound)) Messages.pong
inbound_loop-pongs_example = inbound_loop-pongs idle inbound
