-- ===== src/Connection/Handshake/InOrder.antt =====
-- What the broker reads of a connection from its start.
use pulsar_rs.Shared.{
  ◌≡◌, refl, sym, ap, subst, ◌∙◌, ◌⊎◌, inl, inr, Bool, true, false, ◌&&◌, not, Option, none, some,
  List, [], ◌∷◌, ◌++◌, append-nil, is_some,
}
use pulsar_rs.Proto.{Bytes, Str, CommandConnected, CommandError}
use pulsar_rs.Errors.{ConnectionError, Result, ok, err, is_ok}
use pulsar_rs.Errors.SharedError
use pulsar_rs.Message.Key.{Message}
use pulsar_rs.Connection.Messages.{Authentication}
use pulsar_rs.Connection.Messages
use pulsar_rs.Connection.Receiver.{Receiver}
use pulsar_rs.Connection.Sender.{Sender}
use pulsar_rs.Connection.Handshake.{
  Framed, prepare_auth_data, named, on_writer, on_receiver, on_command, on_next, on_sent, connect,
  write_all, on_auth, prepare_stream,
}
use pulsar_rs.Connection.Handshake.Written.{message_of, if_sent, Logs, Split, write_all-Split}

abbrev pub is_welcome : Option CommandError → Option CommandConnected → Bool
is_welcome e c = not (is_some e) && is_some c

-- Whether the broker's answer is a `CommandConnected`.
abbrev pub accepting : Option (Result Message ConnectionError) → Bool
accepting none = false
accepting (some (err e)) = false
accepting (some (ok msg)) = is_welcome msg.command.error msg.command.connected

module _ {W : Type 0} {framed : Framed W} {written read : W → List Message}
    (logs : Logs framed written read) where
  -- The first message of the broker says that the connection is there.
  abbrev pub Accepts : List Message → List Message → Type 0
  Accepts before after =
      (msg : Message) × (after ≡ before ++ msg ∷ [])
      × (msg.command.error ≡ none)
      × (is_some msg.command.connected ≡ true)

  -- The broker's answer was not what it has to be, or the executor does not take a task.
  abbrev pub Fault : Type 0
  Fault = (w : W) × ((accepting (framed.next w).0 ≡ false) ⊎ ((framed.spawn w).0 ≡ false))

  -- What a connection that was made wrote and read, with the messages of its channel.
  abbrev pub InOrder :
      Message → W → List Message → Result (Sender × Receiver) ConnectionError × W → Type 0
  InOrder first start rx (err e, world) =
      ((written world ≡ written start) × (w : W) × (is_ok (framed.send w first).0 ≡ false))
      ⊎ ((written world ≡ written start ++ first ∷ []) × Fault)
  InOrder first start rx (ok (sender, receiver), world) =
      Accepts (read start) (read world)
      × Split logs (written start ++ first ∷ []) rx (write_all framed rx sender.error world)

  module _ (first : Message) (start : W) (rx : List Message) where
    -- The first message alone was written.
    abbrev Greeted : W → Type 0
    Greeted w = written w ≡ written start ++ first ∷ []

    on_writer-InOrder :
        (b : Bool) (w asked : W)
        → (framed.spawn asked).0 ≡ b
        → Greeted w
        → Accepts (read start) (read w)
        → InOrder first start rx (on_writer framed (b, w))
    on_writer-InOrder true w asked t g a = (
      a,
      subst (λ l. Split logs l rx (write_all framed rx SharedError.new w)) g
          (write_all-Split logs rx SharedError.new w refl),
    )
    on_writer-InOrder false w asked t g a = inr (g, (asked, inr t))

    on_receiver-InOrder :
        (b : Bool) (w asked : W)
        → (framed.spawn asked).0 ≡ b
        → Greeted w
        → Accepts (read start) (read w)
        → InOrder first start rx (on_receiver framed (b, w))
    on_receiver-InOrder true w asked t g a =
        on_writer-InOrder (framed.spawn w).0 (framed.spawn w).1 w refl (logs.spawn_written w ∙ g)
          (subst (Accepts (read start)) (sym (logs.spawn_read w)) a)
    on_receiver-InOrder false w asked t g a = inr (g, (asked, inr t))

    on_command-InOrder :
        (e : Option CommandError) (c : Option CommandConnected) (w : W)
        → (is_welcome e c ≡ false → Fault)
        → Greeted w
        → (e ≡ none → is_some c ≡ true → Accepts (read start) (read w))
        → InOrder first start rx (on_command framed e c w)
    on_command-InOrder (some e) c w f g a = inr (g, f refl)
    on_command-InOrder none none w f g a = inr (g, f refl)
    on_command-InOrder none (some c) w f g a =
        on_receiver-InOrder (framed.spawn w).0 (framed.spawn w).1 w refl (logs.spawn_written w ∙ g)
          (subst (Accepts (read start)) (sym (logs.spawn_read w)) (a refl refl))

    on_next-InOrder :
        (m : Option (Result Message ConnectionError)) (w asked : W)
        → (framed.next asked).0 ≡ m
        → Greeted w
        → read w ≡ read start ++ message_of m
        → InOrder first start rx (on_next framed (m, w))
    on_next-InOrder none w asked t g q = inr (g, (asked, inl (ap accepting t)))
    on_next-InOrder (some (err e)) w asked t g q = inr (g, (asked, inl (ap accepting t)))
    on_next-InOrder (some (ok msg)) w asked t g q =
        on_command-InOrder msg.command.error msg.command.connected w
          (λ f. (asked, inl (ap accepting t ∙ f))) g (λ u v. (msg, q, u, v))

    on_sent-InOrder :
        (r : Result (Unit {0}) ConnectionError) (w asked : W)
        → (framed.send asked first).0 ≡ r
        → written w ≡ written start ++ if_sent first r
        → read w ≡ read start
        → InOrder first start rx (on_sent framed (r, w))
    on_sent-InOrder (err e) w asked t g q = inl (g ∙ append-nil (written start), asked, ap is_ok t)
    on_sent-InOrder (ok u) w asked t g q =
        on_next-InOrder (framed.next w).0 (framed.next w).1 w refl (logs.next_written w ∙ g)
          (logs.next_read w ∙ ap (λ l. l ++ message_of (framed.next w).0) q)

  connect-InOrder :
      (auth : Option Authentication) (proxy_to_broker_url : Option Str) (start : W)
      (rx : List Message)
      → InOrder
          (Messages.connect auth proxy_to_broker_url)
          start
          rx
          (connect framed auth proxy_to_broker_url start)
  unfolding connect
  connect-InOrder auth proxy_to_broker_url start rx =
      let first = Messages.connect auth proxy_to_broker_url in
      on_sent-InOrder first start rx (framed.send start first).0 (framed.send start first).1 start
        refl (logs.send_written start first) (logs.send_read start first)

  -- The first message carries the name and the data of the authentication method, when there is one.
  abbrev pub Presents : Bool → Option Str → W → Message → Type 0
  Presents false proxy_to_broker_url start first = first ≡ Messages.connect none proxy_to_broker_url
  Presents true proxy_to_broker_url start first =
      (content : Bytes) × ((framed.auth_data start).0 ≡ ok content)
      × (first
          ≡ Messages.connect
              (some (record { name = framed.auth_method_name start; content = content }))
              proxy_to_broker_url)

  abbrev pub Begins :
      Bool → Option Str → W → List Message → Result (Sender × Receiver) ConnectionError × W → Type 0
  Begins auth proxy_to_broker_url start rx r =
      ((auth ≡ true)
        × (is_ok (framed.auth_data start).0 ≡ false)
        × (is_ok r.0 ≡ false)
        × (written r.1 ≡ written start))
      ⊎ ((first : Message) × Presents auth proxy_to_broker_url start first
          × InOrder first start rx r)

  -- `InOrder` looks at what was written and read before only.
  InOrder-start :
      (first : Message) (start now : W) (rx : List Message)
      (r : Result (Sender × Receiver) ConnectionError × W)
      → written now ≡ written start
      → read now ≡ read start
      → InOrder first now rx r
      → InOrder first start rx r
  InOrder-start first start now rx (err e, w) p q (inl (u, w0, f)) = inl (u ∙ p, w0, f)
  InOrder-start first start now rx (err e, w) p q (inr (u, f)) =
      inr (u ∙ ap (λ l. l ++ first ∷ []) p, f)
  InOrder-start first start now rx (ok (sender, receiver), w) p q (a, s) = (
    subst (λ l. Accepts l (read w)) q a,
    subst (λ l. Split logs (l ++ first ∷ []) rx (write_all framed rx sender.error w)) p s,
  )

  on_auth-Begins :
      (proxy_to_broker_url : Option Str) (start : W) (rx : List Message)
      (r : Result Bytes ConnectionError) (now : W)
      → (framed.auth_data start).0 ≡ r
      → written now ≡ written start
      → read now ≡ read start
      → Begins true proxy_to_broker_url start rx (
          on_auth framed proxy_to_broker_url
            (named framed (framed.auth_method_name start) (r, now)))
  on_auth-Begins proxy_to_broker_url start rx (err e) now a p q = inl (refl, ap is_ok a, refl, p)
  on_auth-Begins proxy_to_broker_url start rx (ok content) now a p q =
      let auth = some (record { name = framed.auth_method_name start; content = content }) in
      let first = Messages.connect auth proxy_to_broker_url in
      inr (
        first,
        (content, a, refl),
        InOrder-start first start now rx (connect framed auth proxy_to_broker_url now) p q
            (connect-InOrder auth proxy_to_broker_url now rx),
      )

  -- What the making of a connection writes and reads, over every outside world that logs it. Either the
  -- authentication data cannot be had, and it fails before anything is written, or the first message is
  -- `CommandConnect` with the method's name and data, if there is a method. It then fails only when that
  -- message is refused, and nothing was written, or, after it was written, when the broker's answer has
  -- an error or no `CommandConnected` or does not come, or the executor does not take a task. When it
  -- succeeds, the broker's first message had no error and a `CommandConnected`, nothing else was read,
  -- and the task that writes puts a first part of the messages of its channel after `CommandConnect`, in
  -- order: all of them with no error set, or those before the first that was refused, and then the
  -- connection's error is set.
  pub prepare_stream-Begins :
      (auth : Bool) (proxy_to_broker_url : Option Str) (start : W) (rx : List Message)
      → Begins auth proxy_to_broker_url start rx
          (prepare_stream framed auth proxy_to_broker_url start)
  unfolding prepare_stream prepare_auth_data
  prepare_stream-Begins false proxy_to_broker_url start rx = inr (
    Messages.connect none proxy_to_broker_url,
    refl,
    connect-InOrder none proxy_to_broker_url start rx,
  )
  prepare_stream-Begins true proxy_to_broker_url start rx =
      on_auth-Begins proxy_to_broker_url start rx (framed.auth_data start).0
        (framed.auth_data start).1 refl (logs.auth_written start) (logs.auth_read start)
