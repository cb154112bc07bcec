-- ===== src/Connection/Handshake/Written.antt =====
-- What the task that writes leaves of the messages of its channel, over an outside world that logs what
-- is written and read.
use pulsar_rs.Shared.{
  ◌≡◌, refl, sym, ap, subst, ◌∙◌, true, false, Option, none, some, List, [], ◌∷◌, ◌++◌,
  append_assoc, append-nil,
}
use pulsar_rs.Errors.{ConnectionError, Result, ok, err}
use pulsar_rs.Errors.SharedError.{SharedError}
use pulsar_rs.Errors.SharedError
use pulsar_rs.Message.Key.{Message}
use pulsar_rs.Connection.Handshake.{Framed, on_written, write_all}

abbrev pub message_of : Option (Result Message ConnectionError) → List Message
message_of (some (ok m)) = m ∷ []
message_of (some (err e)) = []
message_of none = []

abbrev pub if_sent : Message → Result (Unit {0}) ConnectionError → List Message
if_sent m (ok u) = m ∷ []
if_sent m (err e) = []

-- A sink takes a message or gives an error, a stream gives messages one by one, and the rest of the
-- world does not touch what was written and read.
pub record Logs {W : Type 0} (framed : Framed W) (written read : W → List Message) : Type 0 where
  pub send_written :
      (w : W) (m : Message)
      → written (framed.send w m).1 ≡ written w ++ if_sent m (framed.send w m).0
  pub send_read : (w : W) (m : Message) → read (framed.send w m).1 ≡ read w
  pub next_written : (w : W) → written (framed.next w).1 ≡ written w
  pub next_read : (w : W) → read (framed.next w).1 ≡ read w ++ message_of (framed.next w).0
  pub spawn_written : (w : W) → written (framed.spawn w).1 ≡ written w
  pub spawn_read : (w : W) → read (framed.spawn w).1 ≡ read w
  pub auth_written : (w : W) → written (framed.auth_data w).1 ≡ written w
  pub auth_read : (w : W) → read (framed.auth_data w).1 ≡ read w

-- Whether the task stopped with messages left, and the error of the connection.
abbrev pub Stopped : List Message → SharedError → Type 0
Stopped [] error = SharedError.is_set error ≡ false
Stopped (m ∷ left) error = SharedError.is_set error ≡ true

module _ {W : Type 0} {framed : Framed W} {written read : W → List Message}
    (logs : Logs framed written read) where
  -- The first of the messages were written, and all unless one was refused.
  abbrev pub Split : List Message → List Message → SharedError × W → Type 0
  Split before rx (error, after) =
      (taken : List Message) × (left : List Message) × (taken ++ left ≡ rx)
      × (written after ≡ before ++ taken)
      × Stopped left error

  -- One more message at the front.
  Split-front :
      (before : List Message) (m : Message) (rx : List Message) (r : SharedError × W)
      → Split (before ++ m ∷ []) rx r
      → Split before (m ∷ rx) r
  Split-front before m rx (error, after) (taken, left, p, q, s) =
      (m ∷ taken, left, ap (λ l. m ∷ l) p, q ∙ append_assoc before (m ∷ []) taken, s)

  on_written-Split :
      (m : Message) (rx : List Message) (error : SharedError) (before : List Message)
      (r : Result (Unit {0}) ConnectionError) (w : W)
      → written w ≡ before ++ if_sent m r
      → ((w : W) → Split (written w) rx (write_all framed rx error w))
      → Split before (m ∷ rx) (on_written framed (write_all framed rx error) error (r, w))
  on_written-Split m rx error before (ok u) w q h =
      Split-front before m rx (write_all framed rx error w)
        (subst (λ l. Split l rx (write_all framed rx error w)) q (h w))
  on_written-Split m rx error before (err e) w q h = ([], m ∷ rx, refl, q, refl)

  pub write_all-Split :
      (rx : List Message) (error : SharedError) (w : W)
      → SharedError.is_set error ≡ false
      → Split (written w) rx (write_all framed rx error w)
  unfolding write_all
  write_all-Split [] error w u = ([], [], refl, sym (append-nil (written w)), u)
  write_all-Split (m ∷ rx) error w u =
      on_written-Split m rx error (written w) (framed.send w m).0 (framed.send w m).1
        (logs.send_written w m) (λ w. write_all-Split rx error w u)
