-- ===== src/Manager/Table.antt =====
-- The table of `ConnectionManager` in src/connection_manager.rs: what its methods do each time that
-- they hold the lock. A broker's address is any key, a connection and a oneshot channel are numbers.
pub mod Waiting
use pulsar_rs.Shared.{
  ℕ, Bool, true, false, Option, none, some, List, [], ◌∷◌, ◌++◌, map, if◌then◌else◌, Eq,
}
use pulsar_rs.Shared.Assoc
use pulsar_rs.Errors.{ConnectionError, Result, ok, err}

pub data ConnectionStatus : Type 0 where
  connected : ℕ → ConnectionStatus
  connecting : List ℕ → ConnectionStatus

-- What a task does after it held the lock.
pub data Next : Type 0 where
  return : ℕ → Next
  connect : Next
  wait : ℕ → Next

abbrev pub Table : Type 0 → Type 0
Table B = List (B × ConnectionStatus)

-- What is sent on the channels, in order.
abbrev pub Sent : Type 0
Sent = List (ℕ × Result ℕ ConnectionError)

-- The channels of the tasks that wait on the status.
abbrev pub waits : Option ConnectionStatus → List ℕ
waits none = []
waits (some (connected c)) = []
waits (some (connecting v)) = v

-- What `check_connections` keeps.
abbrev pub keeps : (ℕ → Bool) → ConnectionStatus → Bool
keeps keep (connecting v) = true
keeps keep (connected c) = keep c

module _ {B : Type 0} ⦃e : Eq B⦄ where
  -- `get_connection`, by what the table has for the broker; `tx` is the channel that the task makes.
  unfoldable pub on_status : (ℕ → Bool) → B → ℕ → Table B → Option ConnectionStatus → Next × Table B
  on_status is_valid broker tx t none = (connect, t)
  on_status is_valid broker tx t (some (connected c)) =
      (if is_valid c then return c else connect, t)
  on_status is_valid broker tx t (some (connecting v)) =
      (wait tx, Assoc.insert broker (connecting (v ++ tx ∷ [])) t)

  unfoldable pub get_connection : (ℕ → Bool) → B → ℕ → Table B → Next × Table B
  unfolding on_status
  get_connection is_valid broker tx t = on_status is_valid broker tx t (Assoc.lookup broker t)

  -- The start of `connect_inner`: the first task leaves an empty list, and a task that finds waiting
  -- ones waits with them.
  unfoldable pub on_entry : B → ℕ → Table B → Option ConnectionStatus → Next × Table B
  on_entry broker tx t none = (connect, Assoc.insert broker (connecting []) t)
  on_entry broker tx t (some (connected c)) = (connect, t)
  on_entry broker tx t (some (connecting [])) = (connect, t)
  on_entry broker tx t (some (connecting (x ∷ v))) =
      (wait tx, Assoc.insert broker (connecting ((x ∷ v) ++ tx ∷ [])) t)

  unfoldable pub connect_inner : B → ℕ → Table B → Next × Table B
  unfolding on_entry
  connect_inner broker tx t = on_entry broker tx t (Assoc.lookup broker t)

  -- The end of `connect` after an error, and after a connection was made.
  unfoldable pub connect_failed : B → Table B → Sent × Table B
  connect_failed broker t = (
    map (λ tx. (tx, err ConnectionError.canceled)) (waits (Assoc.lookup broker t)),
    Assoc.remove broker t,
  )

  unfoldable pub connect_succeeded : B → ℕ → Table B → Sent × Table B
  connect_succeeded broker c t =
      (map (λ tx. (tx, ok c)) (waits (Assoc.lookup broker t)), Assoc.insert broker (connected c) t)

  -- `check_connections`: a connection stays when it is valid and used elsewhere, as `keep` tells. With
  -- an entry all of its key go.
  unfoldable pub check_connections : (ℕ → Bool) → Table B → Table B
  check_connections keep [] = []
  check_connections keep ((broker, s) ∷ t) =
      if keeps keep s
      then (broker, s) ∷ check_connections keep t
      else Assoc.remove broker (check_connections keep t)
