-- ===== src/Errors/SharedError.antt =====
-- `SharedError` of src/error.rs: an error behind a lock, and a flag that says that one was set.
use pulsar_rs.Shared.{Bool, true, false, Option, none, some}
use pulsar_rs.Errors.Values.{ConnectionError}

pub record SharedError : Type 0 where
  pub error_set : Bool
  pub error : Option ConnectionError

abbrev pub new : SharedError
new = record { error_set = false; error = none }

abbrev pub is_set : SharedError → Bool
is_set s = s.error_set

-- `remove`: the error and what is left.
abbrev pub remove : SharedError → Option ConnectionError × SharedError
remove s = (s.error, record { error_set = false; error = none })

abbrev pub set : SharedError → ConnectionError → SharedError
set s e = record { error_set = true; error = some e }
