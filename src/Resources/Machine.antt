-- ===== src/Resources/Machine.antt =====
-- The state of a machine: bffhd/resources/modules/fabaccess.rs.
use fabaccess_server.Prelude.{Option, none, some, Str}

-- A user is referred to by its id.
abbrev pub UserRef : Type 0
UserRef = Str

pub data Status : Type 0 where
  free disabled : Status
  in_use to_check blocked reserved : UserRef → Status

pub record MachineState : Type 0 where
  pub state : Status
  pub previous : Option UserRef

unfoldable pub new_state : MachineState
new_state = record { state = free; previous = none }

-- The constructors of a machine state, each for one status.
unfoldable pub free_state : Option UserRef → MachineState
free_state previous = record { state = free; previous = previous }

unfoldable pub used_state : UserRef → Option UserRef → MachineState
used_state user previous = record { state = in_use user; previous = previous }

unfoldable pub blocked_state : UserRef → Option UserRef → MachineState
blocked_state user previous = record { state = blocked user; previous = previous }

unfoldable pub disabled_state : Option UserRef → MachineState
disabled_state previous = record { state = disabled; previous = previous }

unfoldable pub reserved_state : UserRef → Option UserRef → MachineState
reserved_state user previous = record { state = reserved user; previous = previous }

unfoldable pub check_state : UserRef → MachineState
check_state user = record { state = to_check user; previous = some user }

-- The user that a status names, as `get_current_user` and `is_owned_by` read it.
unfoldable pub status_user : Status → Option UserRef
status_user free = none
status_user disabled = none
status_user (in_use user) = some user
status_user (to_check user) = some user
status_user (blocked user) = some user
status_user (reserved user) = some user
