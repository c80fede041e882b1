-- ===== src/Actors/Process.antt =====
-- The process actor, bffhd/actors/process.rs: a command is run for every state.
pub mod Arguments
use fabaccess_server.Prelude.{Option, none, some, List, [], ◌∷◌, ◌++◌, lookup, Str, codes}
use fabaccess_server.Resources.Machine.{
  UserRef, Status, free, disabled, in_use, to_check, blocked, reserved,
}

pub record Process : Type 0 where
  pub name : Str
  pub cmd : Str
  pub args : List Str

-- `Process::new`, with `str::split_whitespace`.
unfoldable pub new_process : (Str → List Str) → Str → List (Str × Str) → Option Process
new_process split_whitespace name params = elim (lookup params (codes "cmd")) [
  | none ↦ none
  | some cmd ↦ some (record {
    name = name;
    cmd = cmd;
    args = elim (lookup params (codes "args")) [ none ↦ [] | some argv ↦ split_whitespace argv ];
  })
]

unfoldable pub status_args : Status → List Str
status_args free = codes "free" ∷ []
status_args (in_use by) = codes "inuse" ∷ by ∷ []
status_args (to_check by) = codes "tocheck" ∷ by ∷ []
status_args (blocked by) = codes "blocked" ∷ by ∷ []
status_args disabled = codes "disabled" ∷ []
status_args (reserved by) = codes "reserved" ∷ by ∷ []

-- The command that `apply` runs, with its arguments.
unfoldable pub command : Process → Status → Str × List Str
unfolding status_args
command p status = (p.cmd, p.args ++ p.name ∷ status_args status)
