-- ===== src/Actors/Process/Arguments.antt =====
-- The command that is run tells the state, and who it names.
use fabaccess_server.Prelude.{
  ◌≡◌, refl, sym, ap, ◌∙◌, ◌==◌, if◌then◌else◌, Option, none, some, List, [], ◌∷◌, Str, length,
  drop, drop-append_length,
}
use fabaccess_server.Resources.Machine.{Status, free, disabled, in_use, to_check, blocked, reserved}
use fabaccess_server.Actors.Process.{Process, status_args, command}

-- The status that the arguments name, by the first letter.
read_status : List Str → Option Status
read_status ((c ∷ _) ∷ []) = if c == b'f' then some free else some disabled
read_status ((c ∷ _) ∷ by ∷ []) =
    if c == b'i'
    then some (in_use by)
    else if c == b't'
    then some (to_check by)
    else if c == b'b'
    then some (blocked by)
    else some (reserved by)
read_status _ = none

read_status-status_args : (s : Status) → read_status (status_args s) ≡ some s
unfolding read_status status_args
read_status-status_args free = refl
read_status-status_args disabled = refl
read_status-status_args (in_use by) = refl
read_status-status_args (to_check by) = refl
read_status-status_args (blocked by) = refl
read_status-status_args (reserved by) = refl

status_args-injective : (s t : Status) → status_args s ≡ status_args t → s ≡ t
status_args-injective s t h =
    let read : some s ≡ some t =
      sym (read_status-status_args s) ∙ ap read_status h ∙ read_status-status_args t in
    cc

-- The command tells the states apart.
pub command-injective : (p : Process) (s t : Status) → command p s ≡ command p t → s ≡ t
unfolding command
command-injective p s t h =
    let tails : p.name ∷ status_args s ≡ p.name ∷ status_args t =
      sym (drop-append_length p.args (p.name ∷ status_args s))
      ∙ ap (λ (c : Str × List Str). drop (length p.args) c.1) h
      ∙ drop-append_length p.args (p.name ∷ status_args t) in
    status_args-injective s t (ap (drop 1) tails)
