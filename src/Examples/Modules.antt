-- ===== src/Examples/Modules.antt =====
-- Modules of a small workshop: bffhd/initiators and bffhd/actors.
use fabaccess_server.Prelude.{
  ℕ, ◌+◌, ◌<◌, ◌≡◌, refl, true, false, Option, none, some, List, [], ◌∷◌, length, Str, codes,
  lookup, arith,
}
use fabaccess_server.Resources.Machine.{free, MachineState, free_state}
use fabaccess_server.Utils.Linebuffer.{LineBuffer}
use fabaccess_server.Initiators.Process.{Text, Process}
use fabaccess_server.Actors.Driver
use fabaccess_server.Actors.Driver.{
  Change, unchanged, changed, Parts, ActorDriver, new_driver, started, completed,
}
use fabaccess_server.Actors.Driver.Polls.{IsOrderly, Stops, poll-Stops, poll_returns}
use fabaccess_server.Loading.{or_then, load}
use fabaccess_server.Loading.Started.{lookup-load}

abbrev held : Str → LineBuffer
held s = record { buffer = s; valid = length s }

-- Every line is a message that frees the machine.
abbrev frees : Text
frees = record { is_blank = λ line. false; message_from_str = λ line. some free }

abbrev child : Str → Process
child s = record {
  attached = true;
  buffer = held s;
  err_buffer = held (codes "err");
  stderr_closed = false;
}

abbrev two_lines : Str
two_lines = b'a' ∷ b'\n' ∷ b'b' ∷ b'\n' ∷ []

abbrev one_line : Str
one_line = b'a' ∷ b'\n' ∷ []

-- A signal with two changes to come, and an actor that is done at once.
abbrev next_change : List MachineState → List MachineState × Change
next_change [] = ([], unchanged)
next_change (state ∷ states) = (states, changed state)

abbrev quick : Parts
quick = record {
  Actor = ℕ;
  ApplyFuture = ℕ;
  Signal = List MachineState;
  apply = λ actor state. (actor + 1, actor);
  poll_future = λ future. (future, true);
  poll_change = next_change;
}

abbrev fresh : ActorDriver quick
fresh = new_driver quick (free_state none ∷ free_state none ∷ []) 0

abbrev settled : ActorDriver quick
settled = record {
  signal = [];
  actor = 2;
  future = none;
  log = completed ∷ started (free_state none) ∷ completed ∷ started (free_state none) ∷ [];
}

poll-Stops_example : IsOrderly quick settled × Stops quick settled Driver.pending
unfolding Driver.poll new_driver free_state
poll-Stops_example = poll-Stops quick 5 fresh settled Driver.pending tt refl

falls :
    (s s' : List MachineState) (state : MachineState)
    → next_change s ≡ (s', changed state)
    → length s' < length s
falls [] s' state h = cc
falls (x ∷ s) s' state h = let same : s ≡ s' = cc in rw (← same) (omega arith)

poll_returns_example :
    (d' : ActorDriver quick) × (outcome : Driver.Poll) × (Driver.poll quick 3 fresh
      ≡ some (d', outcome))
unfolding new_driver
poll_returns_example = poll_returns quick length falls 3 fresh (omega arith)

abbrev connections : List (Str × Str)
connections = (codes "lamp", codes "mill") ∷ []

abbrev configs : List (Str × ℕ)
configs = (codes "lamp", 1) ∷ []

abbrev machine : Str → Option ℕ
machine id = lookup ((codes "mill", 5) ∷ []) id

abbrev start : Str → ℕ → ℕ → Option ℕ
start name config r = some (config + r)

lookup-load_example :
    lookup (load machine start connections configs) (codes "lamp")
    ≡ or_then (lookup configs (codes "lamp")) (λ config.
      or_then
        (lookup connections (codes "lamp"))
        (λ id. or_then (machine id) (λ r. start (codes "lamp") config r)))
lookup-load_example =
    lookup-load machine start connections configs (codes "lamp") (refl, tt) (refl, tt)
