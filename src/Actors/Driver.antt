-- ===== src/Actors/Driver.antt =====
-- The driver of an actor, `ActorDriver` of bffhd/actors/mod.rs, and the connection to the MQTT server.
pub mod Polls
use fabaccess_server.Prelude.{
  ℕ, zero, suc, Bool, true, false, Option, none, some, List, [], ◌∷◌, if◌then◌else◌,
}
use fabaccess_server.Resources.Machine.{MachineState}

-- What a poll of the signal gives.
pub data Change : Type 0 where
  unchanged ended : Change
  changed : MachineState → Change

-- An actor with the futures of its `apply`, and the signal of a resource.
pub record Parts : Type 1 where
  pub Actor : Type 0
  pub ApplyFuture : Type 0
  pub Signal : Type 0
  pub apply : Actor → MachineState → Actor × ApplyFuture
  -- Whether the future is done.
  pub poll_future : ApplyFuture → ApplyFuture × Bool
  pub poll_change : Signal → Signal × Change

-- What happens in a poll, the latest first.
pub data Event : Type 0 where
  started : MachineState → Event
  completed : Event

pub data Poll : Type 0 where
  pending ready : Poll

module _ (parts : Parts) where
  pub record ActorDriver : Type 0 where
    pub signal : parts.Signal
    pub actor : parts.Actor
    pub future : Option parts.ApplyFuture
    pub log : List Event

  unfoldable pub new_driver : parts.Signal → parts.Actor → ActorDriver
  new_driver signal actor = record { signal = signal; actor = actor; future = none; log = [] }

  -- One round of the loop: it goes on, or `poll` returns.
  pub data Round : Type 0 where
    again : ActorDriver → Round
    return : ActorDriver → Poll → Round

  unfoldable pub take_change : ActorDriver → parts.Signal × Change → Round
  take_change d (signal, unchanged) = return (record d { signal = signal }) pending
  take_change d (signal, ended) = return (record d { signal = signal }) ready
  take_change d (signal, changed state) =
      let (actor, future) = parts.apply d.actor state in
      again (record d {
        signal = signal;
        actor = actor;
        future = some future;
        log = started state ∷ d.log;
      })

  unfoldable pub settle : ActorDriver → parts.ApplyFuture × Bool → Round
  unfolding take_change
  settle d (future, true) =
      let idle = record d { future = none; log = completed ∷ d.log } in
      take_change idle (parts.poll_change idle.signal)
  settle d (future, false) = return (record d { future = some future }) pending

  unfoldable pub round : ActorDriver → Round
  unfolding take_change settle
  round d = elim d.future [
    | none ↦ take_change d (parts.poll_change d.signal)
    | some future ↦ settle d (parts.poll_future future)
  ]

  -- `Future::poll`; `none` means that the fuel ran out.
  unfoldable pub poll : ℕ → ActorDriver → Option (ActorDriver × Poll)
  unfolding round
  poll zero d = none
  poll (suc fuel) d = elim (round d) [
    | return d' outcome ↦ some (d', outcome)
    | again d' ↦ poll fuel d'
  ]
