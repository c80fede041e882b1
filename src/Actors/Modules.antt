-- ===== src/Actors/Modules.antt =====
-- The modules that an actor can be and how they are loaded: bffhd/actors/shelly.rs,
-- bffhd/actors/dummy.rs, and `load` and `load_single` of bffhd/actors/mod.rs.
pub mod Singles
pub mod Starts
use fabaccess_server.Prelude.{
  Bool, true, false, Option, none, some, List, [], ◌∷◌, ◌++◌, if◌then◌else◌, str_eq, lookup, Str,
  codes, Result, ok, err, ◌>>=◌,
}
use fabaccess_server.Resources.Machine.{Status, in_use}
use fabaccess_server.Actors.Process.{Process, new_process}
use fabaccess_server.Actors.Mqtt.{ActorError, Url, MqttOptions, mqtt_options, Event, connection}
use fabaccess_server.Loading.{or_then, load}

pub record Shelly : Type 0 where
  pub name : Str
  pub topic : Str

abbrev pub command_topic : Str → Str
command_topic topic = codes "shellies/" ++ topic ++ codes "/relay/0/command"

unfoldable pub new_shelly : Str → List (Str × Str) → Shelly
new_shelly name params = elim (lookup params (codes "topic")) [
  | some topic ↦ record { name = name; topic = command_topic topic }
  | none ↦ record { name = name; topic = command_topic name }
]

unfoldable pub set_name : Str → Shelly → Shelly
set_name new_name shelly = record shelly { name = new_name }

-- The topic and the payload that `apply` publishes.
unfoldable pub publish : Shelly → Status → Str × Str
publish shelly (in_use by) = (shelly.topic, codes "on")
publish shelly _ = (shelly.topic, codes "off")

pub record Dummy : Type 0 where
  pub name : Str
  pub params : List (Str × Str)

pub data Actor : Type 0 where
  a_dummy : Dummy → Actor
  a_process : Process → Actor
  a_shelly : Shelly → Actor

-- A module of the configuration.
pub record ModuleConfig : Type 0 where
  pub module_name : Str
  pub params : List (Str × Str)

abbrev pub boxed : Option Process → Option Actor
boxed none = none
boxed (some p) = some (a_process p)

-- What is started on the resources.
pub record Loaded (R : Type 0) : Type 0 where
  pub client : MqttOptions
  pub drivers : List (Str × (R × Actor))

module _ (split_whitespace : Str → List Str) where
  unfoldable pub load_single : Str → ModuleConfig → Option Actor
  unfolding new_shelly new_process
  load_single name config =
      let shelly = some (a_shelly (new_shelly name config.params)) in
      if str_eq config.module_name (codes "Dummy")
      then some (a_dummy (record { name = name; params = config.params }))
      else if str_eq config.module_name (codes "Process")
      then boxed (new_process split_whitespace name config.params)
      else if str_eq config.module_name (codes "Shelly")
      then shelly
      else none

  module _ {R : Type 0} (get_by_id : Str → Option R) where
    -- The resource whose signal a driver listens to, and its actor.
    abbrev pub driver_of : Str → ModuleConfig → R → Option (R × Actor)
    driver_of name config r = or_then (load_single name config) (λ actor. some (r, actor))

    -- `load` of bffhd/actors/mod.rs: the client that is connected, and the drivers.
    unfoldable pub load_actors :
        Option Url
        → Event
        → List (Str × Str)
        → List (Str × ModuleConfig)
        → Result ActorError (Loaded R)
    load_actors mqtt_url first connections configs = do
      options ← mqtt_options mqtt_url
      connected ← connection first
      ok (record { client = options; drivers = load get_by_id driver_of connections configs })
