-- ===== src/Examples/Actors.antt =====
-- An MQTT client and a Shelly on it, bffhd/actors.
use fabaccess_server.Prelude.{
  ◌≡◌, ◌↔◌, refl, false, Option, none, some, List, [], ◌∷◌, str_eq, Str, codes, ok,
}
use fabaccess_server.Actors.Mqtt.{
  tcp, Url, mqtt_options, connection, Event, incoming, timeout, io, closed, event_loop,
}
use fabaccess_server.Actors.Mqtt.Closes.{HasFatal, event_loop-HasFatal}
use fabaccess_server.Actors.Modules.{Loaded, a_shelly, ModuleConfig, load_single, load_actors}
use fabaccess_server.Actors.Modules.Starts.{Outcome, load_actors-Outcome}
use fabaccess_server.Loading.{load}

-- Two IO errors with a timeout between them.
abbrev events : List Event
events = incoming ∷ io ∷ timeout ∷ io ∷ incoming ∷ []

event_loop-HasFatal_example :
    ((rest : List Event) × (event_loop false events ≡ closed rest)) ↔ HasFatal events
event_loop-HasFatal_example = event_loop-HasFatal events

abbrev url : Url
url = record {
  scheme = codes "mqtt";
  host = some (codes "localhost");
  port = none;
  username = [];
  password = none;
}

abbrev configs : List (Str × ModuleConfig)
configs = (codes "lamp", record { module_name = codes "Shelly"; params = [] }) ∷ []

abbrev connections : List (Str × Str)
connections = (codes "lamp", codes "lathe") ∷ []

-- Resources are their ids, and no text is split.
abbrev resource_of : Str → Option Str
resource_of id = some id

abbrev whole : Str → List Str
whole s = s ∷ []

abbrev loaded : Loaded Str
loaded = record {
  client = record {
    host = codes "localhost";
    port = 1883;
    transport = tcp;
    keep_alive = 20;
    credentials = none;
  };
  drivers =
      (
        codes "lamp",
        (
          codes "lathe",
          a_shelly (record { name = codes "lamp"; topic = codes "shellies/lamp/relay/0/command" }),
        ),
      )
      ∷ [];
}

lamp_loaded : load_actors whole resource_of (some url) incoming connections configs ≡ ok loaded
unfolding load_actors mqtt_options str_eq connection load load_single
lamp_loaded = refl

load_actors-Outcome_example :
    Outcome whole resource_of connections configs
      (some url)
      incoming
      (load_actors whole resource_of (some url) incoming connections configs)
load_actors-Outcome_example =
    load_actors-Outcome whole resource_of connections configs (some url) incoming (refl, tt)
      (refl, tt)
