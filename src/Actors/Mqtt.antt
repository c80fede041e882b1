-- ===== src/Actors/Mqtt.antt =====
-- The MQTT client of the actors, `load` in bffhd/actors/mod.rs. The url parser and the client's
-- event loop are rumqttc's and url's: their results are arguments.
pub mod Closes
pub mod Options
use fabaccess_server.Prelude.{
  ℕ, Bool, true, false, not, ◌||◌, Option, none, some, List, [], ◌∷◌, if◌then◌else◌, str_eq, Str,
  codes, Result, ok, err, ◌>>=◌,
}

pub data ActorError : Type 0 where
  url_parse_error invalid_config connection_error : ActorError

pub data Transport : Type 0 where
  tcp tls : Transport

-- What the url has.
pub record Url : Type 0 where
  pub scheme : Str
  pub host : Option Str
  pub port : Option ℕ
  pub username : Str
  pub password : Option Str

pub record MqttOptions : Type 0 where
  pub host : Str
  pub port : ℕ
  pub transport : Transport
  pub keep_alive : ℕ
  pub credentials : Option (Str × Str)

unfoldable pub transport_of : Str → Result ActorError (Transport × ℕ)
transport_of scheme =
    if str_eq scheme (codes "mqtts") || str_eq scheme (codes "ssl")
    then ok (tls, 8883)
    else if str_eq scheme (codes "mqtt") || str_eq scheme (codes "tcp")
    then ok (tcp, 1883)
    else err invalid_config

abbrev pub ok_or : {A : Type 0} → ActorError → Option A → Result ActorError A
ok_or e none = err e
ok_or e (some a) = ok a

abbrev pub unwrap_or : {A : Type 0} → A → Option A → A
unwrap_or a none = a
unwrap_or a (some b) = b

-- From the url of the configuration, which the parser may refuse.
unfoldable pub mqtt_options : Option Url → Result ActorError MqttOptions
unfolding transport_of
mqtt_options parsed = do
  mqtt_url ← ok_or url_parse_error parsed
  (transport, default_port) ← transport_of mqtt_url.scheme
  host ← ok_or invalid_config mqtt_url.host
  ok (record {
    host = host;
    port = unwrap_or default_port mqtt_url.port;
    transport = transport;
    keep_alive = 20;
    credentials =
        if str_eq mqtt_url.username []
        then none
        else some (mqtt_url.username, unwrap_or [] mqtt_url.password);
  })

-- What a poll of the event loop gives; `other` is any other error.
pub data Event : Type 0 where
  incoming : Event
  cancel stream_done requests_done : Event
  timeout io other : Event

-- The first poll: the server's answer, or an error.
unfoldable pub connection : Event → Result ActorError Unit
connection incoming = ok tt
connection _ = err connection_error

-- The client after some polls.
pub data Client : Type 0 where
  -- `fault` in the loop.
  polling : Bool → Client
  -- The loop was left, with the polls that it would have made.
  closed : List Event → Client

unfoldable pub event_loop : Bool → List Event → Client
event_loop fault [] = polling fault
event_loop fault (incoming ∷ events) = event_loop false events
event_loop fault (cancel ∷ events) = closed events
event_loop fault (stream_done ∷ events) = closed events
event_loop fault (requests_done ∷ events) = closed events
event_loop fault (timeout ∷ events) = event_loop fault events
event_loop true (io ∷ events) = closed events
event_loop false (io ∷ events) = event_loop true events
event_loop fault (other ∷ events) = closed events
