-- ===== src/Actors/Modules/Starts.antt =====
-- What the server starts of its actors, and why it may not.
use fabaccess_server.Prelude.{
  ◌≡◌, ◌≢◌, ◌↔◌, refl, sym, ap, ◌∙◌, Option, none, some, List, lookup, IsDistinct, Str, Result, ok,
  err, panic, ◌>>=◌,
}
use fabaccess_server.Actors.Mqtt.{
  ActorError, url_parse_error, invalid_config, connection_error, Url, MqttOptions, mqtt_options,
  Event, incoming, cancel, stream_done, requests_done, timeout, io, other, connection,
}
use fabaccess_server.Actors.Mqtt.Options.{IsClient, Answers, mqtt_options-Answers}
use fabaccess_server.Actors.Modules.{Actor, ModuleConfig, Loaded, driver_of, load_actors}
use fabaccess_server.Actors.Modules.Singles.{IsActor, load_single_iff}
use fabaccess_server.Loading.{or_then, load}
use fabaccess_server.Loading.Started.{lookup-load}

or_then-some :
    {A B : Type 0} (o : Option A) (f : A → Option B) (b : B)
    → or_then o f ≡ some b
    → (a : A) × (o ≡ some a) × (f a ≡ some b)
or_then-some none f b h = cc
or_then-some (some a) f b h = (a, refl, h)

then_some :
    {A B : Type 0} (o : Option A) (f : A → Option B) (a : A) (b : B)
    → o ≡ some a
    → f a ≡ some b
    → or_then o f ≡ some b
then_some {A = A} o f a b h k = ap (λ (x : Option A). or_then x f) h ∙ k

some_injective : {A : Type 0} (a b : A) → some a ≡ some b → a ≡ b
some_injective a b h = cc

module _ (split_whitespace : Str → List Str) {R : Type 0} (get_by_id : Str → Option R)
    (connections : List (Str × Str)) (configs : List (Str × ModuleConfig)) where
  -- A module of this name is configured, connected to this resource, and this actor.
  abbrev pub IsConfigured : Str → R → Actor → Type 0
  IsConfigured name r actor =
      (config : ModuleConfig) × (id : Str) × (lookup configs name ≡ some config)
      × (lookup connections name ≡ some id)
      × (get_by_id id ≡ some r)
      × IsActor split_whitespace name config actor

  abbrev pub Outcome : Option Url → Event → Result ActorError (Loaded R) → Type 0
  Outcome mqtt_url first (ok loaded) =
      ((url : Url) × (mqtt_url ≡ some url) × IsClient url loaded.client)
      × (first ≡ incoming)
      × ((name : Str) (r : R) (actor : Actor)
          → (lookup loaded.drivers name ≡ some (r, actor)) ↔ IsConfigured name r actor)
  Outcome mqtt_url first (err url_parse_error) = Answers mqtt_url (err url_parse_error)
  Outcome mqtt_url first (err invalid_config) = Answers mqtt_url (err invalid_config)
  Outcome mqtt_url first (err connection_error) =
      ((url : Url) × (options : MqttOptions) × (mqtt_url ≡ some url) × IsClient url options)
      × (first ≢ incoming)
  Outcome mqtt_url first panic = ⊥

  abbrev started : List (Str × (R × Actor))
  started = load get_by_id (driver_of split_whitespace get_by_id) connections configs

  started_iff :
      IsDistinct connections
      → IsDistinct configs
      → (name : Str) (r : R) (actor : Actor)
      → (lookup started name ≡ some (r, actor)) ↔ IsConfigured name r actor
  started_iff d d' name r actor =
      let eq =
        lookup-load get_by_id (driver_of split_whitespace get_by_id) connections configs name d
          d' in
      (
        λ h.
            let (config, c, h₁) = or_then-some _ _ _ (sym eq ∙ h) in
            let (id, i, h₂) = or_then-some _ _ _ h₁ in
            let (r', g, h₃) = or_then-some _ _ _ h₂ in
            let (a, l, h₄) = or_then-some _ _ _ h₃ in
            let pair = some_injective (r', a) (r, actor) h₄ in
            (
              config,
              id,
              c,
              i,
              g ∙ ap (λ (p : R × Actor). some p.0) pair,
              (load_single_iff split_whitespace name config actor).0
                  (l ∙ ap (λ (p : R × Actor). some p.1) pair),
            ),
        λ (config, id, c, i, g, a).
            eq
            ∙ then_some _ _ config _ c (
                then_some _ _ id _ i (
                  then_some _ _ r _ g (
                    then_some _ _ actor _ ((load_single_iff split_whitespace name config actor).1 a)
                      refl))),
      )

  after_connection :
      (mqtt_url : Option Url) (first : Event) (options : MqttOptions)
      → IsDistinct connections
      → IsDistinct configs
      → Answers mqtt_url (ok options)
      → Outcome mqtt_url first
          (connection first >>= λ connected. ok (record { client = options; drivers = started }))
  unfolding connection
  after_connection mqtt_url incoming options d d' (url, h, client) =
      ((url, h, client), refl, started_iff d d')
  after_connection mqtt_url cancel options d d' (url, h, client) =
      ((url, options, h, client), λ e. cc)
  after_connection mqtt_url stream_done options d d' (url, h, client) =
      ((url, options, h, client), λ e. cc)
  after_connection mqtt_url requests_done options d d' (url, h, client) =
      ((url, options, h, client), λ e. cc)
  after_connection mqtt_url timeout options d d' (url, h, client) =
      ((url, options, h, client), λ e. cc)
  after_connection mqtt_url io options d d' (url, h, client) = ((url, options, h, client), λ e. cc)
  after_connection mqtt_url other options d d' (url, h, client) =
      ((url, options, h, client), λ e. cc)

  after_options :
      (mqtt_url : Option Url) (first : Event) (o : Result ActorError MqttOptions)
      → IsDistinct connections
      → IsDistinct configs
      → Answers mqtt_url o
      → Outcome mqtt_url first (
          o >>= λ options.
          connection first >>= λ connected. ok (record { client = options; drivers = started }))
  after_options mqtt_url first (ok options) d d' a = after_connection mqtt_url first options d d' a
  after_options mqtt_url first (err url_parse_error) d d' a = a
  after_options mqtt_url first (err invalid_config) d d' a = a
  after_options mqtt_url first (err connection_error) d d' a = absurd a
  after_options mqtt_url first panic d d' a = absurd a

  -- With no name twice among the connections or the modules, `load` of the actors never panics.
  -- Where it succeeds, the url has one of the four schemes and a host, the client is given that
  -- host, the url's port or 8883 for mqtts and ssl and 1883 for mqtt and tcp, with TLS for the
  -- first two, a keep-alive of 20 seconds and the url's credentials if it has a user name, its
  -- first poll gave no error, and a driver is started under a name for exactly the resource
  -- that is connected to the name and the actor that the module of that name is: by its module
  -- name a Dummy with the parameters, a Process with the command and words of its parameters,
  -- or a Shelly with the topic made of its parameter or else of its name; nothing is started
  -- for another module or without a command, connection or resource. It answers that the url
  -- cannot be parsed only where it has none, that the configuration is invalid only for another
  -- scheme or without a host, and that the connection failed only for a good url whose client's
  -- first poll gave an error.
  pub load_actors-Outcome :
      (mqtt_url : Option Url) (first : Event)
      → IsDistinct connections
      → IsDistinct configs
      → Outcome mqtt_url first
          (load_actors split_whitespace get_by_id mqtt_url first connections configs)
  unfolding load_actors
  load_actors-Outcome mqtt_url first d d' =
      after_options mqtt_url first (mqtt_options mqtt_url) d d' (mqtt_options-Answers mqtt_url)
