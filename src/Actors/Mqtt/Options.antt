-- ===== src/Actors/Mqtt/Options.antt =====
-- The client that a url stands for.
use fabaccess_server.Prelude.{
  ℕ, ◌≡◌, ◌≢◌, refl, sym, subst, ◌∙◌, true, false, Bool-cases, Option, none, some, ◌⊎◌, inl, inr,
  if◌then◌else◌, [], str_eq, str_eq_sound, str_eq_refl, Str, codes, Result, ok, err, panic, ◌>>=◌,
}
use fabaccess_server.Actors.Mqtt.{
  ActorError, url_parse_error, invalid_config, connection_error, Transport, tcp, tls, Url,
  MqttOptions, transport_of, ok_or, unwrap_or, mqtt_options,
}

-- The schemes with their transport and port.
pub data IsScheme : Str → Transport → ℕ → Type 0 where
  of_mqtts : IsScheme (codes "mqtts") tls 8883
  of_ssl : IsScheme (codes "ssl") tls 8883
  of_mqtt : IsScheme (codes "mqtt") tcp 1883
  of_tcp : IsScheme (codes "tcp") tcp 1883

-- The scheme is none of the four.
abbrev pub IsForeign : Str → Type 0
IsForeign scheme = (t : Transport) (port : ℕ) → IsScheme scheme t port → ⊥

pub record IsClient (url : Url) (options : MqttOptions) : Type 0 where
  pub default_port : ℕ
  pub scheme : IsScheme url.scheme options.transport default_port
  pub same_host : url.host ≡ some options.host
  pub same_port : options.port ≡ unwrap_or default_port url.port
  pub kept_alive : options.keep_alive ≡ 20
  pub same_credentials :
      ((url.username ≡ []) × (options.credentials ≡ none))
      ⊎ ((url.username ≢ [])
          × (options.credentials ≡ some (url.username, unwrap_or [] url.password)))

differs : (scheme other : Str) → str_eq scheme other ≡ false → scheme ≢ other
differs scheme other e h =
    let same : str_eq scheme other ≡ true =
      subst (λ (s : Str). str_eq scheme s ≡ true) h (str_eq_refl scheme) in
    let no : true ≡ false = sym same ∙ e in cc

foreign :
    (scheme : Str)
    → scheme ≢ codes "mqtts"
    → scheme ≢ codes "ssl"
    → scheme ≢ codes "mqtt"
    → scheme ≢ codes "tcp"
    → IsForeign scheme
foreign _ a b c d _ _ of_mqtts = a refl
foreign _ a b c d _ _ of_ssl = b refl
foreign _ a b c d _ _ of_mqtt = c refl
foreign _ a b c d _ _ of_tcp = d refl

abbrev Transports : Str → Result ActorError (Transport × ℕ) → Type 0
Transports scheme (ok (t, port)) = IsScheme scheme t port
Transports scheme (err url_parse_error) = ⊥
Transports scheme (err invalid_config) = IsForeign scheme
Transports scheme (err connection_error) = ⊥
Transports scheme panic = ⊥

is_scheme :
    (scheme other : Str) (t : Transport) (port : ℕ)
    → str_eq scheme other ≡ true
    → IsScheme other t port
    → IsScheme scheme t port
is_scheme scheme other t port e s =
    subst (λ (o : Str). IsScheme o t port) (sym (str_eq_sound scheme other e)) s

transport_of-Transports : (scheme : Str) → Transports scheme (transport_of scheme)
unfolding transport_of
transport_of-Transports scheme = elim (Bool-cases (str_eq scheme (codes "mqtts"))) [
  | inl e ↦ rw (e, transport_of) (is_scheme scheme _ tls 8883 e of_mqtts)
  | inr a ↦ elim (Bool-cases (str_eq scheme (codes "ssl"))) [
    | inl e ↦ rw (a, e, transport_of) (is_scheme scheme _ tls 8883 e of_ssl)
    | inr b ↦ elim (Bool-cases (str_eq scheme (codes "mqtt"))) [
      | inl e ↦ rw (a, b, e, transport_of) (is_scheme scheme _ tcp 1883 e of_mqtt)
      | inr c ↦ elim (Bool-cases (str_eq scheme (codes "tcp"))) [
        | inl e ↦ rw (a, b, c, e, transport_of) (is_scheme scheme _ tcp 1883 e of_tcp)
        | inr d ↦
            rw (a, b, c, d, transport_of)
              (foreign scheme (differs _ _ a) (differs _ _ b) (differs _ _ c) (differs _ _ d))
      ]
    ]
  ]
]

-- Why there is no client, or which one there is.
abbrev pub Answers : Option Url → Result ActorError MqttOptions → Type 0
Answers parsed (ok options) = (url : Url) × (parsed ≡ some url) × IsClient url options
Answers parsed (err url_parse_error) = parsed ≡ none
Answers parsed (err invalid_config) =
    (url : Url) × (parsed ≡ some url) × (IsForeign url.scheme ⊎ (url.host ≡ none))
Answers parsed (err connection_error) = ⊥
Answers parsed panic = ⊥

abbrev credentials_of : Str → Option Str → Option (Str × Str)
credentials_of username password =
    if str_eq username [] then none else some (username, unwrap_or [] password)

credentials_lem :
    (username : Str) (password : Option Str)
    → ((username ≡ []) × (credentials_of username password ≡ none))
      ⊎ ((username ≢ [])
          × (credentials_of username password ≡ some (username, unwrap_or [] password)))
credentials_lem username password = elim (Bool-cases (str_eq username [])) [
  | inl e ↦ inl (str_eq_sound username [] e, rw e)
  | inr e ↦ inr (differs username [] e, rw e)
]

-- The rest of `mqtt_options` after the scheme, by the host.
with_host :
    (url : Url) (t : Transport) (default_port : ℕ) (host : Option Str)
    → IsScheme url.scheme t default_port
    → url.host ≡ host
    → Answers (some url) (
        ok_or invalid_config host >>= λ (h : Str). ok (record {
          host = h;
          port = unwrap_or default_port url.port;
          transport = t;
          keep_alive = 20;
          credentials = credentials_of url.username url.password;
        }))
with_host url t default_port none s h = (url, refl, inr h)
with_host url t default_port (some host) s h = (
  url,
  refl,
  record {
    default_port = default_port;
    scheme = s;
    same_host = h;
    same_port = refl;
    kept_alive = refl;
    same_credentials = credentials_lem url.username url.password;
  },
)

by_scheme :
    (url : Url) (r : Result ActorError (Transport × ℕ))
    → Transports url.scheme r
    → Answers (some url) (
        r >>= λ (p : Transport × ℕ). ok_or invalid_config url.host >>= λ (h : Str). ok (record {
          host = h;
          port = unwrap_or p.1 url.port;
          transport = p.0;
          keep_alive = 20;
          credentials = credentials_of url.username url.password;
        }))
by_scheme url (ok (t, port)) s = with_host url t port url.host s refl
by_scheme url (err url_parse_error) s = absurd s
by_scheme url (err invalid_config) s = (url, refl, inl s)
by_scheme url (err connection_error) s = absurd s
by_scheme url panic s = absurd s

pub mqtt_options-Answers : (parsed : Option Url) → Answers parsed (mqtt_options parsed)
unfolding mqtt_options
mqtt_options-Answers none = refl
mqtt_options-Answers (some url) =
    by_scheme url (transport_of url.scheme) (transport_of-Transports url.scheme)
