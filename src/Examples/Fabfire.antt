-- ===== src/Examples/Fabfire.antt =====
-- A card that lets its owner in: bffhd/authentication and bffhd/capnp/authenticationsystem.rs.
use fabaccess_server.Prelude.{
  ℕ, ◌≡◌, refl, true, Option, none, some, [], ◌∷◌, if◌then◌else◌, str_eq, replicate, accepts, Str,
  codes, lookup, ok,
}
use fabaccess_server.Users.{User}
use fabaccess_server.Session.{Users, SessionManager, open_session}
use fabaccess_server.Authentication.Protocol.{
  finished, not_sent, DesfireCrate, magic, trim_matches, utf8_or_panic, attempt, checked_body,
  advance, unwrap, finalize,
}
use fabaccess_server.Authentication.Protocol.Moves.Runs.{Inputs, rnds, bodies, run}
use fabaccess_server.Authentication.Steps
use fabaccess_server.Authentication.Fabfire
use fabaccess_server.Authentication.Fabfire.{Json, read_picc}
use fabaccess_server.Authentication.Fabfire.Refines as Text
use fabaccess_server.Authentication.FabfireBin
use fabaccess_server.Authentication.FabfireBin.Refines as Binary
use fabaccess_server.Authentication.Callback.{callback, validate}
use fabaccess_server.Authentication.Server.{server_session}
use fabaccess_server.Authentication.Server.Owner.{IsOwner, fabfire-IsOwner, fabfire_bin-IsOwner}
use fabaccess_server.Api.Login.{Sasl, State, running_state, finished_state, step}
use fabaccess_server.Api.Login.Logs.{IsGranted, step-successful}
use fabaccess_server.Examples.Fixtures.{toy_argon2, toy_hex, named, ann}

-- A crate whose commands are their bytes, and whose proof is the key.
abbrev toy_crate : DesfireCrate
toy_crate = record {
  Desfire = ℕ;
  no_card = 0;
  ApduCommand = Str;
  ApduResponse = Str;
  select_application_cmd = λ c id. some (codes "select");
  read_data_chunk_cmd = λ c file offset size. some (file ∷ []);
  authenticate_iso_aes_challenge_cmd = λ c id. some (codes "challenge");
  authenticate_iso_aes_response_cmd = λ c rnd_b key rnd_a. (1, some (rnd_a, rnd_b, []));
  authenticate_iso_aes_verify = λ c proof rnd_a rnd_b key iv. (2, str_eq proof key);
  to_vec = λ command. some command;
  response_new = λ answer. answer;
  check = λ answer. true;
  body = λ answer. some answer;
  display = λ answer. answer;
  max_bytes_per_transaction = 47;
}

abbrev toy_json : Json
toy_json = record {
  card_info_from_slice = λ s. some (record { uid = s; key_old = none; key_new = none });
  command_from_slice = λ s. some (read_picc s);
  command_to_vec = λ command. some [];
}

abbrev key16 : Str
key16 = replicate 16 7

abbrev annas : User
annas = named ann none ((codes "cardkey", b'x' ∷ key16) ∷ [])

abbrev users : Users
users id = lookup ((ann, annas) ∷ []) id

-- The latest first: the proof, the card's challenge, the token with a NUL behind it, the URN of the
-- space, the magic bytes, the answer to the selection, and the card's information.
abbrev shown_card : Str → Inputs
shown_card urn =
    ([], some key16)
    ∷ (codes "draw", some (codes "enc"))
    ∷ ([], some (b'a' ∷ b'n' ∷ b'n' ∷ 0 ∷ []))
    ∷ ([], some urn)
    ∷ ([], some magic)
    ∷ ([], some [])
    ∷ ([], some [])
    ∷ []

abbrev space_urn : Str
space_urn = codes "urn:fabaccess:lab:innovisionlab"

fabfire-IsOwner_example :
    IsOwner users toy_hex toy_argon2 toy_crate
      (codes "X-FABFIRE")
      space_urn
      (rnds (shown_card space_urn))
      (bodies (Text.shown toy_crate toy_json (λ _. true)) (shown_card space_urn))
      annas
unfolding run Fabfire.step Fabfire.new_server server_session callback validate attempt checked_body
    advance unwrap finalize trim_matches utf8_or_panic accepts str_eq Fabfire.card_info
    Fabfire.response Steps.send Steps.step_select_app Steps.step_verify_magic Steps.step_get_urn
    Steps.step_get_token Steps.step_authenticate1 Steps.step_authenticate2
fabfire-IsOwner_example =
    fabfire-IsOwner users toy_hex toy_crate toy_json (λ _. true) toy_argon2 (shown_card space_urn)
      annas refl

abbrev generic_urn : Str
generic_urn = codes "urn:fabaccess:lab:generic"

fabfire_bin-IsOwner_example :
    IsOwner users toy_hex toy_argon2 toy_crate
      (codes "X-FABFIRE-BIN")
      (FabfireBin.local_urn_of none)
      (rnds (shown_card generic_urn))
      (bodies (Binary.shown toy_crate (λ _. true)) (shown_card generic_urn))
      annas
unfolding run FabfireBin.step FabfireBin.new_server server_session callback validate attempt
    checked_body advance unwrap finalize trim_matches utf8_or_panic accepts str_eq
    FabfireBin.response Steps.send Steps.step_select_app Steps.step_verify_magic Steps.step_get_urn
    Steps.step_get_token Steps.step_authenticate1 Steps.step_authenticate2
fabfire_bin-IsOwner_example =
    fabfire_bin-IsOwner users toy_hex toy_crate (λ _. true) toy_argon2 none (shown_card generic_urn)
      annas refl

-- A mechanism that takes one step.
abbrev toy_sasl : Sasl
toy_sasl = record {
  Session = Option User;
  start = λ name. if str_eq name (codes "ANN") then some none else none;
  step = λ session input. (some annas, input, ok (finished not_sent));
  validation = λ session. session;
}

abbrev manager : SessionManager
manager = record { users = users; roles = [] }

step-successful_example :
    IsGranted toy_sasl (running_state none manager) (some []) (open_session manager annas)
    × (◌≡◌ {A = State toy_sasl} finished_state finished_state)
unfolding step
step-successful_example =
    step-successful toy_sasl (running_state none manager) finished_state (some [])
      (open_session manager annas) none refl
