-- ===== src/Authentication/Fabfire.antt =====
-- X-FABFIRE, bffhd/authentication/fabfire/server.rs: a card is read through a reader that speaks JSON.
pub mod Refines
use fabaccess_server.Prelude.{
  ℕ, Bool, true, false, not, ◌&&◌, Option, none, some, List, [], ◌∷◌, if◌then◌else◌, str_eq, Str,
  codes, Result, ok, err, panic, length, is_utf8,
}
use fabaccess_server.Authentication.Steps
use fabaccess_server.Authentication.Steps.{Reader}
use fabaccess_server.Authentication.Protocol.{
  FabFireError, parse_error, serialization_error, deserialization_error, card_error,
  invalid_credentials, SessionError, input_data_required, io_error, mechanism_error, sent, not_sent,
  running, finished, CardInfo, KeyInfo, AuthInfo, Step, new, select_app, verify_magic, get_urn,
  get_token, authenticate1, authenticate2, DesfireCrate, MechanismData, magic, app_id, trim_matches,
  utf8_or_panic, FabFire, Ran, attempt, failed, or_parse_error, checked_body, command_bytes,
  advance, unwrap, finalize,
}

-- What reader and server send one another.
pub data CardCommand : Type 0 where
  message : Option ℕ → Option Str → Option Str → CardCommand
  send_picc read_picc : Str → CardCommand
  halt_picc : CardCommand
  key : Str → CardCommand
  confirm_user : CardCommand

-- `serde_json` for these messages; `none` is an error.
pub record Json : Type 0 where
  pub card_info_from_slice : Str → Option CardInfo
  pub command_from_slice : Str → Option CardCommand
  pub command_to_vec : CardCommand → Option Str

abbrev pub unexpected : CardCommand → Result SessionError Str
unexpected (read_picc bytes) = ok bytes
unexpected _ = err (mechanism_error parse_error)

module _ (crate : DesfireCrate) (json : Json) (accepts : Str → Bool) where
  unfoldable pub new_server : FabFire crate
  new_server = record {
    step = new;
    card_info = none;
    key_info = none;
    auth_info = none;
    local_urn = codes "urn:fabaccess:lab:innovisionlab";
    desfire = crate.no_card;
    written = [];
    user = none;
  }

  -- What the card answered, in the message of the reader.
  unfoldable pub response : Option Str → Result SessionError Str
  response none = err input_data_required
  response (some buf) = elim (json.command_from_slice buf) [
    | none ↦ failed crate deserialization_error
    | some command ↦ unexpected command
  ]

  unfoldable pub to_vec : CardCommand → Result SessionError Str
  to_vec command = elim (json.command_to_vec command) [
    | none ↦ failed crate serialization_error
    | some bytes ↦ ok bytes
  ]

  unfoldable pub card_info : Str → Result SessionError CardInfo
  card_info bytes = elim (json.card_info_from_slice bytes) [
    | none ↦ failed crate deserialization_error
    | some info ↦ ok info
  ]

  abbrev pub reader : Reader
  reader = record { response = response; encode = λ buf. to_vec (send_picc buf) }

  unfoldable pub step_new : Option Str → FabFire crate → Ran crate
  step_new none self = (err input_data_required, self)
  step_new (some cardinfo) self = attempt crate (card_info cardinfo) self (λ info.
      Steps.send crate reader accepts select_app (crate.select_application_cmd self.desfire app_id)
        (record self { card_info = some info }))

  unfoldable pub step_select_app : Option Str → FabFire crate → Ran crate
  step_select_app = Steps.step_select_app crate reader accepts

  unfoldable pub step_verify_magic : Option Str → FabFire crate → Ran crate
  step_verify_magic = Steps.step_verify_magic crate reader accepts

  unfoldable pub step_get_urn : Option Str → FabFire crate → Ran crate
  step_get_urn = Steps.step_get_urn crate reader accepts

  unfoldable pub step_get_token : MechanismData → Option Str → FabFire crate → Ran crate
  step_get_token = Steps.step_get_token crate reader accepts

  unfoldable pub step_authenticate1 : Str → Option Str → FabFire crate → Ran crate
  step_authenticate1 = Steps.step_authenticate1 crate reader accepts

  -- After the proof: the last message, and the user is validated. The next step is set first.
  unfoldable pub finish : MechanismData → KeyInfo → FabFire crate → Ran crate
  unfolding to_vec
  finish session info self =
      attempt crate (to_vec (message (some 4) none (some []))) self (λ send_buf.
        let self' = record self { step = authenticate1 } in
        if accepts send_buf
        then attempt crate (session.validate info.authid)
            (record self' { written = send_buf ∷ self.written })
            (λ user. (
              ok (finished sent),
              finalize crate user (record self' { written = send_buf ∷ self.written }),
            ))
        else (err io_error, self'))

  unfoldable pub step_authenticate2 : MechanismData → Option Str → FabFire crate → Ran crate
  unfolding finish
  step_authenticate2 session = Steps.step_authenticate2 crate reader accepts (finish session)

  -- The arms of `Authentication::step`.
  unfoldable pub dispatch : Step → MechanismData → Str → Option Str → FabFire crate → Ran crate
  unfolding step_new step_select_app step_verify_magic step_get_urn step_get_token
      step_authenticate1 step_authenticate2
  dispatch new session rnd_a input self = step_new input self
  dispatch select_app session rnd_a input self = step_select_app input self
  dispatch verify_magic session rnd_a input self = step_verify_magic input self
  dispatch get_urn session rnd_a input self = step_get_urn input self
  dispatch get_token session rnd_a input self = step_get_token session input self
  dispatch authenticate1 session rnd_a input self = step_authenticate1 rnd_a input self
  dispatch authenticate2 session rnd_a input self = step_authenticate2 session input self

  unfoldable pub step : MechanismData → Str → Option Str → FabFire crate → Ran crate
  unfolding dispatch
  step session rnd_a input self = dispatch self.step session rnd_a input self
