-- ===== src/Authentication/FabfireBin.antt =====
-- X-FABFIRE-BIN, bffhd/authentication/fabfire_bin/server.rs: the reader passes the card's bytes through.
pub mod Refines
use fabaccess_server.Prelude.{
  ℕ, Bool, ◌&&◌, Option, none, some, [], ◌∷◌, ◌++◌, if◌then◌else◌, str_eq, Str, codes, Result, ok,
  err, length, is_utf8,
}
use fabaccess_server.Authentication.Steps
use fabaccess_server.Authentication.Steps.{Reader}
use fabaccess_server.Authentication.Protocol.{
  parse_error, card_error, invalid_credentials, SessionError, input_data_required, sent, not_sent,
  finished, KeyInfo, AuthInfo, Step, new, select_app, verify_magic, get_urn, get_token,
  authenticate1, authenticate2, DesfireCrate, MechanismData, magic, app_id, trim_matches,
  utf8_or_panic, FabFire, Ran, attempt, failed, or_parse_error, checked_body, command_bytes,
  advance, unwrap, finalize,
}

-- The name of the space in the configuration, if there is one.
unfoldable pub local_urn_of : Option Str → Str
local_urn_of none = codes "urn:fabaccess:lab:" ++ codes "generic"
local_urn_of (some space) = codes "urn:fabaccess:lab:" ++ space

module _ (crate : DesfireCrate) (accepts : Str → Bool) where
  unfoldable pub new_server : Option Str → FabFire crate
  unfolding local_urn_of
  new_server space = record {
    step = new;
    card_info = none;
    key_info = none;
    auth_info = none;
    local_urn = local_urn_of space;
    desfire = crate.no_card;
    written = [];
    user = none;
  }

  -- What the card answered: the input itself.
  unfoldable pub response : Option Str → Result SessionError Str
  response none = err input_data_required
  response (some bytes) = ok bytes

  abbrev pub reader : Reader
  reader = record { response = response; encode = ok }

  unfoldable pub step_new : Option Str → FabFire crate → Ran crate
  step_new none self = (err input_data_required, self)
  step_new (some _) self =
      Steps.send crate reader accepts select_app (crate.select_application_cmd self.desfire app_id)
        self

  unfoldable pub step_select_app : Option Str → FabFire crate → Ran crate
  step_select_app = Steps.step_select_app crate reader accepts

  unfoldable pub step_verify_magic : Option Str → FabFire crate → Ran crate
  step_verify_magic = Steps.step_verify_magic crate reader accepts

  unfoldable pub step_get_urn : Option Str → FabFire crate → Ran crate
  step_get_urn = Steps.step_get_urn crate reader accepts

  unfoldable pub step_get_token : MechanismData → Option Str → FabFire crate → Ran crate
  step_get_token = Steps.step_get_token crate reader accepts

  unfoldable pub step_authenticate1 : Str → Option Str → FabFire crate → Ran crate
  step_authenticate1 = Steps.step_authenticate1 crate reader accepts

  -- After the proof: the user is validated, and no more is written.
  unfoldable pub finish : MechanismData → KeyInfo → FabFire crate → Ran crate
  finish session info self =
      attempt crate (session.validate info.authid) self
        (λ user. (ok (finished sent), finalize crate user self))

  unfoldable pub step_authenticate2 : MechanismData → Option Str → FabFire crate → Ran crate
  unfolding finish
  step_authenticate2 session = Steps.step_authenticate2 crate reader accepts (finish session)

  -- The arms of `Authentication::step`.
  unfoldable pub dispatch : Step → MechanismData → Str → Option Str → FabFire crate → Ran crate
  unfolding step_new step_select_app step_verify_magic step_get_urn step_get_token
      step_authenticate1 step_authenticate2
  dispatch new session rnd_a input self = step_new input self
  dispatch select_app session rnd_a input self = step_select_app input self
  dispatch verify_magic session rnd_a input self = step_verify_magic input self
  dispatch get_urn session rnd_a input self = step_get_urn input self
  dispatch get_token session rnd_a input self = step_get_token session input self
  dispatch authenticate1 session rnd_a input self = step_authenticate1 rnd_a input self
  dispatch authenticate2 session rnd_a input self = step_authenticate2 session input self

  unfoldable pub step : MechanismData → Str → Option Str → FabFire crate → Ran crate
  unfolding dispatch
  step session rnd_a input self = dispatch self.step session rnd_a input self
