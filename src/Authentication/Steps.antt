-- ===== src/Authentication/Steps.antt =====
-- The steps of an exchange with a card which the two FabFire mechanisms have in common,
-- bffhd/authentication/fabfire/server.rs and bffhd/authentication/fabfire_bin/server.rs.
pub mod Refines
use fabaccess_server.Prelude.{
  ℕ, Bool, ◌&&◌, Option, none, some, [], ◌∷◌, if◌then◌else◌, str_eq, Str, Result, ok, err, length,
  is_utf8,
}
use fabaccess_server.Authentication.Protocol.{
  parse_error, card_error, invalid_credentials, SessionError, input_data_required, not_sent,
  finished, KeyInfo, AuthInfo, Step, verify_magic, get_urn, get_token, authenticate1, authenticate2,
  DesfireCrate, MechanismData, magic, trim_matches, utf8_or_panic, FabFire, Ran, attempt, failed,
  or_parse_error, checked_body, command_bytes, advance, unwrap,
}

-- How a mechanism speaks with its reader: what the card answered, and the form of a command.
pub record Reader : Type 0 where
  pub response : Option Str → Result SessionError Str
  pub encode : Str → Result SessionError Str

module _ (crate : DesfireCrate) (reader : Reader) (accepts : Str → Bool) where
  -- A command for the card, in the form that the reader takes.
  unfoldable pub send : Step → Option crate.ApduCommand → FabFire crate → Ran crate
  unfolding command_bytes advance
  send next command self = attempt crate (command_bytes crate command) self (λ buf.
      attempt crate (reader.encode buf) self (λ send_buf. advance crate accepts next send_buf self))

  unfoldable pub step_select_app : Option Str → FabFire crate → Ran crate
  step_select_app input self = attempt crate (reader.response input) self (λ answer.
      if crate.check (crate.response_new answer)
      then send verify_magic (crate.read_data_chunk_cmd self.desfire 0x01 0 (length magic)) self
      else (failed crate card_error, self))

  unfoldable pub step_verify_magic : Option Str → FabFire crate → Ran crate
  step_verify_magic input self = attempt crate (reader.response input) self (λ answer.
      attempt crate (checked_body crate answer) self (λ bytes.
        if is_utf8 bytes && str_eq bytes magic
        then send get_urn (crate.read_data_chunk_cmd self.desfire 0x02 0 (length self.local_urn))
            self
        else (failed crate parse_error, self)))

  unfoldable pub step_get_urn : Option Str → FabFire crate → Ran crate
  step_get_urn input self = attempt crate (reader.response input) self (λ answer.
      attempt crate (checked_body crate answer) self (λ bytes.
        attempt crate (utf8_or_panic bytes) self (λ received_urn.
          if str_eq received_urn self.local_urn
          then send get_token
              (crate.read_data_chunk_cmd self.desfire 0x03 0 crate.max_bytes_per_transaction) self
          else (failed crate parse_error, self))))

  unfoldable pub step_get_token : MechanismData → Option Str → FabFire crate → Ran crate
  step_get_token session input self = attempt crate (reader.response input) self (λ answer.
      attempt crate (checked_body crate answer) self (λ bytes.
        attempt crate (utf8_or_panic bytes) self (λ text.
          let authid = trim_matches text in
          attempt crate (session.need_with authid) self (λ key.
            send authenticate1 (crate.authenticate_iso_aes_challenge_cmd self.desfire 0x01)
              (record self {
                key_info = some (record { authid = authid; key_id = 0x01; key = key });
              })))))

  unfoldable pub step_authenticate1 : Str → Option Str → FabFire crate → Ran crate
  step_authenticate1 rnd_a input self = attempt crate (reader.response input) self (λ answer.
      attempt crate (checked_body crate answer) self (λ rnd_b_enc.
        attempt crate (unwrap crate self.key_info) self (λ info.
          let (desfire, challenge) =
            crate.authenticate_iso_aes_response_cmd self.desfire rnd_b_enc info.key rnd_a in
          let self' = record self { desfire = desfire } in
          attempt crate (unwrap crate challenge) self' (λ (command, rnd_b, iv).
            send authenticate2 (some command) (record self' {
              auth_info = some (record { rnd_a = rnd_a; rnd_b = rnd_b; iv = iv });
            })))))

  -- The card's proof is checked; where it is good the exchange is finished, and
  -- where it is bad it ends with no error and no validation.
  unfoldable pub judge :
      (KeyInfo → FabFire crate → Ran crate) → Str → AuthInfo → KeyInfo → FabFire crate → Ran crate
  judge finish bytes auth_info info self =
      let (desfire, verified) =
        crate.authenticate_iso_aes_verify self.desfire bytes auth_info.rnd_a auth_info.rnd_b
          info.key auth_info.iv in
      let self' = record self { desfire = desfire } in
      if verified then finish info self' else (ok (finished not_sent), self')

  unfoldable pub step_authenticate2 :
      (KeyInfo → FabFire crate → Ran crate) → Option Str → FabFire crate → Ran crate
  unfolding judge
  step_authenticate2 finish input self = attempt crate (reader.response input) self (λ answer.
      let response = crate.response_new answer in
      if crate.check response
      then attempt crate (or_parse_error crate (crate.body response)) self (λ bytes.
        attempt crate (or_parse_error crate self.auth_info) self (λ auth_info.
          attempt crate (unwrap crate self.key_info) self
            (λ info. judge finish bytes auth_info info self)))
      else (failed crate (invalid_credentials (crate.display response)), self))
