-- ===== src/Authentication/Protocol.antt =====
-- What the two FabFire mechanisms share, bffhd/authentication/fabfire/server.rs: the state of an
-- exchange with a card, its errors, and the libraries for cards and for sessions.
pub mod Moves
pub mod Rules
use fabaccess_server.Prelude.{
  ℕ, zero, suc, Bool, true, false, ◌==◌, Option, none, some, List, [], ◌∷◌, ◌++◌, if◌then◌else◌,
  Str, codes, Result, ok, err, panic, is_utf8,
}
use fabaccess_server.Users.{User}

-- An error of a library is named without its contents.
pub data FabFireError : Type 0 where
  parse_error serialization_error deserialization_error card_error : FabFireError
  invalid_magic invalid_token invalid_urn invalid_credentials : Str → FabFireError
  session : FabFireError

pub data MechanismErrorKind : Type 0 where
  parse protocol : MechanismErrorKind

unfoldable pub kind : FabFireError → MechanismErrorKind
kind parse_error = parse
kind serialization_error = protocol
kind deserialization_error = parse
kind card_error = protocol
kind (invalid_magic _) = protocol
kind (invalid_token _) = protocol
kind (invalid_urn _) = protocol
kind (invalid_credentials _) = protocol
kind session = protocol

-- `rsasl`'s errors, with the mechanism's own among them.
pub data SessionError : Type 0 where
  input_data_required io_error no_property validation_error : SessionError
  mechanism_error : FabFireError → SessionError

pub data MessageSent : Type 0 where
  sent not_sent : MessageSent

pub data Progress : Type 0 where
  running : Progress
  finished : MessageSent → Progress

pub record CardInfo : Type 0 where
  pub uid : Str
  pub key_old : Option Str
  pub key_new : Option Str

pub record KeyInfo : Type 0 where
  pub authid : Str
  pub key_id : ℕ
  pub key : Str

pub record AuthInfo : Type 0 where
  pub rnd_a : Str
  pub rnd_b : Str
  pub iv : Str

pub data Step : Type 0 where
  new select_app verify_magic get_urn get_token authenticate1 authenticate2 : Step

-- The `desfire` crate: commands for the card, the card's answers, and the two ends of the
-- authentication, which change the state of the crate; `none` is an error.
pub record DesfireCrate : Type 1 where
  pub Desfire : Type 0
  pub no_card : Desfire
  pub ApduCommand : Type 0
  pub ApduResponse : Type 0
  pub select_application_cmd : Desfire → ℕ → Option ApduCommand
  pub read_data_chunk_cmd : Desfire → ℕ → ℕ → ℕ → Option ApduCommand
  pub authenticate_iso_aes_challenge_cmd : Desfire → ℕ → Option ApduCommand
  pub authenticate_iso_aes_response_cmd :
      Desfire → Str → Str → Str → Desfire × Option (ApduCommand × Str × Str)
  pub authenticate_iso_aes_verify : Desfire → Str → Str → Str → Str → Str → Desfire × Bool
  pub to_vec : ApduCommand → Option Str
  pub response_new : Str → ApduResponse
  pub check : ApduResponse → Bool
  pub body : ApduResponse → Option Str
  pub display : ApduResponse → Str
  pub max_bytes_per_transaction : ℕ

-- `MechanismData`: the key of a user's card, and the server's validation of a user, which gives the
-- user that is let in.
pub record MechanismData : Type 0 where
  pub need_with : Str → Result SessionError Str
  pub validate : Str → Result SessionError (Option User)

-- "FABACCESS\0DESFIRE\01.0\0"
abbrev pub magic : Str
magic = codes "FABACCESS" ++ 0 ∷ codes "DESFIRE" ++ 0 ∷ codes "1.0" ++ 0 ∷ []

abbrev pub app_id : ℕ
app_id = 0x464142

-- `trim_matches(char::from(0))`.
unfoldable pub trim_start : Str → Str
trim_start [] = []
trim_start (zero ∷ s) = trim_start s
trim_start (suc c ∷ s) = suc c ∷ s

unfoldable pub trim_end : Str → Str
trim_end [] = []
trim_end (c ∷ s) = elim (trim_end s) [ [] ↦ if c == 0 then [] else c ∷ [] | d ∷ r ↦ c ∷ d ∷ r ]

unfoldable pub trim_matches : Str → Str
unfolding trim_start trim_end
trim_matches s = trim_end (trim_start s)

-- `String::from_utf8(data).unwrap()`.
unfoldable pub utf8_or_panic : Str → Result SessionError Str
utf8_or_panic bytes = if is_utf8 bytes then ok bytes else panic

module _ (crate : DesfireCrate) where
  -- The mechanism with what it wrote to the reader, the latest first, and the user that it let in.
  pub record FabFire : Type 0 where
    pub step : Step
    pub card_info : Option CardInfo
    pub key_info : Option KeyInfo
    pub auth_info : Option AuthInfo
    pub local_urn : Str
    pub desfire : crate.Desfire
    pub written : List Str
    pub user : Option User

  abbrev pub Ran : Type 0
  Ran = Result SessionError Progress × FabFire

  -- `?` and the early returns: an error or a panic ends the step with the state as it is.
  unfoldable pub attempt : {A : Type 0} → Result SessionError A → FabFire → (A → Ran) → Ran
  attempt (ok a) self k = k a
  attempt (err e) self k = (err e, self)
  attempt panic self k = (panic, self)

  abbrev pub failed : {A : Type 0} → FabFireError → Result SessionError A
  failed e = err (mechanism_error e)

  -- A missing body, or a missing challenge.
  abbrev pub or_parse_error : {A : Type 0} → Option A → Result SessionError A
  or_parse_error none = failed parse_error
  or_parse_error (some a) = ok a

  -- The body of an answer that the card gave without an error.
  unfoldable pub checked_body : Str → Result SessionError Str
  checked_body answer =
      let response = crate.response_new answer in
      if crate.check response then or_parse_error (crate.body response) else failed parse_error

  -- A command for the card as bytes.
  unfoldable pub command_bytes : Option crate.ApduCommand → Result SessionError Str
  command_bytes none = failed serialization_error
  command_bytes (some command) = elim (crate.to_vec command) [
    | none ↦ failed serialization_error
    | some bytes ↦ ok bytes
  ]

  -- The end of a step: the next step is set before the write, which may fail.
  unfoldable pub advance : (Str → Bool) → Step → Str → FabFire → Ran
  advance accepts next bytes self =
      let self' = record self { step = next } in
      if accepts bytes
      then (ok running, record self' { written = bytes ∷ self.written })
      else (err io_error, self')

  -- `as_ref().unwrap()`.
  unfoldable pub unwrap : {A : Type 0} → Option A → Result SessionError A
  unwrap none = panic
  unwrap (some a) = ok a

  -- What a validation adds: `finalize` sets the user.
  unfoldable pub finalize : Option User → FabFire → FabFire
  finalize none self = self
  finalize (some u) self = record self { user = some u }
