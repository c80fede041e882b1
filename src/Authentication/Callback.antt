-- ===== src/Authentication/Callback.antt =====
-- The SASL callback of the server, bffhd/authentication/mod.rs: the key of a card, and whom it lets in.
pub mod Validates
use fabaccess_server.Prelude.{
  ◌≡◌, Bool, true, false, not, Option, none, some, List, [], ◌∷◌, ◌||◌, ◌==◌, if◌then◌else◌, length,
  str_eq, Str, codes, lookup, Result, ok, err, ◌>>=◌,
}
use fabaccess_server.Users.{UserData, User}
use fabaccess_server.Users.Database.{Argon2, check_password}
use fabaccess_server.Session.{Users}
use fabaccess_server.Api.Users.{is_empty}
use fabaccess_server.Api.Cards.{Hex}

-- The properties that a mechanism provides to the callback.
pub record Context : Type 0 where
  pub authid : Option Str
  pub authzid : Option Str
  pub password : Option Str

pub data CallbackError : Type 0 where
  no_value : CallbackError

pub data ValidationError : Type 0 where
  missing_required_property : ValidationError

abbrev pub ok_or : {E A : Type 0} → E → Option A → Result E A
ok_or e none = err e
ok_or e (some a) = ok a

-- `<[u8; 16]>::try_from`.
unfoldable pub card_key_of : Str → Result CallbackError Str
card_key_of bytes = if length bytes == 16 then ok bytes else err no_value

abbrev pub is_fabfire : Str → Bool
is_fabfire mechanism =
    str_eq mechanism (codes "X-FABFIRE") || str_eq mechanism (codes "X-FABFIRE-BIN")

module _ (users : Users) where
  -- The closure of `callback`: the key of the user's card.
  unfoldable pub card_key : Hex → Str → Result CallbackError Str
  unfolding card_key_of
  card_key hex authid = do
    user ← ok_or no_value (users authid)
    kv ← ok_or no_value (lookup user.userdata.kv (codes "cardkey"))
    bytes ← ok_or no_value (hex.decode kv)
    card_key_of bytes

  -- `callback`: what satisfies the request. `is_card_key` tells whether it is a request for the key.
  unfoldable pub callback : Hex → Context → Bool → Result CallbackError (Option Str)
  unfolding card_key
  callback hex context is_card_key = elim context.authid [
    | none ↦ ok none
    | some authid ↦ if is_card_key then (card_key hex authid >>= λ key. ok (some key)) else ok none
  ]

  unfoldable pub validate_plain : Argon2 → Context → Result ValidationError (Option User)
  validate_plain argon2 context = do
    authcid ← ok_or missing_required_property context.authid
    authzid ← ok_or missing_required_property context.authzid
    password ← ok_or missing_required_property context.password
    if not (is_empty authzid) then ok none else elim (users authcid) [
      | none ↦ ok none
      | some user ↦ elim (check_password argon2 user password) [
        | some true ↦ ok (some user)
        | some false ↦ ok none
        | none ↦ ok none
      ]
    ]

  unfoldable pub validate_fabfire : Context → Result ValidationError (Option User)
  validate_fabfire context = do
    authcid ← ok_or missing_required_property context.authid
    ok (users authcid)

  -- `validate`: the user that is let in. `is_v` tells whether the validation is the server's own.
  unfoldable pub validate : Argon2 → Str → Bool → Context → Result ValidationError (Option User)
  unfolding validate_plain validate_fabfire
  validate argon2 mechanism is_v context =
      if is_v
      then (if str_eq mechanism (codes "PLAIN")
          then validate_plain argon2 context
          else if is_fabfire mechanism
          then validate_fabfire context
          else ok none)
      else ok none
