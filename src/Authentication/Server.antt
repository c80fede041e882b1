-- ===== src/Authentication/Server.antt =====
-- The FabFire mechanisms with the callback of the server, as `rsasl` joins them: a property that a
-- mechanism needs is asked of `callback`, and a validation of it goes to `validate`.
pub mod Owner
use fabaccess_server.Prelude.{◌≡◌, Bool, true, Option, none, some, Str, Result, ok, err, panic}
use fabaccess_server.Users.{User}
use fabaccess_server.Users.Database.{Argon2}
use fabaccess_server.Session.{Users}
use fabaccess_server.Api.Cards.{Hex}
use fabaccess_server.Authentication.Callback.{
  Context, CallbackError, ValidationError, callback, validate,
}
use fabaccess_server.Authentication.Protocol.{
  SessionError, no_property, validation_error, MechanismData,
}

-- A FabFire mechanism provides the user's name and nothing else.
abbrev pub context_of : Str → Context
context_of authid = record { authid = some authid; authzid = none; password = none }

abbrev pub needed : Result CallbackError (Option Str) → Result SessionError Str
needed (ok (some key)) = ok key
needed (ok none) = err no_property
needed (err _) = err no_property
needed panic = panic

abbrev pub judged : Result ValidationError (Option User) → Result SessionError (Option User)
judged (ok user) = ok user
judged (err _) = err validation_error
judged panic = panic

unfoldable pub server_session : Users → Hex → Argon2 → Str → MechanismData
server_session users hex argon2 mechanism = record {
  need_with = λ authid. needed (callback users hex (context_of authid) true);
  validate = λ authid. judged (validate users argon2 mechanism true (context_of authid));
}
