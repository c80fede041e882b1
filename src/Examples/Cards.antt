-- ===== src/Examples/Cards.antt =====
-- A card of a user: bffhd/capnp/user.rs and bffhd/authentication.
use fabaccess_server.Prelude.{
  ◌≡◌, ◌==◌, refl, true, none, some, [], ◌∷◌, if◌then◌else◌, str_eq, length, replicate, accepts,
  Str, codes, ok, err,
}
use fabaccess_server.Users.{User}
use fabaccess_server.Api.Cards.{get_token_list, bind, unbind, binds, token_text}
use fabaccess_server.Api.Cards.Tokens.{pair_of, unbind-bind}
use fabaccess_server.Authentication.Callback.{no_value, callback}
use fabaccess_server.Authentication.Callback.Validates.{callback-bind}
use fabaccess_server.Examples.Fixtures.{table_db, toy_hex, named, ann, table}

abbrev cardless : User
cardless = named ann none []

-- A byte that begins no character.
abbrev binary : Str
binary = 0xff ∷ []

unbind-bind_example :
    (bound : table_db.Db) × (unbound_db : table_db.Db) × (user' : User) × (bind table_db toy_hex
        (codes "key")
        binary
        ann
        (table cardless)
      ≡ ok bound)
    × (get_token_list table_db toy_hex ann bound ≡ ok (binary ∷ []))
    × (unbind table_db toy_hex binary ann bound ≡ ok unbound_db)
    × (table_db.get unbound_db ann ≡ some user')
    × (pair_of table_db toy_hex user' ≡ (none, none))
unfolding binds token_text accepts str_eq
unbind-bind_example =
    unbind-bind table_db toy_hex (codes "key") binary ann (table cardless) cardless refl refl refl
      (λ e. cc)

-- The token is stored as it is, and is no hex digits.
abbrev printable : User
printable = named ann none ((codes "cardtoken", codes "tok") ∷ [])

abbrev key16 : Str
key16 = replicate 16 7

callback-bind_example :
    (db' : table_db.Db) × (bind table_db toy_hex key16 binary ann (table cardless) ≡ ok db')
    × (callback
          (table_db.get db')
          toy_hex
          (record { authid = some ann; authzid = none; password = none })
          true
        ≡ (if length key16 == 16 then ok (some key16) else err no_value))
unfolding binds token_text accepts str_eq
callback-bind_example =
    callback-bind table_db toy_hex key16 binary ann (table cardless) cardless refl refl
