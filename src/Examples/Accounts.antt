-- ===== src/Examples/Accounts.antt =====
-- Accounts of a small workshop: bffhd/users and bffhd/capnp/user.rs.
use fabaccess_server.Prelude.{
  ◌≡◌, ◌≢◌, ◌⊎◌, ◌↔◌, refl, true, some, [], ◌∷◌, if◌then◌else◌, str_eq, Str, codes, lookup, ok,
}
use fabaccess_server.Users.{User}
use fabaccess_server.Users.Database.{check_password}
use fabaccess_server.Authorization.Roles.{Role, Roles, get}
use fabaccess_server.Session.{Users}
use fabaccess_server.Api.Users.{has_role, pwd, add_user_fallible}
use fabaccess_server.Api.Users.Accounts.{
  AddOutcome, add_user_fallible-AddOutcome, KeepsOthers, pwd_decides, change_role, change_role_lem,
}
use fabaccess_server.Authentication.Callback.{Context, validate}
use fabaccess_server.Authentication.Callback.Validates.{plain, IsLogin, validate_iff}
use fabaccess_server.Examples.Fixtures.{table_db, toy_argon2, hash_of, named, ann, table}

abbrev annas : User
annas = named ann (some (hash_of (codes "pw"))) []

add_user_fallible-AddOutcome_example :
    AddOutcome table_db toy_argon2
      (codes "bob")
      (codes "pw")
      (table annas)
      (add_user_fallible table_db toy_argon2 [] (codes "bob") (codes "pw") (table annas))
add_user_fallible-AddOutcome_example =
    add_user_fallible-AddOutcome table_db toy_argon2 [] (codes "bob") (codes "pw") (table annas)

pwd_decides_example :
    ((check_password toy_argon2 annas (codes "pw") ≡ some true)
      × (user' : User) × (table_db.get
            (pwd table_db toy_argon2 [] (codes "pw") (codes "new") ann (table annas))
            ann
          ≡ some user')
      × (check_password toy_argon2 user' (codes "new") ≡ some true)
      × (user'.userdata.roles ≡ [])
      × KeepsOthers table_db ann
          (table annas)
          (pwd table_db toy_argon2 [] (codes "pw") (codes "new") ann (table annas)))
    ⊎ ((check_password toy_argon2 annas (codes "pw") ≢ some true)
        × (pwd table_db toy_argon2 [] (codes "pw") (codes "new") ann (table annas) ≡ table annas))
unfolding str_eq
pwd_decides_example =
    pwd_decides table_db toy_argon2 [] (codes "pw") (codes "new") ann (table annas) annas refl

abbrev member : Role
member = record { parents = []; permissions = [] }

abbrev roles : Roles
roles = (codes "member", member) ∷ []

change_role_lem_example :
    (db' : table_db.Db) × (user' : User) × (change_role table_db true roles
        (codes "member")
        ann
        (table annas)
      ≡ some db')
    × (table_db.get db' ann ≡ some user')
    × ((n : Str)
        → has_role n user'.userdata.roles
          ≡ (if str_eq (codes "member") n then true else has_role n []))
    × (user'.userdata.passwd ≡ some (hash_of (codes "pw")))
    × KeepsOthers table_db ann (table annas) db'
unfolding get str_eq
change_role_lem_example =
    change_role_lem table_db true roles member (codes "member") ann (table annas) annas refl refl

abbrev users : Users
users id = lookup ((ann, annas) ∷ []) id

abbrev login : Context
login = record { authid = some ann; authzid = some []; password = some (codes "pw") }

validate_iff_example :
    (validate users toy_argon2 plain true login ≡ ok (some annas))
    ↔ IsLogin users toy_argon2 login annas
validate_iff_example = validate_iff users toy_argon2 login annas
