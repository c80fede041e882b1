-- ===== src/Users/Database.antt =====
-- The user database and passwords: bffhd/users/db.rs and bffhd/users/mod.rs, over LMDB and argon2,
-- which are parameters.
pub mod Files
use fabaccess_server.Prelude.{
  ℕ, ◌≡◌, Bool, true, false, not, ◌&&◌, ◌==◌, Option, none, some, List, [], ◌∷◌, if◌then◌else◌,
  str_eq, Str, codes, lookup, map_values, IsDistinct, Result, ok, err,
}
use fabaccess_server.Users.{UserData, User}

-- LMDB, as `UserDB` uses it: what a committed write and a committed removal do. Its errors are left out.
pub record UserDb : Type 1 where
  pub Db : Type 0
  pub get : Db → Str → Option User
  pub put : Db → Str → User → Db
  pub del : Db → Str → Db
  pub clear : Db → Db
  pub get_all : Db → List (Str × User)
  pub get-put :
      (db : Db) (k j : Str) (u : User)
      → get (put db k u) j ≡ (if str_eq k j then some u else get db j)
  pub get-del : (db : Db) (k j : Str) → get (del db k) j ≡ (if str_eq k j then none else get db j)
  pub get-clear : (db : Db) (j : Str) → get (clear db) j ≡ none
  pub lookup-get_all : (db : Db) (j : Str) → lookup (get_all db) j ≡ get db j
  pub get_all-IsDistinct : (db : Db) → IsDistinct (get_all db)

abbrev pub starts_with : Str → Str → Bool
starts_with [] s = true
starts_with (c ∷ prefix) [] = false
starts_with (c ∷ prefix) (d ∷ s) = let rest = starts_with prefix s in if c == d then rest else false

abbrev pub argon2_prefix : Str
argon2_prefix = codes "$argon2"

-- argon2: a hash of a salt and a password, and the check of a password against one; `none` is an error.
pub record Argon2 : Type 0 where
  pub hash_encoded : Str → Str → Str
  pub verify_encoded : Str → Str → Option Bool
  pub verify_encoded-hash_encoded :
      (salt pw : Str) → verify_encoded (hash_encoded salt pw) pw ≡ some true
  pub starts_with-hash_encoded :
      (salt pw : Str) → starts_with argon2_prefix (hash_encoded salt pw) ≡ true

-- `UserDB::delete`, with LMDB's error for a key that is not there.
pub data DeleteError : Type 0 where
  not_found : DeleteError

module _ (argon2 : Argon2) where
  open argon2 use {hash_encoded, verify_encoded}

  -- `User::check_password`.
  unfoldable pub check_password : User → Str → Option Bool
  check_password user pwd = elim user.userdata.passwd [
    | none ↦ some false
    | some encoded ↦ verify_encoded encoded pwd
  ]

  unfoldable pub new_with_plain_pw : Str → Str → Str → User
  new_with_plain_pw salt username password = record {
    id = username;
    userdata = record { roles = []; passwd = some (hash_encoded salt password); kv = [] };
  }

  unfoldable pub set_pw : Str → Str → User → User
  set_pw salt password user = record user {
    userdata = record user.userdata { passwd = some (hash_encoded salt password) };
  }

  -- A password of the file is hashed, unless it is a hash.
  unfoldable pub prepare : Str → UserData → UserData
  prepare salt userdata = elim userdata.passwd [
    | none ↦ userdata
    | some pw ↦
        if not (starts_with argon2_prefix pw)
        then record userdata { passwd = some (hash_encoded salt pw) }
        else userdata
  ]

module _ (lmdb : UserDb) where
  open lmdb use {Db, get, put, del, clear, get_all}

  abbrev pub get_user : Db → Str → Option User
  get_user = get

  abbrev pub put_user : Db → Str → User → Db
  put_user = put

  unfoldable pub del_user : Db → Str → Result DeleteError Db
  del_user db uid = elim (get db uid) [ none ↦ err not_found | some _ ↦ ok (del db uid) ]

  -- `UserDB::get_all`.
  unfoldable pub get_all_userdata : Db → List (Str × UserData)
  get_all_userdata db = map_values (λ (u : User). u.userdata) (get_all db)
