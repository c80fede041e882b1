-- ===== src/Api/Cards.antt =====
-- Card tokens of a user: the DESFire part of bffhd/capnp/user.rs.
pub mod Tokens
use fabaccess_server.Prelude.{
  ◌≡◌, Bool, true, false, not, Option, none, some, List, [], ◌∷◌, if◌then◌else◌, str_eq, Str, codes,
  lookup, erase, insert_key, Result, ok, err, is_utf8,
}
use fabaccess_server.Users.{UserData, User}
use fabaccess_server.Users.Database.{UserDb}
use fabaccess_server.Api.Users.{is_empty}

-- The `hex` crate.
pub record Hex : Type 0 where
  pub encode : Str → Str
  pub decode : Str → Option Str
  pub decode-encode : (bytes : Str) → decode (encode bytes) ≡ some bytes

abbrev pub with_kv : List (Str × Str) → User → User
with_kv kv user = record user { userdata = record user.userdata { kv = kv } }

-- A token as text: UTF-8 as it is, anything else as hex digits.
unfoldable pub token_text : Hex → Str → Str
token_text hex token = if is_utf8 token then token else hex.encode token

-- An API object whose user is gone.
pub data ApiError : Type 0 where
  nonexisting_user : ApiError

-- What hex digits that are stored stand for.
abbrev pub decoded : Hex → Option Str → Option Str
decoded hex none = none
decoded hex (some text) = hex.decode text

abbrev pub token_list : Option Str → List Str
token_list none = []
token_list (some tk) = if is_empty tk then [] else tk ∷ []

-- `unbind` removes token and key where the token is the one that is stored.
unfoldable pub unbound : Str → Option Str → List (Str × Str) → List (Str × Str)
unbound text none kv = kv
unbound text (some prev_token) kv =
    if str_eq text prev_token then erase (codes "cardkey") (erase (codes "cardtoken") kv) else kv

-- Whether `bind` writes: not where the token is the one that the user has together with a key.
unfoldable pub binds : Str → Option Str → Option Str → Bool
binds token (some prev_token) (some prev_cardk) = not (str_eq prev_token token)
binds token _ _ = true

module _ (lmdb : UserDb) where
  open lmdb use {Db, put}

  -- The tokens of a user: at most one.
  unfoldable pub get_token_list : Hex → Str → Db → Result ApiError (List Str)
  get_token_list hex uid db = elim (lmdb.get db uid) [
    | none ↦ err nonexisting_user
    | some user ↦ ok (token_list (decoded hex (lookup user.userdata.kv (codes "cardtoken"))))
  ]

  unfoldable pub bind : Hex → Str → Str → Str → Db → Result ApiError Db
  unfolding token_text binds
  bind hex auth_key token uid db = elim (lmdb.get db uid) [
    | none ↦ err nonexisting_user
    | some user ↦
        let kv = user.userdata.kv in
        let text = token_text hex token in
        let bound =
          insert_key (codes "cardkey") (hex.encode auth_key)
            (insert_key (codes "cardtoken") text kv) in
        if binds text (lookup kv (codes "cardtoken")) (lookup kv (codes "cardkey"))
        then ok (put db uid (with_kv bound user))
        else ok db
  ]

  unfoldable pub unbind : Hex → Str → Str → Db → Result ApiError Db
  unfolding token_text unbound
  unbind hex token uid db = elim (lmdb.get db uid) [
    | none ↦ err nonexisting_user
    | some user ↦
        let kv = user.userdata.kv in
        let text = token_text hex token in
        ok (put db uid (with_kv (unbound text (lookup kv (codes "cardtoken")) kv) user))
  ]
