-- ===== src/Api/Users.antt =====
-- Users over the API: bffhd/capnp/user.rs and bffhd/capnp/user_system.rs. A handler takes the database
-- and gives it back.
pub mod Accounts
use fabaccess_server.Prelude.{
  ℕ, ◌≡◌, Bool, true, false, not, ◌&&◌, ◌||◌, Option, none, some, List, [], ◌∷◌, ◌++◌,
  if◌then◌else◌, str_eq, Str, codes, Result, ok, err, map_option,
}
use fabaccess_server.Users.{UserData, User}
use fabaccess_server.Users.Database.{
  UserDb, Argon2, check_password, set_pw, new_with_plain_pw, del_user, get_all_userdata,
}
use fabaccess_server.Authorization.Permissions.{Permission}
use fabaccess_server.Authorization.Roles.{Roles, get, ◌>>=◌}
use fabaccess_server.Session.{SessionHandle, has_perm}

-- What a client gets of a user: the name, and which interfaces.
pub record UserView : Type 0 where
  pub username : Str
  pub info : Bool
  pub manage : Bool
  pub admin : Bool
  pub card_desfire_ev2 : Bool

-- `User::fill`; `none` where the recursion over the roles is deeper than the fuel.
unfoldable pub fill : ℕ → SessionHandle → User → Option UserView
fill fuel session user = do
  let is_me = str_eq session.user user.id
  info ← if is_me then some true else has_perm fuel session (codes "bffh.users.info")
  admin ← has_perm fuel session (codes "bffh.users.admin")
  some (record {
    username = user.id;
    info = info;
    manage = is_me;
    admin = admin;
    card_desfire_ev2 = admin;
  })

-- `roles.iter().any(…)`.
unfoldable pub has_role : Str → List Str → Bool
has_role name [] = false
has_role name (r ∷ rs) = str_eq r name || has_role name rs

-- `roles.retain(…)`.
unfoldable pub without_role : Str → List Str → List Str
without_role name [] = []
without_role name (r ∷ rs) =
    let rest = without_role name rs in if not (str_eq r name) then r ∷ rest else rest

abbrev pub with_roles : List Str → User → User
with_roles rs user = record user { userdata = record user.userdata { roles = rs } }

pub data AddUserError : Type 0 where
  already_exists username_invalid password_invalid : AddUserError

abbrev pub is_empty : Str → Bool
is_empty [] = true
is_empty (_ ∷ _) = false

module _ (lmdb : UserDb) where
  open lmdb use {Db, put}

  -- The session of a user on the database of the moment.
  abbrev pub session_at : Roles → Db → Str → SessionHandle
  session_at roles db uid = record { users = lmdb.get db; roles = roles; user = uid }

  unfoldable pub build_optional : ℕ → Roles → Db → Str → Option Str → Option (Option UserView)
  unfolding fill
  build_optional fuel roles db me none = some none
  build_optional fuel roles db me (some uid) = elim (lmdb.get db uid) [
    | none ↦ some none
    | some user ↦ (fill fuel (session_at roles db me) user >>= λ view. some (some view))
  ]

  -- `info::Server::list_roles`; a user that is gone has none.
  unfoldable pub list_roles : Db → Str → List Str
  list_roles db uid = elim (lmdb.get db uid) [ none ↦ [] | some user ↦ user.userdata.roles ]

  -- `manage::Server::pwd`, of a user for themselves.
  unfoldable pub pwd : Argon2 → Str → Str → Str → Str → Db → Db
  pwd argon2 salt old_pw new_pw uid db = elim (lmdb.get db uid) [
    | none ↦ db
    | some user ↦ elim (check_password argon2 user old_pw) [
      | none ↦ db
      | some correct ↦ if correct then put db uid (set_pw argon2 salt new_pw user) else db
    ]
  ]

  -- `admin::Server::pwd`.
  unfoldable pub admin_pwd : Argon2 → Str → Str → Str → Db → Db
  admin_pwd argon2 salt new_pw uid db = elim (lmdb.get db uid) [
    | none ↦ db
    | some user ↦ put db uid (set_pw argon2 salt new_pw user)
  ]

  -- `none` is the panic of the `unwrap` on a user that is gone.
  unfoldable pub add_role : Roles → Str → Str → Db → Option Db
  add_role roles name uid db = elim (get roles name) [
    | none ↦ some db
    | some _ ↦ elim (lmdb.get db uid) [
      | none ↦ none
      | some target ↦
          if not (has_role name target.userdata.roles)
          then some (put db uid (with_roles (target.userdata.roles ++ (name ∷ [])) target))
          else some db
    ]
  ]

  unfoldable pub remove_role : Roles → Str → Str → Db → Option Db
  remove_role roles name uid db = elim (get roles name) [
    | none ↦ some db
    | some _ ↦ elim (lmdb.get db uid) [
      | none ↦ none
      | some target ↦
          if has_role name target.userdata.roles
          then some (put db uid (with_roles (without_role name target.userdata.roles) target))
          else some db
    ]
  ]

  -- `add_user_fallible`: the database after it, or why the user was not added. The view of the new user
  -- in the answer is that of `fill`, and is left out here.
  unfoldable pub add_user_fallible : Argon2 → Str → Str → Str → Db → Result AddUserError Db
  add_user_fallible argon2 salt username password db =
      if not (is_empty username) && not (is_empty password)
      then elim (lmdb.get db username) [
        | none ↦ ok (put db username (new_with_plain_pw argon2 salt username password))
        | some _ ↦ err already_exists
      ]
      else if is_empty username
      then err username_invalid
      else err password_invalid

  -- `remove_user`; an error is logged.
  unfoldable pub remove_user : Str → Db → Db
  unfolding del_user
  remove_user who db = elim (del_user lmdb db who) [ ok db' ↦ db' | err _ ↦ db | Result.panic ↦ db ]

  unfoldable pub get_user_by_name : ℕ → Roles → Db → Str → Str → Option (Option UserView)
  unfolding build_optional
  get_user_by_name fuel roles db me username = build_optional fuel roles db me (some username)

  -- `get_user_list`, in the order in which the database lists the users.
  unfoldable pub fill_all : ℕ → SessionHandle → List (Str × UserData) → Option (List UserView)
  unfolding fill
  fill_all fuel session [] = some []
  fill_all fuel session ((id, userdata) ∷ users) = do
    view ← fill fuel session (record { id = id; userdata = userdata })
    views ← fill_all fuel session users
    some (view ∷ views)

  unfoldable pub get_user_list : ℕ → Roles → Db → Str → Option (List UserView)
  unfolding fill_all get_all_userdata
  get_user_list fuel roles db me = fill_all fuel (session_at roles db me) (get_all_userdata lmdb db)
