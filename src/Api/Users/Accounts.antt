-- ===== src/Api/Users/Accounts.antt =====
-- What the handlers for accounts do: adding a user, changing a password, giving and taking roles.
use fabaccess_server.Prelude.{
  ◌≡◌, ◌≢◌, ◌⊎◌, refl, ◌∙◌, Bool, true, false, ◌||◌, Option, none, some, List, [], ◌∷◌, ◌++◌,
  if◌then◌else◌, Bool-cases, inl, inr, str_eq, str_eq_sound, str_eq_refl, Str, Result, ok, err,
  arith,
}
use fabaccess_server.Users.{User}
use fabaccess_server.Users.Database.{UserDb, Argon2, check_password, set_pw, new_with_plain_pw}
use fabaccess_server.Users.Database.Files.{check_password-set_pw}
use fabaccess_server.Authorization.Roles.{Role, Roles, get}
use fabaccess_server.Api.Users.{
  has_role, without_role, with_roles, AddUserError, already_exists, username_invalid,
  password_invalid, pwd, add_role, remove_role, add_user_fallible,
}

module _ (lmdb : UserDb) where
  -- Every user but one is as before.
  abbrev pub KeepsOthers : Str → lmdb.Db → lmdb.Db → Type 0
  KeepsOthers uid db db' =
      (other : Str) → str_eq uid other ≡ false → lmdb.get db' other ≡ lmdb.get db other

  put-KeepsOthers :
      (uid : Str) (user : User) (db : lmdb.Db) → KeepsOthers uid db (lmdb.put db uid user)
  put-KeepsOthers uid user db other h = rw (lmdb.get-put db uid other user, h)

  put_self :
      (uid : Str) (user : User) (db : lmdb.Db) → lmdb.get (lmdb.put db uid user) uid ≡ some user
  put_self uid user db = rw (lmdb.get-put db uid uid user, str_eq_refl uid)

  -- How adding a user may end.
  abbrev pub AddOutcome : Argon2 → Str → Str → lmdb.Db → Result AddUserError lmdb.Db → Type 0
  AddOutcome argon2 username password db (ok db') =
      (username ≢ [])
      × (password ≢ [])
      × (lmdb.get db username ≡ none)
      × (user : User) × (lmdb.get db' username ≡ some user)
      × (user.id ≡ username)
      × (user.userdata.roles ≡ [])
      × (check_password argon2 user password ≡ some true)
      × KeepsOthers username db db'
  AddOutcome argon2 username password db (err already_exists) =
      (username ≢ []) × (password ≢ []) × (user : User) × (lmdb.get db username ≡ some user)
  AddOutcome argon2 username password db (err username_invalid) = username ≡ []
  AddOutcome argon2 username password db (err password_invalid) = (username ≢ []) × (password ≡ [])
  AddOutcome argon2 username password db Result.panic = ⊥

  -- Adding a user succeeds only for a name and a password that are not empty and a name that
  -- was not there, and then stores a user of this name without roles, whom the password lets
  -- in, and keeps every other user; it answers that the user exists only where one does, that
  -- the name is invalid only where it is empty, and that the password is invalid only where
  -- just that is empty; it never panics.
  pub add_user_fallible-AddOutcome :
      (argon2 : Argon2) (salt username password : Str) (db : lmdb.Db)
      → AddOutcome argon2 username password db
          (add_user_fallible lmdb argon2 salt username password db)
  unfolding add_user_fallible new_with_plain_pw
  add_user_fallible-AddOutcome argon2 salt [] password db = refl
  add_user_fallible-AddOutcome argon2 salt (c ∷ username) [] db = (λ e. ground arith, refl)
  add_user_fallible-AddOutcome argon2 salt (c ∷ username) (d ∷ password) db =
      added (lmdb.get db (c ∷ username)) refl
    where
      user : User
      user = new_with_plain_pw argon2 salt (c ∷ username) (d ∷ password)

      added :
          (o : Option User)
          → lmdb.get db (c ∷ username) ≡ o
          → AddOutcome argon2
              (c ∷ username)
              (d ∷ password)
              db
              (elim o [ none ↦ ok (lmdb.put db (c ∷ username) user) | some _ ↦ err already_exists ])
      added none e = (
        λ q. ground arith,
        λ q. ground arith,
        e,
        user,
        put_self (c ∷ username) user db,
        refl,
        refl,
        (unfold check_password in argon2.verify_encoded-hash_encoded salt (d ∷ password)),
        put-KeepsOthers (c ∷ username) user db,
      )
      added (some old) e = (λ q. ground arith, λ q. ground arith, old, e)

  -- For a user of the database, either the old password passes the check, and after `pwd` the
  -- new one does, with the roles of the user and all other users as before; or it does not, and
  -- the database is as before.
  pub pwd_decides :
      (argon2 : Argon2) (salt old_pw new_pw uid : Str) (db : lmdb.Db) (user : User)
      → lmdb.get db uid ≡ some user
      → ((check_password argon2 user old_pw ≡ some true)
          × (user' : User) × (lmdb.get (pwd lmdb argon2 salt old_pw new_pw uid db) uid ≡ some user')
          × (check_password argon2 user' new_pw ≡ some true)
          × (user'.userdata.roles ≡ user.userdata.roles)
          × KeepsOthers uid db (pwd lmdb argon2 salt old_pw new_pw uid db))
        ⊎ ((check_password argon2 user old_pw ≢ some true)
            × (pwd lmdb argon2 salt old_pw new_pw uid db ≡ db))
  unfolding pwd
  pwd_decides argon2 salt old_pw new_pw uid db user e =
      cases (check_password argon2 user old_pw) refl
    where
      cases :
          (o : Option Bool)
          → check_password argon2 user old_pw ≡ o
          → ((check_password argon2 user old_pw ≡ some true)
              × (user' : User) × (lmdb.get (pwd lmdb argon2 salt old_pw new_pw uid db) uid
                  ≡ some user')
              × (check_password argon2 user' new_pw ≡ some true)
              × (user'.userdata.roles ≡ user.userdata.roles)
              × KeepsOthers uid db (pwd lmdb argon2 salt old_pw new_pw uid db))
            ⊎ ((check_password argon2 user old_pw ≢ some true)
                × (pwd lmdb argon2 salt old_pw new_pw uid db ≡ db))
      cases none q = inr (λ p. cc, rw (e, pwd, q))
      cases (some false) q = inr (λ p. ground arith, rw (e, pwd, q))
      cases (some true) q =
          let user' = set_pw argon2 salt new_pw user in
          let written : pwd lmdb argon2 salt old_pw new_pw uid db ≡ lmdb.put db uid user' =
            rw (e, pwd, q) in
          inl (
            q,
            user',
            rw written (put_self uid user' db),
            (check_password-set_pw argon2 salt new_pw user).0,
            (unfold set_pw in refl),
            rw written (put-KeepsOthers uid user' db),
          )

has_role-append :
    (n name : Str) (rs : List Str)
    → has_role n (rs ++ (name ∷ [])) ≡ (has_role n rs || str_eq name n)
unfolding has_role
has_role-append n name [] = ground arith
has_role-append n name (r ∷ rs) = let rest = has_role-append n name rs in ground arith

has_role-without_role :
    (n name : Str) (rs : List Str)
    → has_role n (without_role name rs) ≡ (if str_eq name n then false else has_role n rs)
unfolding has_role without_role
has_role-without_role n name [] = ground arith
has_role-without_role n name (r ∷ rs) =
    let rest = has_role-without_role n name rs in
    elim (Bool-cases (str_eq r name)) [
      | inl same ↦ rw (str_eq_sound r name same, str_eq_refl name) (ground arith)
      | inr other ↦ elim (Bool-cases (str_eq name n)) [
        | inl t ↦
            let apart : str_eq r n ≡ false = rw (str_eq_sound name n t) at other in ground arith
        | inr f ↦ ground arith
      ]
    ]

module _ (lmdb : UserDb) where
  -- The role is given, or taken.
  abbrev pub change_role : Bool → Roles → Str → Str → lmdb.Db → Option lmdb.Db
  change_role true = add_role lmdb
  change_role false = remove_role lmdb

  -- For a defined role and a user of the database, giving and taking the role does not panic;
  -- afterwards the user has the role if it was given and lacks it if it was taken, has each
  -- other role as before, and keeps the password; other users are as before.
  pub change_role_lem :
      (given : Bool) (roles : Roles) (role : Role) (name uid : Str) (db : lmdb.Db) (user : User)
      → get roles name ≡ some role
      → lmdb.get db uid ≡ some user
      → (db' : lmdb.Db) × (user' : User) × (change_role given roles name uid db ≡ some db')
        × (lmdb.get db' uid ≡ some user')
        × ((n : Str)
            → has_role n user'.userdata.roles
              ≡ (if str_eq name n then given else has_role n user.userdata.roles))
        × (user'.userdata.passwd ≡ user.userdata.passwd)
        × KeepsOthers lmdb uid db db'
  unfolding add_role remove_role
  change_role_lem given roles role name uid db user known e =
      change given (Bool-cases (has_role name user.userdata.roles))
    where
      Changed : Bool → Type 0
      Changed given =
          (db' : lmdb.Db) × (user' : User) × (change_role given roles name uid db ≡ some db')
          × (lmdb.get db' uid ≡ some user')
          × ((n : Str)
              → has_role n user'.userdata.roles
                ≡ (if str_eq name n then given else has_role n user.userdata.roles))
          × (user'.userdata.passwd ≡ user.userdata.passwd)
          × KeepsOthers lmdb uid db db'

      unchanged :
          (n : Str) (b : Bool)
          → has_role name user.userdata.roles ≡ b
          → has_role n user.userdata.roles
            ≡ (if str_eq name n then b else has_role n user.userdata.roles)
      unchanged n b h = elim (Bool-cases (str_eq name n)) [
        | inl t ↦ rw t (rw (← str_eq_sound name n t) h)
        | inr f ↦ rw f
      ]

      change :
          (given : Bool)
          → (has_role name user.userdata.roles ≡ true) ⊎ (has_role name user.userdata.roles ≡ false)
          → Changed given
      change true (inl has) = (
        db,
        user,
        rw (known, add_role, e, has),
        e,
        λ n. unchanged n true has,
        refl,
        λ other h. refl,
      )
      change false (inr not_has) = (
        db,
        user,
        rw (known, remove_role, e, not_has),
        e,
        λ n. unchanged n false not_has,
        refl,
        λ other h. refl,
      )
      change true (inr not_has) =
          let user' = with_roles (user.userdata.roles ++ (name ∷ [])) user in
          (
            lmdb.put db uid user',
            user',
            rw (known, add_role, e, not_has),
            put_self lmdb uid user' db,
            λ n. has_role-append n name user.userdata.roles ∙ ground arith,
            refl,
            put-KeepsOthers lmdb uid user' db,
          )
      change false (inl has) =
          let user' = with_roles (without_role name user.userdata.roles) user in
          (
            lmdb.put db uid user',
            user',
            rw (known, remove_role, e, has),
            put_self lmdb uid user' db,
            λ n. has_role-without_role n name user.userdata.roles,
            refl,
            put-KeepsOthers lmdb uid user' db,
          )
