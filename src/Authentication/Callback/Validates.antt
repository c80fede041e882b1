-- ===== src/Authentication/Callback/Validates.antt =====
-- Whom the callback lets in, and which key it hands to a mechanism.
use fabaccess_server.Prelude.{
  ◌≡◌, ◌↔◌, refl, ap, ◌∙◌, Bool, true, false, Option, none, some, [], ◌∷◌, ◌==◌, if◌then◌else◌,
  length, Option-cases, inl, inr, str_eq, Str, codes, lookup, Result, ok, err, arith,
}
use fabaccess_server.Users.{User}
use fabaccess_server.Users.Database.{UserDb, Argon2, check_password}
use fabaccess_server.Session.{Users}
use fabaccess_server.Api.Cards.{Hex, binds, bind, token_text}
use fabaccess_server.Api.Cards.Tokens.{pair_of, bind_lem}
use fabaccess_server.Authentication.Callback.{
  Context, ValidationError, no_value, callback, validate_plain, validate,
}

abbrev pub plain : Str
plain = codes "PLAIN"

-- What lets a user in with PLAIN.
pub record IsLogin (users : Users) (argon2 : Argon2) (context : Context) (user : User)
    : Type 0 where
  pub authcid : Str
  pub pwd : Str
  pub named : context.authid ≡ some authcid
  pub for_self : context.authzid ≡ some []
  pub with_pwd : context.password ≡ some pwd
  pub known : users authcid ≡ some user
  pub checked : check_password argon2 user pwd ≡ some true

module _ (users : Users) (argon2 : Argon2) where
  -- The server's validation of PLAIN lets a user in exactly when the client gave a name, an
  -- empty name to act for and a password, the user of that name is this one, and their hash
  -- accepts the password.
  pub validate_iff :
      (context : Context) (user : User)
      → (validate users argon2 plain true context ≡ ok (some user))
        ↔ IsLogin users argon2 context user
  unfolding validate str_eq
  validate_iff context user = (
    sound context.authid refl context.authzid refl context.password refl,
    λ l. rw (l.named, l.for_self, l.with_pwd, l.known, l.checked),
  )
    where
      judged :
          (a : Str)
          → context.authid ≡ some a
          → context.authzid ≡ some []
          → (p : Str) → context.password ≡ some p
          → (u : User) → users a ≡ some u
          → (c : Option Bool) → check_password argon2 u p ≡ c
          → ◌≡◌ {A = Result ValidationError (Option User)}
              (elim c [ some true ↦ ok (some u) | some false ↦ ok none | none ↦ ok none ])
              (ok (some user))
          → IsLogin users argon2 context user
      judged a ea ez p ep u e none ec h = cc
      judged a ea ez p ep u e (some false) ec h = cc
      judged a ea ez p ep u e (some true) ec h = record {
        authcid = a;
        pwd = p;
        named = ea;
        for_self = ez;
        with_pwd = ep;
        known = e ∙ cc;
        checked = cc;
      }

      sound :
          (a : Option Str)
          → context.authid ≡ a
          → (z : Option Str) → context.authzid ≡ z
          → (p : Option Str) → context.password ≡ p
          → validate_plain users argon2 (record { authid = a; authzid = z; password = p })
            ≡ ok (some user)
          → IsLogin users argon2 context user
      sound none ea z ez p ep h = cc
      sound (some a) ea none ez p ep h = cc
      sound (some a) ea (some z) ez none ep h = cc
      sound (some a) ea (some (c ∷ z)) ez (some p) ep h = cc
      sound (some a) ea (some []) ez (some p) ep h = elim (Option-cases (users a)) [
        | inl gone ↦ cc (rw gone at h)
        | inr (u, e) ↦ judged a ea ez p ep u e (check_password argon2 u p) refl (rw e at h)
      ]

module _ (lmdb : UserDb) (hex : Hex) where
  -- After `bind` of a key and a token to a user of the database, where it does write, the
  -- callback's answer for that user is this key if it has 16 bytes, and else the error for a
  -- missing value.
  pub callback-bind :
      (auth_key token uid : Str) (db : lmdb.Db) (user : User)
      → lmdb.get db uid ≡ some user
      → binds (token_text hex token) (pair_of lmdb hex user).0 (pair_of lmdb hex user).1 ≡ true
      → (db' : lmdb.Db) × (bind lmdb hex auth_key token uid db ≡ ok db')
        × (callback
              (lmdb.get db')
              hex
              (record { authid = some uid; authzid = none; password = none })
              true
            ≡ (if length auth_key == 16 then ok (some auth_key) else err no_value))
  unfolding callback
  callback-bind auth_key token uid db user e b =
      let (db', user', bound, got, pair, roles, passwd) =
        bind_lem lmdb hex auth_key token uid db user e b in
      let key : lookup user'.userdata.kv (codes "cardkey") ≡ some (hex.encode auth_key) =
        ap (λ (q : Option Str × Option Str). q.1) pair in
      (db', bound, rw (got, key, hex.decode-encode auth_key) (ground arith))
