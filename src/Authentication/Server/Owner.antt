-- ===== src/Authentication/Server/Owner.antt =====
-- Whom a card lets in: the user whose key the card has proved to hold.
use fabaccess_server.Prelude.{
  ◌≡◌, ◌==◌, ==_iff, refl, sym, ap, ◌∙◌, Bool, Bool-cases, inl, inr, true, false, Option, none,
  some, List, Str, codes, Result, ok, err, length, lookup, >>=-eq_ok, ◌>>=◌, panic, str_eq, subst,
}
use fabaccess_server.Users.{User}
use fabaccess_server.Users.Database.{Argon2}
use fabaccess_server.Session.{Users}
use fabaccess_server.Api.Cards.{Hex}
use fabaccess_server.Authentication.Callback.{
  CallbackError, no_value, ok_or, is_fabfire, card_key_of, card_key, callback, validate,
}
use fabaccess_server.Authentication.Protocol.{DesfireCrate}
use fabaccess_server.Authentication.Protocol.Moves.{IsEarned}
use fabaccess_server.Authentication.Protocol.Moves.Runs.{Inputs, rnds, bodies, run, run-IsSound}
use fabaccess_server.Authentication.Server.{server_session, needed, judged, context_of}
use fabaccess_server.Authentication.Fabfire
use fabaccess_server.Authentication.Fabfire.{Json}
use fabaccess_server.Authentication.Fabfire.Refines as Text
use fabaccess_server.Authentication.FabfireBin
use fabaccess_server.Authentication.FabfireBin.Refines as Binary

module _ (users : Users) (hex : Hex) where
  -- The user is in the database, and this is the key of the user's card.
  pub record IsCardKey (authid key : Str) (user : User) : Type 0 where
    pub digits : Str
    pub known : users authid ≡ some user
    pub stored : lookup user.userdata.kv (codes "cardkey") ≡ some digits
    pub decoded : hex.decode digits ≡ some key
    pub aes128 : length key ≡ 16

  ok_or-eq_ok : {E A : Type 0} (e : E) (o : Option A) {a : A} → ok_or e o ≡ ok a → o ≡ some a
  ok_or-eq_ok e none h = cc
  ok_or-eq_ok e (some b) h = cc

  card_key_of-eq_ok :
      (bytes : Str) {key : Str} → card_key_of bytes ≡ ok key → (bytes ≡ key) × (length key ≡ 16)
  unfolding card_key_of
  card_key_of-eq_ok bytes h = elim (Bool-cases (length bytes == 16)) [
    | inl fits ↦
        let same : bytes ≡ _ = cc (rw fits at h) in
        (same, ap length (sym same) ∙ (==_iff (length bytes) 16).0 fits)
    | inr odd ↦ absurd (cc (rw odd at h))
  ]

  card_key-eq_ok :
      (authid : Str) {key : Str}
      → card_key users hex authid ≡ ok key
      → (user : User) × IsCardKey authid key user
  unfolding card_key
  card_key-eq_ok authid h =
      let (user, u, h1) = >>=-eq_ok _ _ h in
      let (digits, d, h2) = >>=-eq_ok _ _ h1 in
      let (bytes, b, h3) = >>=-eq_ok _ _ h2 in
      let (same, aes) = card_key_of-eq_ok bytes h3 in
      (
        user,
        record {
          digits = digits;
          known = ok_or-eq_ok no_value (users authid) u;
          stored = ok_or-eq_ok no_value _ d;
          decoded = ok_or-eq_ok no_value (hex.decode digits) b ∙ ap some same;
          aes128 = aes;
        },
      )

  needed-eq_ok :
      (authid : Str) {key : Str}
      → needed (callback users hex (context_of authid) true) ≡ ok key
      → (user : User) × IsCardKey authid key user
  unfolding callback
  needed-eq_ok authid {key} h = card_key-eq_ok authid (held (card_key users hex authid) h)
    where
      held : (r : Result CallbackError Str) → needed (r >>= λ k. ok (some k)) ≡ ok key → r ≡ ok key
      held (ok k) h = cc
      held (err e) h = cc
      held panic h = cc

  module _ (argon2 : Argon2) where
    judged-eq_ok :
        (mechanism authid : Str) {user : User}
        → str_eq mechanism (codes "PLAIN") ≡ false
        → is_fabfire mechanism ≡ true
        → judged (validate users argon2 mechanism true (context_of authid)) ≡ ok (some user)
        → users authid ≡ some user
    unfolding validate
    judged-eq_ok mechanism authid p f h = cc (rw (p, f) at h)

    -- Why the owner of a card was let in.
    pub record IsOwner (crate : DesfireCrate) (mechanism urn : Str)
        (draws shown : List (Option Str)) (u : User) : Type 0 where
      pub earned : IsEarned crate (server_session users hex argon2 mechanism) urn draws shown u
      pub card_key_held : IsCardKey earned.k.authid earned.k.key u

    IsEarned-IsOwner :
        (crate : DesfireCrate) (mechanism urn : Str) {draws shown : List (Option Str)} {u : User}
        → str_eq mechanism (codes "PLAIN") ≡ false
        → is_fabfire mechanism ≡ true
        → IsEarned crate (server_session users hex argon2 mechanism) urn draws shown u
        → IsOwner crate mechanism urn draws shown u
    unfolding server_session
    IsEarned-IsOwner crate mechanism urn {u = u} p f e =
        let (user, c) = needed-eq_ok e.k.authid e.keyed in
        let mine : users e.k.authid ≡ some u = judged-eq_ok mechanism e.k.authid p f e.validated in
        let same : user ≡ u = cc (c.known) in
        record { earned = e; card_key_held = subst (IsCardKey e.k.authid e.k.key) same c }

  -- However a client answers, when a run of the X-FABFIRE mechanism on the server's callback
  -- has let a user in, then a card showed the magic and the URN of the innovisionlab, which is
  -- written in the code, it showed a token that names this user, its answer to a challenge of
  -- the server passed the check against the key for that token, that key is the 16 bytes that
  -- the user's record stores in hex as "cardkey", and the user is the one of that name in the
  -- database.
  pub fabfire-IsOwner :
      (crate : DesfireCrate) (json : Json) (accepts : Str → Bool) (argon2 : Argon2)
      (inputs : Inputs) (u : User)
      → (run crate
          (Fabfire.step crate json accepts (server_session users hex argon2 (codes "X-FABFIRE")))
          inputs
          (Fabfire.new_server crate json accepts)).user
        ≡ some u
      → IsOwner argon2 crate
          (codes "X-FABFIRE")
          (codes "urn:fabaccess:lab:innovisionlab")
          (rnds inputs)
          (bodies (Text.shown crate json accepts) inputs)
          u
  unfolding Fabfire.new_server str_eq
  fabfire-IsOwner crate json accepts argon2 inputs u h =
      let session = server_session users hex argon2 (codes "X-FABFIRE") in
      let sound =
        run-IsSound crate session (codes "urn:fabaccess:lab:innovisionlab")
          (Fabfire.step crate json accepts session) (Text.shown crate json accepts)
          (λ rnd input self. Text.step-Move crate json accepts session rnd input self)
          (record { at_new = refl; no_key = refl; no_auth = refl; for_urn = refl; no_user = refl })
          inputs in
      IsEarned-IsOwner argon2 crate _ _ refl refl (sound.user_earned u h)

  -- However a client answers, when a run of the X-FABFIRE-BIN mechanism on the server's
  -- callback has let a user in, then a card showed the magic and the URN of the configured
  -- space, it showed a token that names this user, its answer to a challenge of the server
  -- passed the check against the key for that token, that key is the 16 bytes that the user's
  -- record stores in hex as "cardkey", and the user is the one of that name in the database.
  pub fabfire_bin-IsOwner :
      (crate : DesfireCrate) (accepts : Str → Bool) (argon2 : Argon2) (space : Option Str)
      (inputs : Inputs) (u : User)
      → (run crate
          (FabfireBin.step crate accepts (server_session users hex argon2 (codes "X-FABFIRE-BIN")))
          inputs
          (FabfireBin.new_server crate accepts space)).user
        ≡ some u
      → IsOwner argon2 crate
          (codes "X-FABFIRE-BIN")
          (FabfireBin.local_urn_of space)
          (rnds inputs)
          (bodies (Binary.shown crate accepts) inputs)
          u
  unfolding FabfireBin.new_server str_eq
  fabfire_bin-IsOwner crate accepts argon2 space inputs u h =
      let session = server_session users hex argon2 (codes "X-FABFIRE-BIN") in
      let sound =
        run-IsSound crate session (FabfireBin.local_urn_of space)
          (FabfireBin.step crate accepts session) (Binary.shown crate accepts)
          (λ rnd input self. Binary.step-Move crate accepts session rnd input self)
          (record { at_new = refl; no_key = refl; no_auth = refl; for_urn = refl; no_user = refl })
          inputs in
      IsEarned-IsOwner argon2 crate _ _ refl refl (sound.user_earned u h)
