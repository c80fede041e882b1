-- ===== src/Authentication/Protocol/Moves.antt =====
-- The protocol between a card and the server, as a relation, and what every run of it keeps.
pub mod Sound
pub mod Runs
use fabaccess_server.Prelude.{
  ℕ, ◌≡◌, ◌≤◌, ◌⊎◌, inl, inr, refl, Bool, true, Option, none, some, List, [], ◌∷◌, Str, In, Result,
  ok, err, panic, arith,
}
use fabaccess_server.Users.{User}
use fabaccess_server.Authentication.Protocol.{
  CardInfo, KeyInfo, AuthInfo, SessionError, checked_body, Step, new, select_app, verify_magic,
  get_urn, get_token, authenticate1, authenticate2, DesfireCrate, MechanismData, magic,
  trim_matches, FabFire,
}

module _ (crate : DesfireCrate) where
  -- Nothing changes but the step, the card's information, the crate's state and what was written.
  pub record Keeps (self self' : FabFire crate) : Type 0 where
    pub same_key : self'.key_info ≡ self.key_info
    pub same_auth : self'.auth_info ≡ self.auth_info
    pub same_urn : self'.local_urn ≡ self.local_urn
    pub same_user : self'.user ≡ self.user

  pub same : (self : FabFire crate) → Keeps self self
  same self = record { same_key = refl; same_auth = refl; same_urn = refl; same_user = refl }

  pub moved :
      (self : FabFire crate) (next : Step) (card : Option CardInfo) (desfire : crate.Desfire)
      (out : List Str)
      → Keeps self (record self { step = next; card_info = card; desfire = desfire; written = out })
  moved self next card desfire out = record {
    same_key = refl;
    same_auth = refl;
    same_urn = refl;
    same_user = refl;
  }

  -- One step, in which the card gave these bytes or none and the server drew this challenge.
  pub data Move (session : MechanismData) (rnd : Str) (body : Option Str)
      (self self' : FabFire crate) : Type 0 where
    stays : self'.step ≡ self.step → Keeps self self' → Move session rnd body self self'
    selects :
        self.step ≡ new
        → self'.step ≡ select_app
        → Keeps self self'
        → Move session rnd body self self'
    asks_magic :
        self.step ≡ select_app
        → self'.step ≡ verify_magic
        → Keeps self self'
        → Move session rnd body self self'
    shows_magic :
        self.step ≡ verify_magic
        → self'.step ≡ get_urn
        → body ≡ some magic
        → Keeps self self'
        → Move session rnd body self self'
    shows_urn :
        self.step ≡ get_urn
        → self'.step ≡ get_token
        → body ≡ some self.local_urn
        → Keeps self self'
        → Move session rnd body self self'
    shows_token :
        (k : KeyInfo) (bytes : Str)
        → self.step ≡ get_token
        → (self'.step ≡ get_token) ⊎ (self'.step ≡ authenticate1)
        → body ≡ some bytes
        → k.authid ≡ trim_matches bytes
        → session.need_with k.authid ≡ ok k.key
        → self'.key_info ≡ some k
        → self'.auth_info ≡ self.auth_info
        → self'.local_urn ≡ self.local_urn
        → self'.user ≡ self.user
        → Move session rnd body self self'
    challenges :
        (a : AuthInfo)
        → self.step ≡ authenticate1
        → (self'.step ≡ authenticate1) ⊎ (self'.step ≡ authenticate2)
        → a.rnd_a ≡ rnd
        → self'.auth_info ≡ some a
        → self'.key_info ≡ self.key_info
        → self'.local_urn ≡ self.local_urn
        → self'.user ≡ self.user
        → Move session rnd body self self'
    retreats :
        self.step ≡ authenticate2
        → self'.step ≡ authenticate1
        → Keeps self self'
        → Move session rnd body self self'
    lets_in :
        (k : KeyInfo) (a : AuthInfo) (bytes : Str) (u : User)
        → self.step ≡ authenticate2
        → (self'.step ≡ authenticate1) ⊎ (self'.step ≡ authenticate2)
        → body ≡ some bytes
        → self.key_info ≡ some k
        → self.auth_info ≡ some a
        → (crate.authenticate_iso_aes_verify self.desfire bytes a.rnd_a a.rnd_b k.key a.iv).1 ≡ true
        → session.validate k.authid ≡ ok (some u)
        → self'.user ≡ some u
        → self'.key_info ≡ self.key_info
        → self'.auth_info ≡ self.auth_info
        → self'.local_urn ≡ self.local_urn
        → Move session rnd body self self'

  -- The bytes of an answer, if the card gave any.
  abbrev pub value : Result SessionError Str → Option Str
  value (ok bytes) = some bytes
  value (err _) = none
  value panic = none

  abbrev pub shown_by : Result SessionError Str → Option Str
  shown_by (ok answer) = value (checked_body crate answer)
  shown_by (err _) = none
  shown_by panic = none

  abbrev pub rank : Step → ℕ
  rank new = 0
  rank select_app = 1
  rank verify_magic = 2
  rank get_urn = 3
  rank get_token = 4
  rank authenticate1 = 5
  rank authenticate2 = 6

  -- Why a user was let in.
  pub record IsEarned (session : MechanismData) (urn : Str) (rnds bodies : List (Option Str))
      (u : User) : Type 0 where
    pub k : KeyInfo
    pub a : AuthInfo
    pub token : Str
    pub proof : Str
    pub card : crate.Desfire
    pub magic_seen : In (some magic) bodies
    pub urn_seen : In (some urn) bodies
    pub token_seen : In (some token) bodies
    pub token_named : k.authid ≡ trim_matches token
    pub keyed : session.need_with k.authid ≡ ok k.key
    pub drawn : In (some a.rnd_a) rnds
    pub proof_seen : In (some proof) bodies
    pub verified :
        (crate.authenticate_iso_aes_verify card proof a.rnd_a a.rnd_b k.key a.iv).1 ≡ true
    pub validated : session.validate k.authid ≡ ok (some u)

  pub record IsToken (session : MechanismData) (bodies : List (Option Str)) (k : KeyInfo)
      : Type 0 where
    pub token : Str
    pub token_seen : In (some token) bodies
    pub token_named : k.authid ≡ trim_matches token
    pub keyed : session.need_with k.authid ≡ ok k.key

  pub record IsSound (session : MechanismData) (urn : Str) (rnds bodies : List (Option Str))
      (self : FabFire crate) : Type 0 where
    pub for_urn : self.local_urn ≡ urn
    pub magic_seen : 3 ≤ rank self.step → In (some magic) bodies
    pub urn_seen : 4 ≤ rank self.step → In (some urn) bodies
    pub has_key : 5 ≤ rank self.step → (k : KeyInfo) × (self.key_info ≡ some k)
    pub has_challenge : 6 ≤ rank self.step → (a : AuthInfo) × (self.auth_info ≡ some a)
    pub key_sound : (k : KeyInfo) → self.key_info ≡ some k → IsToken session bodies k
    pub challenge_drawn : (a : AuthInfo) → self.auth_info ≡ some a → In (some a.rnd_a) rnds
    pub user_earned : (u : User) → self.user ≡ some u → IsEarned session urn rnds bodies u
