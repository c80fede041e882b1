-- ===== src/Authentication/FabfireBin/Refines.antt =====
-- Every step of X-FABFIRE-BIN is a move of the protocol.
use fabaccess_server.Prelude.{◌≡◌, ◌⊎◌, refl, sym, ◌∙◌, inr, Bool, Option, none, some, Str, ok}
use fabaccess_server.Users.{User}
use fabaccess_server.Authentication.Protocol.{
  KeyInfo, Step, new, select_app, verify_magic, get_urn, get_token, authenticate1, authenticate2,
  DesfireCrate, MechanismData, FabFire, finalize,
}
use fabaccess_server.Authentication.Protocol.Rules.{attempt_rule}
use fabaccess_server.Authentication.Protocol.Moves.{
  Keeps, same, moved, Move, stays, selects, shown_by,
}
use fabaccess_server.Authentication.Steps.Refines
use fabaccess_server.Authentication.FabfireBin.{response, reader, step_new, finish, dispatch, step}

module _ (crate : DesfireCrate) (accepts : Str → Bool) where
  -- What a card shows in one input.
  abbrev pub shown : Option Str → Option Str
  shown input = shown_by crate (response crate accepts input)

  module _ (session : MechanismData) (rnd : Str) where
    abbrev After : Option Str → FabFire crate → FabFire crate → Type 0
    After input self self' = Move crate session rnd (shown input) self self'

    step_new-Move :
        (input : Option Str) (self : FabFire crate)
        → self.step ≡ new
        → After input self (step_new crate accepts input self).1
    unfolding step_new
    step_new-Move none self e = stays refl (same crate self)
    step_new-Move (some info) self e =
        Refines.send_rule crate (reader crate accepts) accepts (After (some info) self) select_app _
          self (stays refl (same crate self))
          (λ out. selects e refl (moved crate self select_app self.card_info self.desfire out))

    finish-Move :
        (input : Option Str) (self now : FabFire crate) (info : KeyInfo)
        → self.step ≡ authenticate2
        → Keeps crate self now
        → now.step ≡ authenticate2
        → ((u : User) (self' : FabFire crate)
            → session.validate info.authid ≡ ok (some u)
            → (self'.step ≡ authenticate1) ⊎ (self'.step ≡ authenticate2)
            → self'.user ≡ some u
            → self'.key_info ≡ self.key_info
            → self'.auth_info ≡ self.auth_info
            → self'.local_urn ≡ self.local_urn
            → After input self self')
        → After input self (finish crate accepts session info now).1
    unfolding finish
    finish-Move input self now info e kept now_at lets =
        attempt_rule crate (After input self) _ now _ (stays (now_at ∙ sym e) kept)
          (λ user v. finalized user v)
      where
        finalized :
            (user : Option User)
            → session.validate info.authid ≡ ok user
            → After input self (finalize crate user now)
        finalized none v = unfold finalize in stays (now_at ∙ sym e) kept
        finalized (some u) v =
            unfold finalize in
            lets u _ v (inr now_at) refl kept.same_key kept.same_auth kept.same_urn

    -- Each step of the mechanism is a move of the dialogue.
    pub step-Move :
        (input : Option Str) (self : FabFire crate)
        → Move crate session rnd (shown input) self (step crate accepts session rnd input self).1
    unfolding step
    step-Move input self = at self.step refl
      where
        at :
            (s : Step)
            → self.step ≡ s
            → After input self (dispatch crate accepts s session rnd input self).1
        at new e = step_new-Move input self e
        at select_app e =
            Refines.step_select_app-Move crate (reader crate accepts) accepts session rnd input self
              e
        at verify_magic e =
            Refines.step_verify_magic-Move crate (reader crate accepts) accepts session rnd input
              self e
        at get_urn e =
            Refines.step_get_urn-Move crate (reader crate accepts) accepts session rnd input self e
        at get_token e =
            Refines.step_get_token-Move crate (reader crate accepts) accepts session rnd input self
              e
        at authenticate1 e =
            Refines.step_authenticate1-Move crate (reader crate accepts) accepts session rnd input
              self e
        at authenticate2 e =
            Refines.step_authenticate2-Move crate (reader crate accepts) accepts session rnd
              (finish crate accepts session) input self
              (λ info now kept now_at lets. finish-Move input self now info e kept now_at lets) e
