-- ===== src/Authentication/Fabfire/Refines.antt =====
-- Every step of X-FABFIRE is a move of the protocol.
use fabaccess_server.Prelude.{
  ◌≡◌, ◌⊎◌, refl, sym, ◌∙◌, inl, Bool, Option, none, some, List, ◌∷◌, Str, ok,
}
use fabaccess_server.Users.{User}
use fabaccess_server.Authentication.Protocol.{
  KeyInfo, Step, new, select_app, verify_magic, get_urn, get_token, authenticate1, authenticate2,
  DesfireCrate, MechanismData, FabFire, finalize,
}
use fabaccess_server.Authentication.Protocol.Rules.{attempt_rule, if_rule}
use fabaccess_server.Authentication.Protocol.Moves.{
  Keeps, same, moved, Move, stays, selects, retreats, shown_by,
}
use fabaccess_server.Authentication.Steps.Refines
use fabaccess_server.Authentication.Fabfire.{
  Json, response, reader, step_new, finish, dispatch, step,
}

module _ (crate : DesfireCrate) (json : Json) (accepts : Str → Bool) where
  -- What a card shows in one input.
  abbrev pub shown : Option Str → Option Str
  shown input = shown_by crate (response crate json accepts input)

  module _ (session : MechanismData) (rnd : Str) where
    abbrev After : Option Str → FabFire crate → FabFire crate → Type 0
    After input self self' = Move crate session rnd (shown input) self self'

    step_new-Move :
        (input : Option Str) (self : FabFire crate)
        → self.step ≡ new
        → After input self (step_new crate json accepts input self).1
    unfolding step_new
    step_new-Move none self e = stays refl (same crate self)
    step_new-Move (some info) self e =
        attempt_rule crate (After (some info) self) _ self _ (stays refl (same crate self))
          (λ card _.
            Refines.send_rule crate (reader crate json accepts) accepts (After (some info) self)
              select_app _ (record self { card_info = some card })
              (stays refl (moved crate self self.step (some card) self.desfire self.written))
              (λ out. selects e refl (moved crate self select_app (some card) self.desfire out)))

    finish-Move :
        (input : Option Str) (self now : FabFire crate) (info : KeyInfo)
        → self.step ≡ authenticate2
        → Keeps crate self now
        → ((u : User) (self' : FabFire crate)
            → session.validate info.authid ≡ ok (some u)
            → (self'.step ≡ authenticate1) ⊎ (self'.step ≡ authenticate2)
            → self'.user ≡ some u
            → self'.key_info ≡ self.key_info
            → self'.auth_info ≡ self.auth_info
            → self'.local_urn ≡ self.local_urn
            → After input self self')
        → now.step ≡ authenticate2
        → After input self (finish crate json accepts session info now).1
    unfolding finish
    finish-Move input self now info e kept lets now_at =
        attempt_rule crate (After input self) _ now _ (stays (now_at ∙ sym e) kept) (λ send_buf _.
          if_rule crate (After input self) (accepts send_buf) _ _
            (λ _.
              attempt_rule crate (After input self) _ _ _ (retreats e refl (put kept))
                (λ user v. finalized user v (send_buf ∷ now.written)))
            (λ _. retreats e refl (put kept)))
      where
        put :
            {out : List Str}
            → Keeps crate self now
            → Keeps crate self (record now { step = authenticate1; written = out })
        put k = record {
          same_key = k.same_key;
          same_auth = k.same_auth;
          same_urn = k.same_urn;
          same_user = k.same_user;
        }

        finalized :
            (user : Option User)
            → session.validate info.authid ≡ ok user
            → (out : List Str)
            → After input self
                (finalize crate user (record now { step = authenticate1; written = out }))
        finalized none v out = unfold finalize in retreats e refl (put kept)
        finalized (some u) v out =
            unfold finalize in lets u _ v (inl refl) refl kept.same_key kept.same_auth kept.same_urn

    -- Each step of the mechanism is a move of the dialogue.
    pub step-Move :
        (input : Option Str) (self : FabFire crate)
        → Move crate session rnd
            (shown input)
            self
            (step crate json accepts session rnd input self).1
    unfolding step
    step-Move input self = at self.step refl
      where
        at :
            (s : Step)
            → self.step ≡ s
            → After input self (dispatch crate json accepts s session rnd input self).1
        at new e = step_new-Move input self e
        at select_app e =
            Refines.step_select_app-Move crate (reader crate json accepts) accepts session rnd input
              self e
        at verify_magic e =
            Refines.step_verify_magic-Move crate (reader crate json accepts) accepts session rnd
              input self e
        at get_urn e =
            Refines.step_get_urn-Move crate (reader crate json accepts) accepts session rnd input
              self e
        at get_token e =
            Refines.step_get_token-Move crate (reader crate json accepts) accepts session rnd input
              self e
        at authenticate1 e =
            Refines.step_authenticate1-Move crate (reader crate json accepts) accepts session rnd
              input self e
        at authenticate2 e =
            Refines.step_authenticate2-Move crate (reader crate json accepts) accepts session rnd
              (finish crate json accepts session) input self
              (λ info now kept now_at lets. finish-Move input self now info e kept lets now_at) e
