-- ===== src/Authentication/Steps/Refines.antt =====
-- The steps that both mechanisms have are moves of the protocol.
use fabaccess_server.Prelude.{
  ◌≡◌, ◌⊎◌, refl, ap, sym, ◌∙◌, inl, inr, Bool, Option, some, List, ◌&&◌, str_eq, str_eq_sound, Str,
  ok, is_utf8,
}
use fabaccess_server.Users.{User}
use fabaccess_server.Authentication.Protocol.{
  KeyInfo, Step, select_app, verify_magic, get_urn, get_token, authenticate1, authenticate2,
  DesfireCrate, MechanismData, magic, trim_matches, FabFire, Ran,
}
use fabaccess_server.Authentication.Protocol.Rules.{
  &&-right, utf8_or_panic-eq, or_parse_error-eq_ok, unwrap-eq_ok, checked_body-eq_ok, attempt_rule,
  if_rule, advance_rule,
}
use fabaccess_server.Authentication.Protocol.Moves.{
  Keeps, same, moved, Move, stays, asks_magic, shows_magic, shows_urn, shows_token, challenges,
  lets_in, shown_by,
}
use fabaccess_server.Authentication.Steps.{
  Reader, send, step_select_app, step_verify_magic, step_get_urn, step_get_token,
  step_authenticate1, judge, step_authenticate2,
}

module _ (crate : DesfireCrate) (reader : Reader) (accepts : Str → Bool) where
  pub send_rule :
      (P : FabFire crate → Type 0) (next : Step) (command : Option crate.ApduCommand)
      (self : FabFire crate)
      → P self
      → ((out : List Str) → P (record self { step = next; written = out }))
      → P (send crate reader accepts next command self).1
  unfolding send
  send_rule P next command self stop go = attempt_rule crate P _ self _ stop (λ buf _.
      attempt_rule crate P _ self _ stop (λ out _. advance_rule crate P accepts next out self go))

  -- What a card shows in one input.
  abbrev pub shown : Option Str → Option Str
  shown input = shown_by crate (reader.response input)

  module _ (session : MechanismData) (rnd : Str) where
    abbrev pub After : Option Str → FabFire crate → FabFire crate → Type 0
    After input self self' = Move crate session rnd (shown input) self self'

    pub step_select_app-Move :
        (input : Option Str) (self : FabFire crate)
        → self.step ≡ select_app
        → After input self (step_select_app crate reader accepts input self).1
    unfolding step_select_app
    step_select_app-Move input self e =
        attempt_rule crate (After input self) _ self _ (stays refl (same crate self)) (λ answer _.
          if_rule crate (After input self) (crate.check (crate.response_new answer)) _ _
            (λ _.
              send_rule (After input self) verify_magic _ self (stays refl (same crate self))
                (λ out.
                  asks_magic e refl
                    (moved crate self verify_magic self.card_info self.desfire out)))
            (λ _. stays refl (same crate self)))

    pub step_verify_magic-Move :
        (input : Option Str) (self : FabFire crate)
        → self.step ≡ verify_magic
        → After input self (step_verify_magic crate reader accepts input self).1
    unfolding step_verify_magic
    step_verify_magic-Move input self e =
        attempt_rule crate (After input self) _ self _ (stays refl (same crate self)) (λ answer r.
          attempt_rule crate (After input self) _ self _ (stays refl (same crate self)) (λ bytes b.
            if_rule crate (After input self) (is_utf8 bytes && str_eq bytes magic) _ _
              (λ h.
                send_rule (After input self) get_urn _ self (stays refl (same crate self)) (λ out.
                  shows_magic e refl
                    (rw (r, b) (ap some (str_eq_sound bytes magic (&&-right _ _ h))))
                    (moved crate self get_urn self.card_info self.desfire out)))
              (λ _. stays refl (same crate self))))

    pub step_get_urn-Move :
        (input : Option Str) (self : FabFire crate)
        → self.step ≡ get_urn
        → After input self (step_get_urn crate reader accepts input self).1
    unfolding step_get_urn
    step_get_urn-Move input self e =
        attempt_rule crate (After input self) _ self _ (stays refl (same crate self)) (λ answer r.
          attempt_rule crate (After input self) _ self _ (stays refl (same crate self)) (λ bytes b.
            attempt_rule crate (After input self) _ self _ (stays refl (same crate self))
              (λ received_urn u.
                if_rule crate (After input self) (str_eq received_urn self.local_urn) _ _
                  (λ h.
                    send_rule (After input self) get_token _ self (stays refl (same crate self))
                      (λ out.
                        shows_urn e refl
                          (rw (r, b)
                            (ap some (
                              utf8_or_panic-eq bytes u
                              ∙ str_eq_sound received_urn self.local_urn h)))
                          (moved crate self get_token self.card_info self.desfire out)))
                  (λ _. stays refl (same crate self)))))

    pub step_get_token-Move :
        (input : Option Str) (self : FabFire crate)
        → self.step ≡ get_token
        → After input self (step_get_token crate reader accepts session input self).1
    unfolding step_get_token
    step_get_token-Move input self e =
        attempt_rule crate (After input self) _ self _ (stays refl (same crate self)) (λ answer r.
          attempt_rule crate (After input self) _ self _ (stays refl (same crate self)) (λ bytes b.
            attempt_rule crate (After input self) _ self _ (stays refl (same crate self)) (λ text u.
              let named : trim_matches text ≡ trim_matches bytes =
                ap trim_matches (sym (utf8_or_panic-eq bytes u)) in
              attempt_rule crate (After input self) _ self _ (stays refl (same crate self))
                (λ key k.
                  send_rule (After input self) authenticate1 _ _
                    (shows_token _ bytes e (inl e) (rw (r, b)) named k refl refl refl refl)
                    (λ out.
                      shows_token _ bytes e (inr refl) (rw (r, b)) named k refl refl refl refl)))))

    pub step_authenticate1-Move :
        (input : Option Str) (self : FabFire crate)
        → self.step ≡ authenticate1
        → After input self (step_authenticate1 crate reader accepts rnd input self).1
    unfolding step_authenticate1
    step_authenticate1-Move input self e =
        attempt_rule crate (After input self) _ self _ (stays refl (same crate self)) (λ answer r.
          attempt_rule crate (After input self) _ self _ (stays refl (same crate self)) (λ bytes b.
            attempt_rule crate (After input self) _ self _ (stays refl (same crate self)) (λ info k.
              attempt_rule crate (After input self) _ _ _
                (stays refl (moved crate self self.step self.card_info _ self.written))
                (λ c q.
                  send_rule (After input self) authenticate2 _ _
                    (challenges _ e (inl e) refl refl refl refl refl)
                    (λ out. challenges _ e (inr refl) refl refl refl refl refl)))))

    pub step_authenticate2-Move :
        (finish : KeyInfo → FabFire crate → Ran crate) (input : Option Str) (self : FabFire crate)
        → ((info : KeyInfo) (now : FabFire crate)
            → Keeps crate self now
            → now.step ≡ authenticate2
            → ((u : User) (self' : FabFire crate)
                → session.validate info.authid ≡ ok (some u)
                → (self'.step ≡ authenticate1) ⊎ (self'.step ≡ authenticate2)
                → self'.user ≡ some u
                → self'.key_info ≡ self.key_info
                → self'.auth_info ≡ self.auth_info
                → self'.local_urn ≡ self.local_urn
                → After input self self')
            → After input self (finish info now).1)
        → self.step ≡ authenticate2
        → After input self (step_authenticate2 crate reader accepts finish input self).1
    unfolding step_authenticate2 judge
    step_authenticate2-Move finish input self ends e =
        attempt_rule crate (After input self) _ self _ (stays refl (same crate self)) (λ answer r.
          if_rule crate (After input self) (crate.check (crate.response_new answer)) _ _
            (λ c.
              attempt_rule crate (After input self) _ self _ (stays refl (same crate self))
                (λ bytes b.
                  attempt_rule crate (After input self) _ self _ (stays refl (same crate self))
                    (λ a ea.
                      attempt_rule crate (After input self) _ self _ (stays refl (same crate self))
                        (λ info k.
                          let verdict =
                            crate.authenticate_iso_aes_verify self.desfire bytes a.rnd_a a.rnd_b
                              info.key a.iv in
                          if_rule crate (After input self) verdict.1 _ _
                            (λ good.
                              ends info (record self { desfire = verdict.0 })
                                (moved crate self self.step self.card_info verdict.0 self.written) e
                                (λ u self' v at user key auth urn.
                                  lets_in info a bytes u e at
                                    (rw (r, checked_body-eq_ok crate answer bytes c b))
                                    (unwrap-eq_ok crate self.key_info k)
                                    (or_parse_error-eq_ok crate self.auth_info ea) good v user key
                                    auth urn))
                            (λ _. stays refl (
                              moved crate self self.step self.card_info verdict.0 self.written))))))
            (λ _. stays refl (same crate self)))
