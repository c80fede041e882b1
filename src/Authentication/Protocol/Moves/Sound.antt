-- ===== src/Authentication/Protocol/Moves/Sound.antt =====
-- The invariant of the protocol is kept by every move of it.
use fabaccess_server.Prelude.{
  ◌≡◌, ◌≤◌, inl, inr, sym, ap, subst, ◌∙◌, Option, some, List, ◌∷◌, In, Str, arith,
}
use fabaccess_server.Users.{User}
use fabaccess_server.Authentication.Protocol.{
  KeyInfo, AuthInfo, DesfireCrate, MechanismData, magic, FabFire,
}
use fabaccess_server.Authentication.Protocol.Moves.{
  Keeps, Move, stays, selects, asks_magic, shows_magic, shows_urn, shows_token, challenges,
  retreats, lets_in, rank, IsEarned, IsToken, IsSound,
}

module _ (crate : DesfireCrate) (session : MechanismData) (urn : Str) where
  module _ (rnd body : Option Str) (rnds bodies : List (Option Str)) where
    IsEarned-later :
        {u : User}
        → IsEarned crate session urn rnds bodies u
        → IsEarned crate session urn (rnd ∷ rnds) (body ∷ bodies) u
    IsEarned-later e = record {
      k = e.k;
      a = e.a;
      token = e.token;
      proof = e.proof;
      card = e.card;
      magic_seen = inr e.magic_seen;
      urn_seen = inr e.urn_seen;
      token_seen = inr e.token_seen;
      token_named = e.token_named;
      keyed = e.keyed;
      drawn = inr e.drawn;
      proof_seen = inr e.proof_seen;
      verified = e.verified;
      validated = e.validated;
    }

    IsToken-later :
        {k : KeyInfo} → IsToken crate session bodies k → IsToken crate session (body ∷ bodies) k
    IsToken-later t = record {
      token = t.token;
      token_seen = inr t.token_seen;
      token_named = t.token_named;
      keyed = t.keyed;
    }

    -- Where key, challenge and user stay, only what the step asks for is left to show.
    Keeps-IsSound :
        {self self' : FabFire crate}
        → Keeps crate self self'
        → IsSound crate session urn rnds bodies self
        → (3 ≤ rank crate self'.step → In (some magic) (body ∷ bodies))
        → (4 ≤ rank crate self'.step → In (some urn) (body ∷ bodies))
        → (5 ≤ rank crate self'.step → 5 ≤ rank crate self.step)
        → (6 ≤ rank crate self'.step → 6 ≤ rank crate self.step)
        → IsSound crate session urn (rnd ∷ rnds) (body ∷ bodies) self'
    Keeps-IsSound kept s magic_seen urn_seen five six = record {
      for_urn = kept.same_urn ∙ s.for_urn;
      magic_seen = magic_seen;
      urn_seen = urn_seen;
      has_key = λ h. let (k, e) = s.has_key (five h) in (k, kept.same_key ∙ e);
      has_challenge = λ h. let (a, e) = s.has_challenge (six h) in (a, kept.same_auth ∙ e);
      key_sound = λ k e. IsToken-later (s.key_sound k (sym kept.same_key ∙ e));
      challenge_drawn = λ a e. inr (s.challenge_drawn a (sym kept.same_auth ∙ e));
      user_earned = λ u e. IsEarned-later (s.user_earned u (sym kept.same_user ∙ e));
    }

  -- A move keeps what is known of the dialogue, with what the card showed added.
  pub Move-IsSound :
      (rnd : Str) (body : Option Str) (rnds bodies : List (Option Str)) {self self' : FabFire crate}
      → Move crate session rnd body self self'
      → IsSound crate session urn rnds bodies self
      → IsSound crate session urn (some rnd ∷ rnds) (body ∷ bodies) self'
  Move-IsSound rnd body rnds bodies (stays e kept) s =
      Keeps-IsSound (some rnd) body rnds bodies kept s (λ h. inr (s.magic_seen (rw (← e) h)))
        (λ h. inr (s.urn_seen (rw (← e) h))) (λ h. rw (← e) h) (λ h. rw (← e) h)
  Move-IsSound rnd body rnds bodies (selects e e' kept) s =
      Keeps-IsSound (some rnd) body rnds bodies kept s (λ h. absurd (omega (arith, rw e' at h)))
        (λ h. absurd (omega (arith, rw e' at h))) (λ h. absurd (omega (arith, rw e' at h)))
        (λ h. absurd (omega (arith, rw e' at h)))
  Move-IsSound rnd body rnds bodies (asks_magic e e' kept) s =
      Keeps-IsSound (some rnd) body rnds bodies kept s (λ h. absurd (omega (arith, rw e' at h)))
        (λ h. absurd (omega (arith, rw e' at h))) (λ h. absurd (omega (arith, rw e' at h)))
        (λ h. absurd (omega (arith, rw e' at h)))
  Move-IsSound rnd body rnds bodies (shows_magic e e' shown kept) s =
      Keeps-IsSound (some rnd) body rnds bodies kept s (λ h. inl shown)
        (λ h. absurd (omega (arith, rw e' at h))) (λ h. absurd (omega (arith, rw e' at h)))
        (λ h. absurd (omega (arith, rw e' at h)))
  Move-IsSound rnd body rnds bodies {self} {self'} (shows_urn e e' shown kept) s =
      Keeps-IsSound (some rnd) body rnds bodies kept s
        (λ h. inr (s.magic_seen (rw e (omega arith)))) (λ h. inl (shown ∙ ap some s.for_urn))
        (λ h. absurd (omega (arith, rw e' at h))) (λ h. absurd (omega (arith, rw e' at h)))
  Move-IsSound rnd body rnds bodies (retreats e e' kept) s =
      Keeps-IsSound (some rnd) body rnds bodies kept s
        (λ h. inr (s.magic_seen (rw e (omega arith)))) (λ h. inr (s.urn_seen (rw e (omega arith))))
        (λ h. rw e (omega arith)) (λ h. absurd (omega (arith, rw e' at h)))
  Move-IsSound rnd body rnds bodies {self} {self'}
        (shows_token k bytes e e' shown named keyed key auth local user) s =
      record {
        for_urn = local ∙ s.for_urn;
        magic_seen = λ h. inr (s.magic_seen (rw e (omega arith)));
        urn_seen = λ h. inr (s.urn_seen (rw e (omega arith)));
        has_key = λ h. (k, key);
        has_challenge = λ h. elim e' [
          | inl p ↦ absurd (omega (arith, rw p at h))
          | inr p ↦ absurd (omega (arith, rw p at h))
        ];
        key_sound = λ j q.
            let same : k ≡ j = cc in
            subst (IsToken crate session (body ∷ bodies)) same (record {
              token = bytes;
              token_seen = inl shown;
              token_named = named;
              keyed = keyed;
            });
        challenge_drawn = λ a q. inr (s.challenge_drawn a (sym auth ∙ q));
        user_earned =
            λ u q. IsEarned-later (some rnd) body rnds bodies (s.user_earned u (sym user ∙ q));
      }
  Move-IsSound rnd body rnds bodies {self} {self'} (challenges a e e' drawn auth key local user) s =
      record {
        for_urn = local ∙ s.for_urn;
        magic_seen = λ h. inr (s.magic_seen (rw e (omega arith)));
        urn_seen = λ h. inr (s.urn_seen (rw e (omega arith)));
        has_key = λ h. let (k, q) = s.has_key (rw e (omega arith)) in (k, key ∙ q);
        has_challenge = λ h. (a, auth);
        key_sound = λ k q. IsToken-later (some rnd) body rnds bodies (s.key_sound k (sym key ∙ q));
        challenge_drawn = λ b q.
            let same : a ≡ b = cc in
            inl (ap some (sym drawn ∙ ap (λ (c : AuthInfo). c.rnd_a) same));
        user_earned =
            λ u q. IsEarned-later (some rnd) body rnds bodies (s.user_earned u (sym user ∙ q));
      }
  Move-IsSound rnd body rnds bodies {self} {self'}
        (lets_in k a bytes u e e' shown key auth verified validated user same_key same_auth
          same_urn)
        s =
      let told = s.key_sound k key in
      record {
        for_urn = same_urn ∙ s.for_urn;
        magic_seen = λ h. inr (s.magic_seen (rw e (omega arith)));
        urn_seen = λ h. inr (s.urn_seen (rw e (omega arith)));
        has_key = λ h. (k, same_key ∙ key);
        has_challenge = λ h. (a, same_auth ∙ auth);
        key_sound =
            λ j q. IsToken-later (some rnd) body rnds bodies (s.key_sound j (sym same_key ∙ q));
        challenge_drawn = λ b q. inr (s.challenge_drawn b (sym same_auth ∙ q));
        user_earned = λ v q.
            let same : u ≡ v = cc in
            subst (IsEarned crate session urn (some rnd ∷ rnds) (body ∷ bodies)) same (record {
              k = k;
              a = a;
              token = told.token;
              proof = bytes;
              card = self.desfire;
              magic_seen = inr (s.magic_seen (rw e (omega arith)));
              urn_seen = inr (s.urn_seen (rw e (omega arith)));
              token_seen = inr told.token_seen;
              token_named = told.token_named;
              keyed = told.keyed;
              drawn = inr (s.challenge_drawn a auth);
              proof_seen = inl shown;
              verified = verified;
              validated = validated;
            });
      }
