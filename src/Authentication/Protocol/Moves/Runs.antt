-- ===== src/Authentication/Protocol/Moves/Runs.antt =====
-- Runs of an exchange: the invariant holds after every sequence of inputs.
use fabaccess_server.Prelude.{◌≡◌, Option, none, some, List, [], ◌∷◌, Str, arith}
use fabaccess_server.Authentication.Protocol.{new, DesfireCrate, MechanismData, FabFire, Ran}
use fabaccess_server.Authentication.Protocol.Moves.{Move, IsSound}
use fabaccess_server.Authentication.Protocol.Moves.Sound.{Move-IsSound}

-- A challenge that the server may draw in a step, and what it reads; the latest first.
abbrev pub Inputs : Type 0
Inputs = List (Str × Option Str)

abbrev pub rnds : Inputs → List (Option Str)
rnds [] = []
rnds ((rnd, input) ∷ earlier) = some rnd ∷ rnds earlier

abbrev pub bodies : (Option Str → Option Str) → Inputs → List (Option Str)
bodies shown [] = []
bodies shown ((rnd, input) ∷ earlier) = shown input ∷ bodies shown earlier

module _ (crate : DesfireCrate) where
  unfoldable pub run :
      (Str → Option Str → FabFire crate → Ran crate) → Inputs → FabFire crate → FabFire crate
  run step [] self = self
  run step ((rnd, input) ∷ earlier) self = (step rnd input (run step earlier self)).1

  -- A server that has read nothing.
  pub record IsFresh (urn : Str) (self : FabFire crate) : Type 0 where
    pub at_new : self.step ≡ new
    pub no_key : self.key_info ≡ none
    pub no_auth : self.auth_info ≡ none
    pub for_urn : self.local_urn ≡ urn
    pub no_user : self.user ≡ none

  module _ (session : MechanismData) (urn : Str) where
    IsFresh-IsSound :
        {self : FabFire crate} → IsFresh urn self → IsSound crate session urn [] [] self
    IsFresh-IsSound f = record {
      for_urn = f.for_urn;
      magic_seen = λ h. absurd (omega (arith, rw f.at_new at h));
      urn_seen = λ h. absurd (omega (arith, rw f.at_new at h));
      has_key = λ h. absurd (omega (arith, rw f.at_new at h));
      has_challenge = λ h. absurd (omega (arith, rw f.at_new at h));
      key_sound = λ k e. absurd (cc (rw f.no_key at e));
      challenge_drawn = λ a e. cc (rw f.no_auth at e);
      user_earned = λ u e. absurd (cc (rw f.no_user at e));
    }

    pub run-IsSound :
        (step : Str → Option Str → FabFire crate → Ran crate) (shown : Option Str → Option Str)
        → ((rnd : Str) (input : Option Str) (self : FabFire crate)
            → Move crate session rnd (shown input) self (step rnd input self).1)
        → {self : FabFire crate} → IsFresh urn self
        → (inputs : Inputs)
        → IsSound crate session urn (rnds inputs) (bodies shown inputs) (run step inputs self)
    unfolding run
    run-IsSound step shown moves fresh [] = IsFresh-IsSound fresh
    run-IsSound step shown moves fresh ((rnd, input) ∷ earlier) =
        Move-IsSound crate session urn rnd (shown input) (rnds earlier) (bodies shown earlier)
          (moves rnd input _) (run-IsSound step shown moves fresh earlier)
