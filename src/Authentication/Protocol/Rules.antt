-- ===== src/Authentication/Protocol/Rules.antt =====
-- What holds after a step, whichever way it ends: one rule for each way in which the code goes on.
use fabaccess_server.Prelude.{
  ◌≡◌, refl, inl, inr, Bool-cases, is_utf8, ◌&&◌, Bool, true, false, Option, none, some, ◌∷◌,
  if◌then◌else◌, Str, List, Result, ok, err, panic,
}
use fabaccess_server.Authentication.Protocol.{
  SessionError, utf8_or_panic, Step, DesfireCrate, FabFire, Ran, attempt, advance, checked_body,
  or_parse_error, unwrap,
}

pub &&-right : (a b : Bool) → (a && b) ≡ true → b ≡ true
&&-right true b h = h
&&-right false b h = cc

pub utf8_or_panic-eq : (bytes : Str) {text : Str} → utf8_or_panic bytes ≡ ok text → bytes ≡ text
unfolding utf8_or_panic
utf8_or_panic-eq bytes h = elim (Bool-cases (is_utf8 bytes)) [
  | inl good ↦ cc (rw good at h)
  | inr bad ↦ cc (rw bad at h)
]

module _ (crate : DesfireCrate) {A : Type 0} where
  pub or_parse_error-eq_ok : (o : Option A) {a : A} → or_parse_error crate o ≡ ok a → o ≡ some a
  or_parse_error-eq_ok none h = cc
  or_parse_error-eq_ok (some b) h = cc

  pub unwrap-eq_ok : (o : Option A) {a : A} → unwrap crate o ≡ ok a → o ≡ some a
  unfolding unwrap
  unwrap-eq_ok none h = cc
  unwrap-eq_ok (some b) h = cc

module _ (crate : DesfireCrate) where
  pub checked_body-eq_ok :
      (answer bytes : Str)
      → crate.check (crate.response_new answer) ≡ true
      → or_parse_error crate (crate.body (crate.response_new answer)) ≡ ok bytes
      → checked_body crate answer ≡ ok bytes
  unfolding checked_body
  checked_body-eq_ok answer bytes c b = rw (c, b)

module _ (crate : DesfireCrate) (P : FabFire crate → Type 0) where
  pub attempt_rule :
      {A : Type 0} (r : Result SessionError A) (self : FabFire crate) (k : A → Ran crate)
      → P self
      → ((a : A) → r ≡ ok a → P (k a).1)
      → P (attempt crate r self k).1
  unfolding attempt
  attempt_rule (ok a) self k stop go = go a refl
  attempt_rule (err e) self k stop go = stop
  attempt_rule panic self k stop go = stop

  pub if_rule :
      (b : Bool) (x y : Ran crate)
      → (b ≡ true → P x.1)
      → (b ≡ false → P y.1)
      → P (if b then x else y).1
  if_rule true x y yea nay = yea refl
  if_rule false x y yea nay = nay refl

  pub advance_rule :
      (accepts : Str → Bool) (next : Step) (bytes : Str) (self : FabFire crate)
      → ((out : List Str) → P (record self { step = next; written = out }))
      → P (advance crate accepts next bytes self).1
  unfolding advance
  advance_rule accepts next bytes self go =
      if_rule (accepts bytes) _ _ (λ _. go (bytes ∷ self.written)) (λ _. go self.written)
