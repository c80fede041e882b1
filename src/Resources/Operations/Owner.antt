-- ===== src/Resources/Operations/Owner.antt =====
-- The user of a resource: giving it back, and seeing it.
use fabaccess_server.Prelude.{
  ℕ, ◌≡◌, ◌≢◌, refl, sym, ap, ◌∙◌, ◌↔◌, ◌⊎◌, inl, inr, Bool, true, false, Option, none, some,
  Bool-cases, str_eq, str_eq_sound, str_eq_refl, arith,
}
use mathlib.Core.Bool.{false≢true}
use fabaccess_server.Session.{SessionHandle, has_perm}
use fabaccess_server.Resources.Machine.{
  UserRef, Status, free, disabled, in_use, to_check, blocked, reserved, free_state, status_user,
}
use fabaccess_server.Resources.Store.{StateDb}
use fabaccess_server.Resources.Operations.{
  ret, Resource, set_state, give_back, visible, is_owned_by, get_current_user,
}
use fabaccess_server.Resources.Operations.Consistency.{
  IsConsistent, get_state_lem, give_back_lem, handed_back,
}

user_eq : (who user : UserRef) → in_use who ≡ in_use user → who ≡ user
user_eq who user e = cc

module _ (store : StateDb) (fuel : ℕ) (r : Resource store) (session : SessionHandle)
    (c : IsConsistent store r) where
  handed_cases :
      (s : Status)
      → ((s ≡ in_use session.user)
          × (handed_back store r session.user s
              ≡ ret (set_state store r (free_state (some session.user)))))
        ⊎ ((s ≢ in_use session.user) × (handed_back store r session.user s ≡ ret r))
  handed_cases (in_use who) = elim (Bool-cases (str_eq who session.user)) [
    | inl e ↦ inl (ap in_use (str_eq_sound who session.user e), rw e)
    | inr n ↦
        inr (
          λ e. false≢true (sym n ∙ rw (user_eq who session.user e) (str_eq_refl session.user)),
          rw n,
        )
  ]
  handed_cases free = inr (λ e. ground arith, refl)
  handed_cases disabled = inr (λ e. ground arith, refl)
  handed_cases _ = inr (λ e. ground arith, refl)

  -- On a consistent resource, `give_back` by the user who uses it frees it and records them as
  -- the previous user; by anybody else it changes nothing.
  pub give_back_decides :
      ((r.signal.state ≡ in_use session.user)
        × (give_back store r session ≡ ret (set_state store r (free_state (some session.user)))))
      ⊎ ((r.signal.state ≢ in_use session.user) × (give_back store r session ≡ ret r))
  give_back_decides = elim (handed_cases r.signal.state) [
    | inl (e, f) ↦ inl (e, give_back_lem store r session c ∙ f)
    | inr (n, f) ↦ inr (n, give_back_lem store r session c ∙ f)
  ]

  abbrev names : Option UserRef → UserRef → Bool
  names none owner = false
  names (some user) owner = str_eq user owner

  is_owned_by_lem :
      (owner : UserRef) → is_owned_by store r owner ≡ ret (names (status_user r.signal.state) owner)
  unfolding is_owned_by
  is_owned_by_lem owner = rw (get_state_lem store r c) (same r.signal.state)
    where
      same :
          (s : Status)
          → elim s [
            | free ↦ ret false
            | disabled ↦ ret false
            | in_use user ↦ ret (str_eq user owner)
            | to_check user ↦ ret (str_eq user owner)
            | blocked user ↦ ret (str_eq user owner)
            | reserved user ↦ ret (str_eq user owner)
          ]
            ≡ ret (names (status_user s) owner)
      same free = unfold status_user in refl
      same disabled = unfold status_user in refl
      same _ = unfold status_user in refl

  names_iff : (o : Option UserRef) (owner : UserRef) → (names o owner ≡ true) ↔ (o ≡ some owner)
  names_iff none owner = (λ e. absurd (false≢true e), λ e. cc)
  names_iff (some user) owner = (
    λ e. ap some (str_eq_sound user owner e),
    λ e. let same : user ≡ owner = cc in rw same (str_eq_refl owner),
  )

  -- On a consistent resource, when the check for disclose answers, the resource is visible to
  -- the session exactly if the answer was yes or the session's user is its current user.
  pub visible_iff :
      (d : Bool)
      → has_perm fuel session r.privs.disclose ≡ some d
      → (visible store fuel r session ≡ ret true)
        ↔ ((d ≡ true) ⊎ (get_current_user store r ≡ some session.user))
  unfolding visible get_current_user
  visible_iff true h = (λ e. inl refl, λ x. rw h)
  visible_iff false h =
      rw (h, is_owned_by_lem session.user)
        (
          λ e. inr ((names_iff _ session.user).0 (ret_eq e)),
          elim [ inl e ↦ absurd (false≢true e) | inr o ↦ ap ret ((names_iff _ session.user).1 o) ],
        )
    where
      ret_eq : {a b : Bool} → ret a ≡ ret b → a ≡ b
      ret_eq e = cc
