-- ===== src/Resources/Operations/Update.antt =====
-- Who may change the state of a resource, and to what.
use fabaccess_server.Prelude.{
  ℕ, ◌≡◌, ◌≢◌, refl, sym, ap, ◌∙◌, ◌⊎◌, inl, inr, Bool, true, false, some, if◌then◌else◌,
  Bool-cases, str_eq, str_eq_sound, str_eq_refl, Str,
}
use mathlib.Core.Bool.{false≢true}
use fabaccess_server.Session.{SessionHandle, has_perm}
use fabaccess_server.Resources.Machine.{UserRef, Status, free, in_use, to_check, reserved}
use fabaccess_server.Resources.Store.{StateDb}
use fabaccess_server.Resources.Operations.{
  Run, ret, ◌>>=◌, Resource, set_state, may_update, try_update, writer_may, anybody_may, or_else,
  and_then,
}
use fabaccess_server.Resources.Operations.Consistency.{IsConsistent, try_update_lem}

-- What everybody may do: return what they use, and drop their own reservation.
pub data Release (user : UserRef) (old new : Status) : Type 0 where
  return_free : old ≡ in_use user → new ≡ free → Release user old new
  return_check : (whom : UserRef) → old ≡ in_use user → new ≡ to_check whom → Release user old new
  unreserve : old ≡ reserved user → new ≡ free → Release user old new

-- What a writer may do besides: take or reserve a free machine, and use an own reservation.
pub data Acquire (user : UserRef) (old new : Status) : Type 0 where
  take : old ≡ free → new ≡ in_use user → Acquire user old new
  reserve : old ≡ free → new ≡ reserved user → Acquire user old new
  use_reserved : old ≡ reserved user → new ≡ in_use user → Acquire user old new

-- A change is authorised for managers, for writers who acquire, and for whoever releases.
abbrev pub IsAuthorised : Bool → Bool → UserRef → Status → Status → Type 0
IsAuthorised manage write user old new =
    (manage ≡ true) ⊎ (((write ≡ true) × Acquire user old new) ⊎ Release user old new)

eq_of : (a b : Str) → str_eq a b ≡ true → a ≡ b
eq_of = str_eq_sound

anybody_sound :
    (user : UserRef) (old new : Status) → anybody_may user old new ≡ true → Release user old new
unfolding anybody_may
anybody_sound user (in_use who) free h = return_free (ap in_use (eq_of who user h)) refl
anybody_sound user (in_use who) (to_check w) h = return_check w (ap in_use (eq_of who user h)) refl
anybody_sound user (reserved whom) free h = unreserve (ap reserved (eq_of whom user h)) refl
anybody_sound user _ _ h = absurd (false≢true h)

anybody_complete :
    (user : UserRef) (old new : Status) → Release user old new → anybody_may user old new ≡ true
unfolding anybody_may
anybody_complete user old new (return_free e f) = rw (e, f) (str_eq_refl user)
anybody_complete user old new (return_check w e f) = rw (e, f) (str_eq_refl user)
anybody_complete user old new (unreserve e f) = rw (e, f) (str_eq_refl user)

writer_sound :
    (user : UserRef) (old new : Status)
    → writer_may user old new ≡ true
    → Acquire user old new ⊎ Release user old new
unfolding writer_may
writer_sound user free (in_use who) h = inl (take refl (ap in_use (eq_of who user h)))
writer_sound user free (reserved whom) h =
    inl (reserve refl (ap reserved (sym (eq_of user whom h))))
writer_sound user (in_use who) free h = inr (return_free (ap in_use (eq_of who user h)) refl)
writer_sound user (in_use who) (to_check w) h =
    inr (return_check w (ap in_use (eq_of who user h)) refl)
writer_sound user (reserved whom) free h = inr (unreserve (ap reserved (eq_of whom user h)) refl)
writer_sound user (reserved whom) (in_use who) h = elim (Bool-cases (str_eq whom user)) [
  | inl e ↦
      let own = eq_of whom user e in
      let same = eq_of who whom (rw e at h) in
      inl (use_reserved (ap reserved own) (ap in_use (same ∙ own)))
  | inr e ↦ absurd (false≢true (rw e at h))
]
writer_sound user _ _ h = absurd (false≢true h)

writer_complete :
    (user : UserRef) (old new : Status) → Acquire user old new → writer_may user old new ≡ true
unfolding writer_may
writer_complete user old new (take e f) = rw (e, f) (str_eq_refl user)
writer_complete user old new (reserve e f) = rw (e, f) (str_eq_refl user)
writer_complete user old new (use_reserved e f) = rw (e, f) (rw (str_eq_refl user))

may_of : Bool → Bool → UserRef → Status → Status → Run Bool
may_of m w user old new =
    or_else (ret m)
      (or_else (and_then (ret w) (ret (writer_may user old new))) (ret (anybody_may user old new)))

may_of_cases :
    (m w : Bool) (user : UserRef) (old new : Status)
    → (IsAuthorised m w user old new × (may_of m w user old new ≡ ret true))
      ⊎ ((¬ IsAuthorised m w user old new) × (may_of m w user old new ≡ ret false))
unfolding may_of
may_of_cases true w user old new = inl (inl refl, refl)
may_of_cases false w user old new = elim (Bool-cases (anybody_may user old new)) [
  | inl y ↦
      inl (inr (inr (anybody_sound user old new y)), rw y (any_or w (writer_may user old new)))
  | inr n ↦ rw n (writer w (Bool-cases (writer_may user old new)) n)
]
  where
    any_or : (w x : Bool) → or_else (and_then (ret w) (ret x)) (ret true) ≡ ret true
    any_or true true = refl
    any_or true false = refl
    any_or false x = refl

    not_released : anybody_may user old new ≡ false → ¬ Release user old new
    not_released n r = false≢true (sym n ∙ anybody_complete user old new r)

    granted : Acquire user old new ⊎ Release user old new → IsAuthorised false true user old new
    granted (inl a) = inr (inl (refl, a))
    granted (inr r) = inr (inr r)

    writer :
        (w : Bool)
        → (writer_may user old new ≡ true) ⊎ (writer_may user old new ≡ false)
        → anybody_may user old new ≡ false
        → (IsAuthorised false w user old new
            × (or_else (and_then (ret w) (ret (writer_may user old new))) (ret false) ≡ ret true))
          ⊎ ((¬ IsAuthorised false w user old new)
              × (or_else (and_then (ret w) (ret (writer_may user old new))) (ret false)
                  ≡ ret false))
    writer true (inl x) n = inl (granted (writer_sound user old new x), rw x)
    writer true (inr x) n = inr (
      elim [
        | inl e ↦ false≢true e
        | inr (inl (e, a)) ↦ false≢true (sym x ∙ writer_complete user old new a)
        | inr (inr r) ↦ not_released n r
      ],
      rw x,
    )
    writer false _ n = inr (
      elim [
        | inl e ↦ false≢true e
        | inr (inl (e, a)) ↦ false≢true e
        | inr (inr r) ↦ not_released n r
      ],
      refl,
    )

module _ (store : StateDb) (fuel : ℕ) (r : Resource store) (session : SessionHandle)
    (c : IsConsistent store r) where
  abbrev Checks : Bool → Bool → Type 0
  Checks m w =
      (has_perm fuel session r.privs.manage ≡ some m)
      × (has_perm fuel session r.privs.write ≡ some w)

  may_update_of :
      (m w : Bool) (old new : Status)
      → has_perm fuel session r.privs.manage ≡ some m
      → has_perm fuel session r.privs.write ≡ some w
      → may_update store fuel r session old new ≡ may_of m w session.user old new
  unfolding may_update may_of
  may_update_of m w old new hm hw = rw (hm, hw)

  -- On a consistent resource, when the checks for manage and write answer, `try_update` sets
  -- the new status and keeps the previous user if the change is authorised (by the manage
  -- permission, by the write permission for an acquisition by oneself, or by a release of one's
  -- own use or reservation), and else leaves the resource alone.
  pub try_update_decides :
      (m w : Bool) (new : Status)
      → has_perm fuel session r.privs.manage ≡ some m
      → has_perm fuel session r.privs.write ≡ some w
      → (IsAuthorised m w session.user r.signal.state new
          × (try_update store fuel r session new
              ≡ ret (set_state store r (record { state = new; previous = r.signal.previous }))))
        ⊎ ((¬ IsAuthorised m w session.user r.signal.state new)
            × (try_update store fuel r session new ≡ ret r))
  try_update_decides m w new hm hw = elim (may_of_cases m w session.user r.signal.state new) [
    | inl (a, e) ↦ inl (a, updated ∙ rw (may_update_of m w r.signal.state new hm hw, e))
    | inr (n, e) ↦ inr (n, updated ∙ rw (may_update_of m w r.signal.state new hm hw, e))
  ]
    where
      updated : try_update store fuel r session new ≡ (
          may_update store fuel r session r.signal.state new >>= λ may.
          if may
          then ret (set_state store r (record { state = new; previous = r.signal.previous }))
          else ret r)
      updated = try_update_lem store fuel r session new c

  -- On a consistent resource that is neither free, nor in use by the session's user, nor
  -- reserved by them, `try_update` changes nothing, whatever the new status, when the check for
  -- manage says no and the check for write answers.
  pub try_update_locked :
      (w : Bool) (new : Status)
      → has_perm fuel session r.privs.manage ≡ some false
      → has_perm fuel session r.privs.write ≡ some w
      → r.signal.state ≢ free
      → r.signal.state ≢ in_use session.user
      → r.signal.state ≢ reserved session.user
      → try_update store fuel r session new ≡ ret r
  try_update_locked w new hm hw not_free not_used not_reserved =
      elim (try_update_decides false w new hm hw) [
        | inl (a, e) ↦ absurd (locked a)
        | inr (n, e) ↦ e
      ]
    where
      locked : ¬ IsAuthorised false w session.user r.signal.state new
      locked (inl e) = false≢true e
      locked (inr (inl (e, take f g))) = not_free f
      locked (inr (inl (e, reserve f g))) = not_free f
      locked (inr (inl (e, use_reserved f g))) = not_reserved f
      locked (inr (inr (return_free f g))) = not_used f
      locked (inr (inr (return_check _ f g))) = not_used f
      locked (inr (inr (unreserve f g))) = not_reserved f

  -- On a consistent resource that the session's user uses, an update to free takes effect and
  -- keeps the previous user, whatever the checks for manage and write answer.
  pub try_update_returns :
      (m w : Bool)
      → has_perm fuel session r.privs.manage ≡ some m
      → has_perm fuel session r.privs.write ≡ some w
      → r.signal.state ≡ in_use session.user
      → try_update store fuel r session free
        ≡ ret (set_state store r (record { state = free; previous = r.signal.previous }))
  try_update_returns m w hm hw used = elim (try_update_decides m w free hm hw) [
    | inl (a, e) ↦ e
    | inr (n, e) ↦ absurd (n (inr (inr (return_free used refl))))
  ]
