-- ===== src/Api/Machine/Offers.antt =====
-- The interfaces that a machine hands out do what they promise.
use fabaccess_server.Prelude.{
  ℕ, ◌≡◌, ◌≢◌, ◌⊎◌, inl, inr, refl, ap, Bool, Bool-cases, true, false, ◌&&◌, none, some, codes,
  ◌++◌, if◌then◌else◌, str_eq_sound, str_eq_refl, ok,
}
use mathlib.Core.Bool.{false≢true}
use fabaccess_server.Session.{SessionHandle, has_perm}
use fabaccess_server.Resources.Machine.{UserRef, Status, free_state}
use fabaccess_server.Resources.Store.{StateDb}
use fabaccess_server.Resources.Operations.{ret, Resource, set_state, force_set, get_state_ref}
use fabaccess_server.Resources.Operations.Consistency.{IsConsistent, set_status_lem}
use fabaccess_server.Resources.Operations.Update.{
  take, reserve, use_reserved, return_free, return_check, unreserve, IsAuthorised,
  try_update_decides,
}
use fabaccess_server.Resources.Operations.Owner.{give_back_decides}
use fabaccess_server.Api.Machine.{
  ApiState, MachineView, Description, api_state, usable, used_by, status_of, build_into, use_,
  hand_back, force_set_state,
}

usable_sound :
    (user : UserRef) (s : Status)
    → usable user s ≡ true
    → (s ≡ Status.free) ⊎ (s ≡ Status.reserved user)
unfolding usable
usable_sound user Status.free h = inl refl
usable_sound user (Status.reserved who) h = inr (ap Status.reserved (str_eq_sound who user h))
usable_sound user _ h = absurd (false≢true h)

usable_complete :
    (user : UserRef) (s : Status)
    → (s ≡ Status.free) ⊎ (s ≡ Status.reserved user)
    → usable user s ≡ true
unfolding usable
usable_complete user s (inl e) = rw e
usable_complete user s (inr e) = rw e (str_eq_refl user)

used_by_sound : (user : UserRef) (s : Status) → used_by user s ≡ true → s ≡ Status.in_use user
unfolding used_by
used_by_sound user (Status.in_use who) h = ap Status.in_use (str_eq_sound who user h)
used_by_sound user _ h = absurd (false≢true h)

used_by_complete : (user : UserRef) (s : Status) → s ≡ Status.in_use user → used_by user s ≡ true
unfolding used_by
used_by_complete user s e = rw e (str_eq_refl user)

status_of-api_state :
    (user : UserRef) (state : ApiState)
    → state ≢ ApiState.totakeover
    → (s : Status) × (status_of user state ≡ ok s) × (api_state s ≡ state)
unfolding status_of api_state
status_of-api_state user ApiState.free n = (Status.free, refl, refl)
status_of-api_state user ApiState.blocked n = (Status.blocked user, refl, refl)
status_of-api_state user ApiState.disabled n = (Status.disabled, refl, refl)
status_of-api_state user ApiState.in_use n = (Status.in_use user, refl, refl)
status_of-api_state user ApiState.reserved n = (Status.reserved user, refl, refl)
status_of-api_state user ApiState.to_check n = (Status.to_check user, refl, refl)
status_of-api_state user ApiState.totakeover n = absurd (n refl)

module _ (store : StateDb) (fuel : ℕ) (session : SessionHandle)
    (describe : Resource store → Description) (r : Resource store) where
  -- What is built where the permission checks answer.
  abbrev view_of : Bool → Bool → Bool → MachineView
  view_of m w d = record {
    id = r.id;
    about = describe r;
    urn = codes "urn:fabaccess:resource:" ++ r.id;
    offers_use = w && usable session.user (get_state_ref store r).state;
    offers_manage = m;
    offers_inuse = used_by session.user (get_state_ref store r).state;
    shown_state = if d then some (api_state (get_state_ref store r).state) else none;
    offers_info = true;
  }

  build_into_lem :
      (m w d : Bool)
      → has_perm fuel session r.privs.manage ≡ some m
      → has_perm fuel session r.privs.write ≡ some w
      → has_perm fuel session r.privs.read ≡ some d
      → build_into store fuel session describe r ≡ ret (view_of m w d)
  unfolding build_into
  build_into_lem m true d hm hw hd = rw (hm, hw, hd)
  build_into_lem m false d hm hw hd = rw (hm, hw, hd)

  abbrev pub used : Resource store
  used =
      set_state store r
        (record { state = Status.in_use session.user; previous = r.signal.previous })

  module _ (c : IsConsistent store r) where
    use_authorised :
        (m w : Bool)
        → IsAuthorised m w session.user r.signal.state (Status.in_use session.user)
        → (m ≡ true) ⊎ ((w ≡ true) × (usable session.user r.signal.state ≡ true))
    use_authorised m w (inl e) = inl e
    use_authorised m w (inr (inl (e, take f g))) = inr (e, usable_complete _ _ (inl f))
    use_authorised m w (inr (inl (e, reserve f g))) = cc
    use_authorised m w (inr (inl (e, use_reserved f g))) = inr (e, usable_complete _ _ (inr f))
    use_authorised m w (inr (inr (return_free f g))) = cc
    use_authorised m w (inr (inr (return_check _ f g))) = cc
    use_authorised m w (inr (inr (unreserve f g))) = cc

    use_-build_into :
        (m w d : Bool)
        → has_perm fuel session r.privs.manage ≡ some m
        → has_perm fuel session r.privs.write ≡ some w
        → has_perm fuel session r.privs.read ≡ some d
        → ((((view_of m w d).offers_use ≡ true) × (use_ store fuel session r ≡ ret used))
            ⊎ (((view_of m w d).offers_use ≡ false)
                × ((m ≡ true) ⊎ (use_ store fuel session r ≡ ret r))))
    unfolding use_
    use_-build_into m w d hm hw hd =
        elim (try_update_decides store fuel r session c m w (Status.in_use session.user) hm hw) [
          | inl (a, e) ↦ elim (use_authorised m w a) [
            | inl manager ↦ elim (Bool-cases (w && usable session.user r.signal.state)) [
              | inl offered ↦ inl (offered, e)
              | inr hidden ↦ inr (hidden, inl manager)
            ]
            | inr (writer, may) ↦ inl (rw (writer, may), e)
          ]
          | inr (n, e) ↦ inr (refused w n, inr e)
        ]
      where
        refused :
            (w : Bool)
            → (¬ IsAuthorised m w session.user r.signal.state (Status.in_use session.user))
            → (w && usable session.user r.signal.state) ≡ false
        refused false n = refl
        refused true n = elim (Bool-cases (usable session.user r.signal.state)) [
          | inl may ↦ elim (usable_sound session.user r.signal.state may) [
            | inl f ↦ absurd (n (inr (inl (refl, take f refl))))
            | inr f ↦ absurd (n (inr (inl (refl, use_reserved f refl))))
          ]
          | inr may_not ↦ may_not
        ]

    hand_back-build_into :
        (m w d : Bool)
        → has_perm fuel session r.privs.manage ≡ some m
        → has_perm fuel session r.privs.write ≡ some w
        → has_perm fuel session r.privs.read ≡ some d
        → ((((view_of m w d).offers_inuse ≡ true)
              × (hand_back store session r
                  ≡ ret (set_state store r (free_state (some session.user)))))
            ⊎ (((view_of m w d).offers_inuse ≡ false) × (hand_back store session r ≡ ret r)))
    unfolding hand_back
    hand_back-build_into m w d hm hw hd = elim (give_back_decides store fuel r session c) [
      | inl (e, f) ↦ inl (used_by_complete session.user r.signal.state e, f)
      | inr (n, f) ↦ elim (Bool-cases (used_by session.user r.signal.state)) [
        | inl u ↦ absurd (n (used_by_sound session.user r.signal.state u))
        | inr u ↦ inr (u, f)
      ]
    ]

    -- On a consistent resource, when the checks for manage, write and read answer: where the
    -- interface to use a machine is offered, the request sets the machine in use by the
    -- session's user, and where it is not, the request does nothing or the user may manage;
    -- where the interface to give it back is offered, the request frees the machine, and
    -- where it is not, it does nothing.
    pub build_into-offers :
        (m w d : Bool)
        → has_perm fuel session r.privs.manage ≡ some m
        → has_perm fuel session r.privs.write ≡ some w
        → has_perm fuel session r.privs.read ≡ some d
        → (view : MachineView) × (build_into store fuel session describe r ≡ ret view)
          × (((view.offers_use ≡ true) × (use_ store fuel session r ≡ ret used))
              ⊎ ((view.offers_use ≡ false) × ((m ≡ true) ⊎ (use_ store fuel session r ≡ ret r))))
          × (((view.offers_inuse ≡ true)
                × (hand_back store session r
                    ≡ ret (set_state store r (free_state (some session.user)))))
              ⊎ ((view.offers_inuse ≡ false) × (hand_back store session r ≡ ret r)))
    build_into-offers m w d hm hw hd = (
      view_of m w d,
      build_into_lem m w d hm hw hd,
      use_-build_into m w d hm hw hd,
      hand_back-build_into m w d hm hw hd,
    )

-- On a consistent resource, when the checks for manage, write and read answer, forcing any state
-- but the takeover succeeds, and the machine shows that state afterwards to who may read, and no
-- state to others.
pub build_into-force_set_state :
    (store : StateDb) (fuel : ℕ) (session : SessionHandle) (describe : Resource store → Description)
    (r : Resource store) (state : ApiState) (m w d : Bool)
    → IsConsistent store r
    → state ≢ ApiState.totakeover
    → has_perm fuel session r.privs.manage ≡ some m
    → has_perm fuel session r.privs.write ≡ some w
    → has_perm fuel session r.privs.read ≡ some d
    → (r' : Resource store) × (view : MachineView) × (force_set_state store session state r
        ≡ ok (ret r'))
      × (build_into store fuel session describe r' ≡ ret view)
      × (view.shown_state ≡ (if d then some state else none))
unfolding force_set_state force_set set_state
build_into-force_set_state store fuel session describe r state m w d c n hm hw hd =
    let (s, asked, shown) = status_of-api_state session.user state n in
    let r' = set_state store r (record { state = s; previous = r.signal.previous }) in
    (
      r',
      view_of store fuel session describe r' m w d,
      rw (asked, force_set_state) (ap ok (set_status_lem store r s c)),
      build_into_lem store fuel session describe r' m w d hm hw hd,
      rw shown,
    )
