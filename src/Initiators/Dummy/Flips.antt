-- ===== src/Initiators/Dummy/Flips.antt =====
-- What the dummy initiator makes of its machine.
use fabaccess_server.Prelude.{
  ℕ, zero, suc, ◌+◌, ◌*◌, ◌-◌, ◌<◌, ◌≤◌, ◌≡◌, refl, sym, subst, ◌∙◌, ◌⊎◌, inl, inr, Bool,
  Bool-cases, true, false, none, some, if◌then◌else◌, arith,
}
use mathlib.Core.Bool.{true≢false}
use fabaccess_server.Session.{has_perm}
use fabaccess_server.Resources.Machine.{UserRef, Status, free, in_use}
use fabaccess_server.Resources.Store.{StateDb}
use fabaccess_server.Resources.Operations.{Run, ret, panicked, too_deep, set_state}
use fabaccess_server.Resources.Operations.Consistency.{IsConsistent}
use fabaccess_server.Resources.Operations.Update.{try_update_decides}
use fabaccess_server.Initiators.Dummy.{
  DummyState, empty, sleeping, updating, flip, Dummy, Round, again, return, arm, poll,
}

-- The machine is free or used by this user.
abbrev pub IsOwn : UserRef → Status → Type 0
IsOwn user status = (status ≡ free) ⊎ (status ≡ in_use user)

-- There is a status to ask for next, of these two.
abbrev pub HasNext : UserRef → DummyState → Type 0
HasNext user empty = Unit {0}
HasNext user (sleeping none) = ⊥
HasNext user (sleeping (some status)) = IsOwn user status
HasNext user (updating status) = IsOwn user status

flip-IsOwn : (user : UserRef) (status : Status) → IsOwn user status → IsOwn user (flip user status)
unfolding flip
flip-IsOwn user status (inl e) = inr (rw e)
flip-IsOwn user status (inr e) = inl (rw e)

-- Passes until a timer is polled.
abbrev passes : DummyState → ℕ
passes empty = 1
passes (sleeping _) = 0
passes (updating _) = 1

module _ (store : StateDb) (depth : ℕ) (m w : Bool) where
  pub record IsTame (d : Dummy store) : Type 0 where
    pub consistent : IsConsistent store d.resource
    pub manages : has_perm depth d.session d.resource.privs.manage ≡ some m
    pub writes : has_perm depth d.session d.resource.privs.write ≡ some w
    pub own : IsOwn d.session.user d.resource.signal.state
    pub has_next : HasNext d.session.user d.state

  -- What a pass leads to; where no timer fired, it leads on.
  abbrev Leads : ℕ → Bool → Run (Round store) → Type 0
  Leads n fired (ret (again d)) = IsTame d × (passes d.state + 1 ≤ n + (if fired then 2 else 0))
  Leads n fired (ret (return d)) = IsTame d
  Leads n fired panicked = ⊥
  Leads n fired too_deep = ⊥

  arm-Leads :
      (fired : Bool) (s : DummyState) (d : Dummy store)
      → d.state ≡ s
      → IsTame d
      → Leads (passes s) fired (arm store depth fired s d)
  unfolding arm set_state
  arm-Leads fired empty d e t = (
    record {
      consistent = t.consistent;
      manages = t.manages;
      writes = t.writes;
      own = t.own;
      has_next = inl refl;
    },
    omega arith,
  )
  arm-Leads true (sleeping none) d e t = absurd (subst (HasNext d.session.user) e t.has_next)
  arm-Leads true (sleeping (some status)) d e t = (
    record {
      consistent = t.consistent;
      manages = t.manages;
      writes = t.writes;
      own = t.own;
      has_next = subst (HasNext d.session.user) e t.has_next;
    },
    omega arith,
  )
  arm-Leads false (sleeping next) d e t = t
  arm-Leads fired (updating status) d e t =
      elim (try_update_decides store depth d.resource d.session t.consistent m w status t.manages
        t.writes) [
          | inl (a, done) ↦ rw done (
            record {
              consistent = store.get-put d.resource.db d.resource.id _;
              manages = t.manages;
              writes = t.writes;
              own = asked;
              has_next = flip-IsOwn d.session.user status asked;
            },
            omega arith,
          )
          | inr (n, left) ↦ rw left (
            record {
              consistent = t.consistent;
              manages = t.manages;
              writes = t.writes;
              own = t.own;
              has_next = flip-IsOwn d.session.user status asked;
            },
            omega arith,
          )
        ]
    where
      asked : IsOwn d.session.user status
      asked = subst (HasNext d.session.user) e t.has_next

  poll_from :
      (fuel i left : ℕ) (fired : ℕ → Bool) (d : Dummy store)
      → ((n : ℕ) → i + left ≤ n → fired n ≡ false)
      → IsTame d
      → 2 * left + passes d.state < fuel
      → (d' : Dummy store) × (poll store depth fuel fired i d ≡ some (ret d')) × IsTame d'
  unfolding poll
  poll_from zero i left fired d quiet t lt = absurd (omega arith)
  poll_from (suc fuel) i left fired d quiet t lt =
      goes (arm store depth (fired i) d.state d) (arm-Leads (fired i) d.state d refl t)
        (λ rest d1 quiet1 t1 lt1. poll_from fuel (i + 1) rest fired d1 quiet1 t1 lt1)
    where
      some_left : (n : ℕ) → ((j : ℕ) → i + n ≤ j → fired j ≡ false) → fired i ≡ true → 1 ≤ n
      some_left zero q e = absurd (true≢false (sym e ∙ q i (omega arith)))
      some_left (suc n) q e = omega arith

      goes :
          (r : Run (Round store))
          → Leads (passes d.state) (fired i) r
          → ((rest : ℕ) (d1 : Dummy store)
              → ((n : ℕ) → i + 1 + rest ≤ n → fired n ≡ false)
              → IsTame d1
              → 2 * rest + passes d1.state < fuel
              → (d' : Dummy store) × (poll store depth fuel fired (i + 1) d1 ≡ some (ret d'))
                × IsTame d')
          → (d' : Dummy store) × (elim r [
            | ret (return d1) ↦ some (ret d1)
            | ret (again d1) ↦ poll store depth fuel fired (i + 1) d1
            | panicked ↦ some panicked
            | too_deep ↦ some too_deep
          ]
              ≡ some (ret d'))
            × IsTame d'
      goes (ret (return d1)) t1 ih = (d1, refl, t1)
      goes (ret (again d1)) (t1, le) ih = elim (Bool-cases (fired i)) [
        | inl ready ↦
            let le' = rw ready at le in
            let one = some_left left quiet ready in
            ih (left - 1) d1 (λ n h. quiet n (omega arith)) t1 (omega arith)
        | inr idle ↦
            let le' = rw idle at le in ih left d1 (λ n h. quiet n (omega arith)) t1 (omega arith)
      ]
      goes panicked l ih = elim l [ ]
      goes too_deep l ih = elim l [ ]

  -- For a dummy initiator that has a status to ask for, on a consistent resource that is free
  -- or in use by its user, when the checks for manage and write answer: if the timer is not
  -- ready from some pass on, a poll on more than twice that many passes and one returns as
  -- pending without a panic, and all of this holds again, so that the machine is still free or
  -- in use by that user.
  pub poll-IsTame :
      (fuel left : ℕ) (fired : ℕ → Bool) (d : Dummy store)
      → IsTame d
      → ((n : ℕ) → left ≤ n → fired n ≡ false)
      → 2 * left + 1 < fuel
      → (d' : Dummy store) × (poll store depth fuel fired 0 d ≡ some (ret d')) × IsTame d'
  poll-IsTame fuel left fired d t quiet lt =
      poll_from fuel 0 left fired d (λ n h. quiet n (omega arith)) t (few d.state)
    where
      few : (s : DummyState) → 2 * left + passes s < fuel
      few empty = omega arith
      few (sleeping next) = omega arith
      few (updating status) = omega arith
