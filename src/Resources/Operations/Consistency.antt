-- ===== src/Resources/Operations/Consistency.antt =====
-- The database, the signal and the audit log of a resource agree after every operation.
use fabaccess_server.Prelude.{
  ℕ, ◌≡◌, refl, sym, subst, ◌∙◌, ◌⊎◌, inl, inr, Bool, true, false, Option, none, some, List, [],
  ◌∷◌, if◌then◌else◌, Bool-cases, Option-cases, str_eq, Str,
}
use fabaccess_server.Session.{SessionHandle, has_perm}
use fabaccess_server.Resources.Machine.{UserRef, Status, free, in_use, MachineState, free_state}
use fabaccess_server.Resources.Store.{StateDb}
use fabaccess_server.Resources.Operations.{
  PrivilegesBuf, Run, ret, panicked, too_deep, ◌>>=◌, Resource, new, get_state, set_state,
  set_status, may_update, try_update, give_back, force_set, writer_may, anybody_may, or_else,
  and_then, checked,
}

-- What a user of the server can ask of a resource.
pub data Request : Type 0 where
  updates : SessionHandle → Status → Request
  gives_back : SessionHandle → Request
  forces : Status → Request

module _ (store : StateDb) where
  open store use {Db, get, put, get-put, get-put_other}

  pub serve : ℕ → Resource store → Request → Run (Resource store)
  serve fuel r (updates session status) = try_update store fuel r session status
  serve fuel r (gives_back session) = give_back store r session
  serve fuel r (forces status) = force_set store r status

  pub serve_all : ℕ → Resource store → List Request → Run (Resource store)
  serve_all fuel r [] = ret r
  serve_all fuel r (request ∷ requests) = do r' ← serve fuel r request; serve_all fuel r' requests

  -- The database holds the state that the signal shows.
  abbrev pub IsConsistent : Resource store → Type 0
  IsConsistent r = get r.db r.id ≡ some r.signal

  -- An operation leaves the resource alone or sets one state.
  abbrev Outcome : Resource store → Run (Resource store) → Type 0
  Outcome r o = (o ≡ ret r) ⊎ ((s : MachineState) × (o ≡ ret (set_state store r s)))

  -- A resource is consistent after `Inner::new`, whether the database held a state for it or
  -- not: the database holds what the signal shows.
  pub new-IsConsistent :
      (id : Str) (privs : PrivilegesBuf) (db : Db) (audit : List (Str × MachineState))
      → IsConsistent (new store id privs db audit)
  unfolding new
  new-IsConsistent id privs db audit = elim (Option-cases (get db id)) [
    | inl e ↦ rw (e, new) (get-put db id (free_state none))
    | inr (s, e) ↦ rw (e, new) e
  ]

  -- On a consistent resource no operation misses its state.
  pub get_state_lem : (r : Resource store) → IsConsistent r → get_state store r ≡ ret r.signal
  unfolding get_state
  get_state_lem r c = rw c

  pub set_status_lem :
      (r : Resource store) (status : Status)
      → IsConsistent r
      → set_status store r status
        ≡ ret (set_state store r (record { state = status; previous = r.signal.previous }))
  unfolding set_status
  set_status_lem r status c = rw (get_state_lem r c)

  pub try_update_lem :
      (fuel : ℕ) (r : Resource store) (session : SessionHandle) (status : Status)
      → IsConsistent r
      → try_update store fuel r session status ≡ (
          may_update store fuel r session r.signal.state status >>= λ may.
          if may
          then ret (set_state store r (record { state = status; previous = r.signal.previous }))
          else ret r)
  unfolding try_update
  try_update_lem fuel r session status c = simp (get_state_lem r c, set_status_lem r status c)

  abbrev pub handed_back : Resource store → UserRef → Status → Run (Resource store)
  handed_back r user (in_use who) =
      if str_eq who user then ret (set_state store r (free_state (some user))) else ret r
  handed_back r user _ = ret r

  pub give_back_lem :
      (r : Resource store) (session : SessionHandle)
      → IsConsistent r
      → give_back store r session ≡ handed_back r session.user r.signal.state
  unfolding give_back
  give_back_lem r session c = rw (get_state_lem r c) (same r.signal.state)
    where
      same :
          (s : Status)
          → elim s [
            | in_use user ↦
                if str_eq user session.user
                then ret (set_state store r (free_state (some session.user)))
                else ret r
            | _ ↦ ret r
          ]
            ≡ handed_back r session.user s
      same free = refl
      same _ = refl

  pub may_update_cases :
      (fuel : ℕ) (r : Resource store) (session : SessionHandle) (old new : Status)
      → (may_update store fuel r session old new ≡ too_deep)
        ⊎ ((b : Bool) × (may_update store fuel r session old new ≡ ret b))
  unfolding may_update
  may_update_cases fuel r session old new =
      cases (has_perm fuel session r.privs.manage) (has_perm fuel session r.privs.write)
        (writer_may session.user old new) (anybody_may session.user old new)
    where
      cases :
          (m w : Option Bool) (x y : Bool)
          → (or_else (checked m) (or_else (and_then (checked w) (ret x)) (ret y)) ≡ too_deep)
            ⊎ ((b : Bool) × (or_else (checked m) (or_else (and_then (checked w) (ret x)) (ret y))
                  ≡ ret b))
      cases none w x y = inl refl
      cases (some true) w x y = inr (true, refl)
      cases (some false) none x y = inl refl
      cases (some false) (some true) true y = inr (true, refl)
      cases (some false) (some true) false y = inr (y, refl)
      cases (some false) (some false) x y = inr (y, refl)

  serve-Outcome :
      (fuel : ℕ) (r : Resource store) (request : Request)
      → IsConsistent r
      → (serve fuel r request ≡ too_deep) ⊎ Outcome r (serve fuel r request)
  unfolding serve
  serve-Outcome fuel r (updates session status) c =
      rw (try_update_lem fuel r session status c)
        (elim (may_update_cases fuel r session r.signal.state status) [
          | inl e ↦ inl (rw e)
          | inr (b, e) ↦ elim (Bool-cases b) [
            | inl t ↦ inr (inr (record { state = status; previous = r.signal.previous }, rw (e, t)))
            | inr f ↦ inr (inl (rw (e, f)))
          ]
        ])
  serve-Outcome fuel r (gives_back session) c =
      rw (give_back_lem r session c) (inr (back r.signal.state))
    where
      back : (s : Status) → Outcome r (handed_back r session.user s)
      back (in_use who) = elim (Bool-cases (str_eq who session.user)) [
        | inl e ↦ inr (free_state (some session.user), rw e)
        | inr e ↦ inl (rw e)
      ]
      back free = inl refl
      back _ = inl refl
  serve-Outcome fuel r (forces status) c = inr (
      inr (
        record { state = status; previous = r.signal.previous },
        unfold force_set in set_status_lem r status c,
      ))

  -- What every served request keeps: the agreement of database and signal, the identity of the
  -- resource, and all other keys of the database.
  pub record Keeps (r r' : Resource store) : Type 0 where
    pub consistent : IsConsistent r'
    pub same_id : r'.id ≡ r.id
    pub same_privs : r'.privs ≡ r.privs
    pub others : (other : Str) → str_eq r.id other ≡ false → get r'.db other ≡ get r.db other

  set_state-Keeps : (r : Resource store) (s : MachineState) → Keeps r (set_state store r s)
  unfolding set_state
  set_state-Keeps r s = record {
    consistent = get-put r.db r.id s;
    same_id = refl;
    same_privs = refl;
    others = λ other h. get-put_other r.db r.id other s h;
  }

  -- An operation that ends keeps all that, and none panics.
  abbrev pub KeepsRun : Resource store → Run (Resource store) → Type 0
  KeepsRun r (ret r') = Keeps r r'
  KeepsRun r panicked = ⊥
  KeepsRun r too_deep = Unit {0}

  serve-KeepsRun :
      (fuel : ℕ) (r : Resource store) (request : Request)
      → IsConsistent r
      → KeepsRun r (serve fuel r request)
  serve-KeepsRun fuel r request c = elim (serve-Outcome fuel r request c) [
    | inl e ↦ subst (KeepsRun r) (sym e) tt
    | inr (inl e) ↦
        subst (KeepsRun r) (sym e)
          (record { consistent = c; same_id = refl; same_privs = refl; others = λ other h. refl })
    | inr (inr (s, e)) ↦ subst (KeepsRun r) (sym e) (set_state-Keeps r s)
  ]

  Keeps-trans : {r s t : Resource store} → Keeps r s → Keeps s t → Keeps r t
  Keeps-trans k l = record {
    consistent = l.consistent;
    same_id = l.same_id ∙ k.same_id;
    same_privs = l.same_privs ∙ k.same_privs;
    others = λ other h. l.others other (rw k.same_id h) ∙ k.others other h;
  }

  -- From a consistent resource, no sequence of updates, returns and forced changes panics; if
  -- it does not stop at a permission check deeper than the fuel, the database holds the state
  -- that the signal shows, the id and the privileges are as before, and so is every other key
  -- of the database.
  pub serve_all-KeepsRun :
      (fuel : ℕ) (r : Resource store) (requests : List Request)
      → IsConsistent r
      → KeepsRun r (serve_all fuel r requests)
  unfolding serve_all
  serve_all-KeepsRun fuel r [] c = record {
    consistent = c;
    same_id = refl;
    same_privs = refl;
    others = λ other h. refl;
  }
  serve_all-KeepsRun fuel r (request ∷ requests) c =
      step (serve fuel r request) (serve-KeepsRun fuel r request c)
        (λ r' c'. serve_all-KeepsRun fuel r' requests c')
    where
      weaken :
          {r' : Resource store}
          → Keeps r r'
          → (o : Run (Resource store)) → KeepsRun r' o
          → KeepsRun r o
      weaken k (ret last) l = Keeps-trans k l
      weaken k panicked l = l
      weaken k too_deep l = tt

      step :
          (o : Run (Resource store))
          → KeepsRun r o
          → ((r' : Resource store) → IsConsistent r' → KeepsRun r' (serve_all fuel r' requests))
          → KeepsRun r (o >>= λ r'. serve_all fuel r' requests)
      step (ret r') k rest = weaken k (serve_all fuel r' requests) (rest r' k.consistent)
      step panicked k rest = k
      step too_deep k rest = tt
