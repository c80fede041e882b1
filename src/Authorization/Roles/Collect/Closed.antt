-- ===== src/Authorization/Roles/Collect/Closed.antt =====
-- Whatever `tally_role` collects is closed under parents.
use fabaccess_server.Prelude.{
  ℕ, zero, suc, ◌≡◌, ◌∙◌, refl, sym, ap, subst, ◌⊎◌, inl, inr, true, false, Option, none, some,
  List, [], ◌∷◌, In, if◌then◌else◌, Bool-cases, Option-cases, str_eq, str_eq_refl, Str,
}
use fabaccess_server.Authorization.Roles.{
  Role, Roles, get, contains_key, tally_loop, tally_role, insert, ◌>>=◌,
}
use fabaccess_server.Authorization.Roles.Spec.{Inherits, self, parent}
use fabaccess_server.Authorization.Roles.Insert.{
  get-insert, insert_cases, tally_missing, tally_known,
}

module _ (roles : Roles) where
  -- Each collected role is the defined one, and its parents are collected or undefined.
  abbrev Collected : Roles → Str → Type 0
  Collected acc id = (role : Role) × (get acc id ≡ some role)

  abbrev IsDone : Roles → Str → Type 0
  IsDone acc id = (get roles id ≡ none) ⊎ Collected acc id

  record IsClosed (acc : Roles) : Type 0 where
    defined : (id : Str) (role : Role) → get acc id ≡ some role → get roles id ≡ some role
    above :
        (id : Str) (role : Role)
        → get acc id ≡ some role
        → (p : Str) → In p role.parents
        → IsDone acc p

  -- One collection goes on from another: it is closed, and keeps what was collected.
  record Extends (acc acc' : Roles) : Type 0 where
    closed : IsClosed acc'
    kept : (id : Str) → IsDone acc id → IsDone acc' id

  IsDone-insert :
      (acc : Roles) (key id : Str) (role : Role) → IsDone acc id → IsDone (insert key role acc) id
  IsDone-insert acc key id role (inl e) = inl e
  IsDone-insert acc key id role (inr (r, e)) = elim (Bool-cases (str_eq key id)) [
    | inl q ↦ inr (role, get-insert key id role acc ∙ rw q)
    | inr q ↦ inr (r, get-insert key id role acc ∙ rw q e)
  ]

  IsClosed-insert :
      (acc : Roles) (id : Str) (role : Role)
      → IsClosed acc
      → get roles id ≡ some role
      → ((p : Str) → In p role.parents → IsDone acc p)
      → IsClosed (insert id role acc)
  IsClosed-insert acc id role c found above = record {
    defined = λ key r e. elim (insert_cases id key role r acc e) [
      | inl (q, same) ↦ subst (λ k. get roles k ≡ some r) q (found ∙ ap some same)
      | inr old ↦ c.defined key r old
    ];
    above = λ key r e p m. IsDone-insert acc id p role (elim (insert_cases id key role r acc e) [
      | inl (q, same) ↦ above p (subst (λ x. In p x.parents) (sym same) m)
      | inr old ↦ c.above key r old p m
    ]);
  }

  -- From a collected role, every role that it inherits is collected.
  inherited :
      (acc : Roles)
      → IsClosed acc
      → {id r : Str} {role : Role} → Inherits roles id r
      → get roles r ≡ some role
      → IsDone acc id
      → get acc r ≡ some role
  inherited acc c (self id) g (inl missing) = cc
  inherited acc c (self id) g (inr (r, e)) = let known = c.defined id r e in cc
  inherited acc c (parent above found m inh) g (inl missing) = cc
  inherited acc c (parent {id} {p} above found m inh) g (inr (r, e)) =
      let known = c.defined id r e in
      let same : above ≡ r = cc in
      inherited acc c inh g (c.above id r e p (subst (λ x. In p x.parents) same m))

  -- What a call that ends does: it goes on from the roles collected before.
  abbrev Result : (Roles → Type 0) → Roles → Option Roles → Type 0
  Result Q acc none = Unit {0}
  Result Q acc (some acc') = Extends acc acc' × Q acc'

  abbrev AllDone : List Str → Roles → Type 0
  AllDone ids acc = (p : Str) → In p ids → IsDone acc p

  AllDone-cons :
      (id : Str) (ids : List Str) (acc : Roles)
      → IsDone acc id
      → AllDone ids acc
      → AllDone (id ∷ ids) acc
  AllDone-cons id ids acc d ds p (inl e) = subst (IsDone acc) e d
  AllDone-cons id ids acc d ds p (inr m) = ds p m

  then_loop :
      (id : Str) (ids : List Str) (acc acc' : Roles)
      → Extends acc acc'
      → IsDone acc' id
      → (o : Option Roles) → Result (AllDone ids) acc' o
      → Result (AllDone (id ∷ ids)) acc o
  then_loop id ids acc acc' x d none r = tt
  then_loop id ids acc acc' x d (some last) (y, ds) = (
    record { closed = y.closed; kept = λ k h. y.kept k (x.kept k h) },
    AllDone-cons id ids last (y.kept id d) ds,
  )

  loop_step :
      (call : Roles → Str → Option Roles) (acc : Roles) (id : Str) (ids : List Str)
      → ((a : Roles) → IsClosed a → Result (AllDone ids) a (tally_loop call a ids))
      → (o : Option Roles) → call acc id ≡ o
      → Result (λ a. IsDone a id) acc o
      → Result (AllDone (id ∷ ids)) acc (tally_loop call acc (id ∷ ids))
  unfolding tally_loop
  loop_step call acc id ids rest none e r = rw e tt
  loop_step call acc id ids rest (some acc') e (x, d) =
      rw e (then_loop id ids acc acc' x d (tally_loop call acc' ids) (rest acc' x.closed))

  loop_result :
      (call : Roles → Str → Option Roles)
      → ((a : Roles) (id : Str) → IsClosed a → Result (λ a'. IsDone a' id) a (call a id))
      → (ids : List Str) (acc : Roles) → IsClosed acc
      → Result (AllDone ids) acc (tally_loop call acc ids)
  loop_result call ok [] acc c =
      unfold tally_loop in (record { closed = c; kept = λ k h. h }, λ p m. absurd m)
  loop_result call ok (id ∷ ids) acc c =
      loop_step call acc id ids (loop_result call ok ids) (call acc id) refl (ok acc id c)

  insert_result :
      (acc : Roles) (id : Str) (role : Role)
      → get roles id ≡ some role
      → (o : Option Roles) → Result (AllDone role.parents) acc o
      → Result (λ a. IsDone a id) acc (o >>= λ a. some (insert id role a))
  insert_result acc id role found none r = tt
  insert_result acc id role found (some a) (x, above) = (
    record {
      closed = IsClosed-insert a id role x.closed found above;
      kept = λ k h. IsDone-insert a id k role (x.kept k h);
    },
    inr (role, get-insert id id role a ∙ rw (str_eq_refl id)),
  )

  known_result :
      (acc : Roles) (id : Str) (role : Role)
      → IsClosed acc
      → get roles id ≡ some role
      → (parents : Option Roles) → Result (AllDone role.parents) acc parents
      → (get acc id ≡ none) ⊎ ((r : Role) × (get acc id ≡ some r))
      → Result
          (λ a. IsDone a id)
          acc
          (if contains_key acc id then some acc else (parents >>= λ a. some (insert id role a)))
  known_result acc id role c found parents above (inl new) =
      let fresh : contains_key acc id ≡ false = rw (new, contains_key) in
      subst
        (λ b.
          Result (λ a. IsDone a id) acc
            (if b then some acc else (parents >>= λ a. some (insert id role a))))
        (sym fresh) (insert_result acc id role found parents above)
  known_result acc id role c found parents above (inr (r, old)) =
      let present : contains_key acc id ≡ true = rw (old, contains_key) in
      subst
        (λ b.
          Result (λ a. IsDone a id) acc
            (if b then some acc else (parents >>= λ a. some (insert id role a))))
        (sym present) (record { closed = c; kept = λ k h. h }, inr (r, old))

  tally_result :
      (fuel : ℕ) (acc : Roles) (id : Str)
      → IsClosed acc
      → Result (λ a. IsDone a id) acc (tally_role roles fuel acc id)
  tally_result zero acc id c = unfold tally_role in tt
  tally_result (suc fuel) acc id c = elim (Option-cases (get roles id)) [
    | inl missing ↦
        subst (Result (λ a. IsDone a id) acc) (sym (tally_missing roles fuel acc id missing))
          (record { closed = c; kept = λ k h. h }, inl missing)
    | inr (role, found) ↦
        let above = loop_result (tally_role roles fuel) (tally_result fuel) role.parents acc c in
        subst (Result (λ a. IsDone a id) acc) (sym (tally_known roles fuel acc id role found))
          (known_result acc id role c found _ above (Option-cases (get acc id)))
  ]

  empty-IsClosed : IsClosed []
  unfolding get
  empty-IsClosed = record { defined = λ id role e. cc; above = λ id role e p m. cc }

  -- After a collection that ends, every role that `ids` inherit is in it.
  pub collected :
      (fuel : ℕ) (ids : List Str) (acc : Roles)
      → tally_loop (tally_role roles fuel) [] ids ≡ some acc
      → (id r : Str) (role : Role) → In id ids
      → Inherits roles id r
      → get roles r ≡ some role
      → get acc r ≡ some role
  collected fuel ids acc e id r role m inh g =
      let (x, done) : Extends [] acc × AllDone ids acc =
        rw e at (loop_result (tally_role roles fuel) (tally_result fuel) ids [] empty-IsClosed) in
      inherited acc x.closed inh g (done id m)
