-- ===== src/Authorization/Roles/Permitted.antt =====
-- `is_permitted` against the inherited roles, for every role graph, cyclic ones included.
use fabaccess_server.Prelude.{
  ℕ, zero, suc, ◌≡◌, ◌∙◌, refl, ◌↔◌, inl, inr, Bool, true, false, Option, none, some, List, [], ◌∷◌,
  Any, if◌then◌else◌, Bool-cases, Option-cases, sym, subst, str_eq, str_eq_sound, Str, arith,
}
use fabaccess_server.Authorization.Permissions.{Permission}
use fabaccess_server.Users.{UserData}
use fabaccess_server.Authorization.Roles.{
  Role, Roles, get, Seen, contains, any_match, permitted_loop, permitted_tally, is_permitted, ◌>>=◌,
  mark,
}
use mathlib.Core.Bool.{false≢true}
use fabaccess_server.Authorization.Roles.Spec.{
  Permits, Allows, any_match_iff, Permits-split, Permits-own, Permits-parent,
}

module _ (roles : Roles) (perm : Permission) where
  abbrev P : Str → Type 0
  P = Permits roles perm

  -- Roles that were seen permit nothing.
  abbrev Refused : Seen → Type 0
  Refused seen = (id : Str) → contains seen id ≡ true → ¬ P id

  -- What a call says of a role, and of the seen set that it leaves.
  abbrev Verdict : Type 0 → Option (Bool × Seen) → Type 0
  Verdict Q none = Unit {0}
  Verdict Q (some (true, seen)) = Q
  Verdict Q (some (false, seen)) = Refused seen × ¬ Q

  Refused-cons : (id : Str) (seen : Seen) → ¬ P id → Refused seen → Refused (id ∷ seen)
  unfolding contains
  Refused-cons id seen refused rest key h = elim (Bool-cases (str_eq id key)) [
    | inl e ↦ λ p. refused (subst P (sym (str_eq_sound id key e)) p)
    | inr e ↦ rest key (rw e at h)
  ]

  Verdict-map :
      {Q R : Type 0} → (Q → R) → (R → Q) → (o : Option (Bool × Seen)) → Verdict Q o → Verdict R o
  Verdict-map f g none v = tt
  Verdict-map f g (some (true, seen)) v = f v
  Verdict-map f g (some (false, seen)) v = (v.0, λ r. v.1 (g r))

  Any-rest : {id : Str} (ids : List Str) → ¬ P id → Any P (id ∷ ids) → Any P ids
  Any-rest ids refused (inl p) = absurd (refused p)
  Any-rest ids refused (inr h) = h

  loop_step :
      (call : Seen → Str → Option (Bool × Seen)) (seen : Seen) (id : Str) (ids : List Str)
      → ((s : Seen) → Refused s → Verdict (Any P ids) (permitted_loop call s ids))
      → (o : Option (Bool × Seen)) → call seen id ≡ o
      → Verdict (P id) o
      → Verdict (Any P (id ∷ ids)) (permitted_loop call seen (id ∷ ids))
  unfolding permitted_loop
  loop_step call seen id ids rest none e v = rw e tt
  loop_step call seen id ids rest (some (true, s)) e v = rw e (inl v)
  loop_step call seen id ids rest (some (false, s)) e v =
      rw e (Verdict-map inr (Any-rest ids v.1) (permitted_loop call s ids) (rest s v.0))

  loop-Verdict :
      (call : Seen → Str → Option (Bool × Seen))
      → ((seen : Seen) (id : Str) → Refused seen → Verdict (P id) (call seen id))
      → (ids : List Str) (seen : Seen) → Refused seen
      → Verdict (Any P ids) (permitted_loop call seen ids)
  loop-Verdict call ok [] seen r = unfold permitted_loop in (r, λ x. x)
  loop-Verdict call ok (id ∷ ids) seen r =
      loop_step call seen id ids (loop-Verdict call ok ids) (call seen id) refl (ok seen id r)

  -- The role itself joins the seen set once its parents have refused.
  mark-Verdict :
      (id : Str) (role : Role)
      → get roles id ≡ some role
      → any_match role.permissions perm ≡ false
      → (o : Option (Bool × Seen)) → Verdict (Any P role.parents) o
      → Verdict (P id) (mark id o)
  mark-Verdict id role found unmatched none v = tt
  mark-Verdict id role found unmatched (some (true, seen)) v = Permits-parent role found v
  mark-Verdict id role found unmatched (some (false, seen)) v =
      (Refused-cons id seen refused v.0, refused)
    where
      refused : ¬ P id
      refused p =
          let (r, found', why) = Permits-split p in
          let same : role ≡ r = cc in
          elim why [
            | inl own ↦ false≢true (
                sym unmatched
                ∙ (any_match_iff role.permissions perm).1
                    (subst (λ x. Allows perm x.permissions) (sym same) own))
            | inr above ↦ v.1 (subst (λ x. Any P x.parents) (sym same) above)
          ]

  missing_refused : (id : Str) → get roles id ≡ none → ¬ P id
  missing_refused id missing p = let (role, found, _) = Permits-split p in ground arith

  -- The four branches of `permitted_tally`.
  pub tally_missing :
      (fuel : ℕ) (seen : Seen) (id : Str)
      → get roles id ≡ none
      → permitted_tally roles perm (suc fuel) seen id ≡ some (false, seen)
  unfolding permitted_tally
  tally_missing fuel seen id e = rw (e, permitted_tally)

  pub tally_known :
      (fuel : ℕ) (seen : Seen) (id : Str) (role : Role)
      → get roles id ≡ some role
      → permitted_tally roles perm (suc fuel) seen id ≡ (
          if contains seen id
          then some (false, seen)
          else if any_match role.permissions perm
          then some (true, seen)
          else mark id (permitted_loop (permitted_tally roles perm fuel) seen role.parents))
  unfolding permitted_tally
  tally_known fuel seen id role e = rw (e, permitted_tally)

  known-Verdict :
      (id : Str) (role : Role) (seen : Seen)
      → get roles id ≡ some role
      → Refused seen
      → (parents : Option (Bool × Seen)) → Verdict (Any P role.parents) parents
      → Verdict (P id) (
          if contains seen id
          then some (false, seen)
          else if any_match role.permissions perm
          then some (true, seen)
          else mark id parents)
  known-Verdict id role seen found r parents v = elim (Bool-cases (contains seen id)) [
    | inl old ↦ rw (old, Verdict) (r, r id old)
    | inr new ↦
        rw (new, Verdict)
          (elim (Bool-cases (any_match role.permissions perm)) [
            | inl hit ↦
                rw (hit, Verdict)
                  (Permits-own role found ((any_match_iff role.permissions perm).0 hit))
            | inr miss ↦ rw (miss, Verdict) (mark-Verdict id role found miss parents v)
          ])
  ]

  tally-Verdict :
      (fuel : ℕ) (seen : Seen) (id : Str)
      → Refused seen
      → Verdict (P id) (permitted_tally roles perm fuel seen id)
  tally-Verdict zero seen id r = unfold permitted_tally in tt
  tally-Verdict (suc fuel) seen id r = elim (Option-cases (get roles id)) [
    | inl missing ↦
        subst (Verdict (P id)) (sym (tally_missing fuel seen id missing))
          (r, missing_refused id missing)
    | inr (role, found) ↦ subst (Verdict (P id)) (sym (tally_known fuel seen id role found)) (
        known-Verdict id role seen found r _
          (loop-Verdict _ (tally-Verdict fuel) role.parents seen r))
  ]

  nothing-Refused : Refused []
  unfolding contains
  nothing-Refused id h = absurd (false≢true h)

  -- Whenever `is_permitted` answers on its fuel, the answer is yes exactly when one of the
  -- user's roles inherits, through any number of parents, a defined role with a rule that
  -- grants the permission.
  pub is_permitted_iff :
      (fuel : ℕ) (user : UserData) (answer : Bool)
      → is_permitted roles fuel user perm ≡ some answer
      → (answer ≡ true) ↔ Any (Permits roles perm) user.roles
  unfolding is_permitted
  is_permitted_iff fuel user answer h =
      decide (permitted_loop (permitted_tally roles perm fuel) [] user.roles) h
        (loop-Verdict _ (tally-Verdict fuel) user.roles [] nothing-Refused)
    where
      decide :
          (o : Option (Bool × Seen))
          → (o >>= λ (g, _). some g) ≡ some answer
          → Verdict (Any P user.roles) o
          → (answer ≡ true) ↔ Any P user.roles
      decide none e v = cc
      decide (some (true, s)) e v = (λ _. v, λ _. cc)
      decide (some (false, s)) e v = (λ t. cc, λ p. absurd (v.1 p))
