-- ===== src/Authorization/Roles/Depth.antt =====
-- How deep the traversals recurse: bounded where parents have a lower rank, without end on a cycle.
use fabaccess_server.Prelude.{
  ℕ, zero, suc, ◌<◌, ◌≡◌, ◌∙◌, refl, sym, subst, Bool, true, false, Option, none, some, List, [],
  ◌∷◌, All, if◌then◌else◌, Bool-cases, Option-cases, inl, inr, Str, arith,
}
use fabaccess_server.Authorization.Permissions.{Permission, PermRule}
use fabaccess_server.Users.{UserData}
use fabaccess_server.Authorization.Roles.{
  Role, Roles, get, Seen, contains, any_match, permitted_loop, permitted_tally, is_permitted,
  contains_key, tally_loop, tally_role, insert, rules_of, collect_permrules, mark, ◌>>=◌,
}
use fabaccess_server.Authorization.Roles.Permitted
use fabaccess_server.Authorization.Roles.Insert.{tally_missing, tally_known}

-- Every parent of a defined role has a lower rank: there is no cycle.
abbrev pub IsRanked : Roles → (Str → ℕ) → Type 0
IsRanked roles rank =
    (id : Str) (role : Role) → get roles id ≡ some role → All (λ p. rank p < rank id) role.parents

All-weaken :
    (rank : Str → ℕ) (m n : ℕ) (ids : List Str)
    → All (λ p. rank p < m) ids
    → m < suc n
    → All (λ p. rank p < n) ids
All-weaken rank m n [] h lt = tt
All-weaken rank m n (id ∷ ids) h lt = (omega arith, All-weaken rank m n ids h.1 lt)

abbrev Ends : Option (Bool × Seen) → Type 0
Ends o = (b : Bool) × (s : Seen) × (o ≡ some (b, s))

module _ (roles : Roles) (perm : Permission) (rank : Str → ℕ) (ranked : IsRanked roles rank) where
  loop-Ends :
      (call : Seen → Str → Option (Bool × Seen)) (bound : ℕ)
      → ((seen : Seen) (id : Str) → rank id < bound → Ends (call seen id))
      → (ids : List Str) (seen : Seen) → All (λ id. rank id < bound) ids
      → Ends (permitted_loop call seen ids)
  unfolding permitted_loop
  loop-Ends call bound ends [] seen h = (false, seen, refl)
  loop-Ends call bound ends (id ∷ ids) seen h =
      let (b, s, e) = ends seen id h.0 in
      let (c, t, f) = loop-Ends call bound ends ids s h.1 in
      elim (Bool-cases b) [ inl q ↦ (true, s, rw (e, q)) | inr q ↦ (c, t, rw (e, q) f) ]

  mark-Ends : (id : Str) (o : Option (Bool × Seen)) → Ends o → Ends (mark id o)
  mark-Ends id none (b, s, e) = cc
  mark-Ends id (some (true, s)) e = (true, s, refl)
  mark-Ends id (some (false, s)) e = (false, id ∷ s, refl)

  tally-Ends :
      (fuel : ℕ) (seen : Seen) (id : Str)
      → rank id < fuel
      → Ends (permitted_tally roles perm fuel seen id)
  tally-Ends zero seen id h = absurd (omega arith)
  tally-Ends (suc fuel) seen id h = elim (Option-cases (get roles id)) [
    | inl missing ↦ (false, seen, Permitted.tally_missing roles perm fuel seen id missing)
    | inr (role, found) ↦
        let above = All-weaken rank (rank id) fuel role.parents (ranked id role found) h in
        let parents = mark-Ends id _ (loop-Ends _ fuel (tally-Ends fuel) role.parents seen above) in
        let (b, s, e) = known-Ends seen id role _ parents in
        (b, s, Permitted.tally_known roles perm fuel seen id role found ∙ e)
  ]
    where
      known-Ends :
          (seen : Seen) (id : Str) (role : Role) (o : Option (Bool × Seen))
          → Ends o
          → Ends (
              if contains seen id
              then some (false, seen)
              else if any_match role.permissions perm
              then some (true, seen)
              else o)
      known-Ends seen id role o e = elim (Bool-cases (contains seen id)) [
        | inl old ↦ (false, seen, rw old)
        | inr new ↦ elim (Bool-cases (any_match role.permissions perm)) [
          | inl hit ↦ (true, seen, rw (new, hit))
          | inr miss ↦ (e.0, e.1, rw (new, miss) e.2)
        ]
      ]

  -- When every parent of a defined role has a lower rank than the role, `is_permitted` answers
  -- on any fuel above the ranks of the user's roles.
  pub is_permitted_total :
      (fuel : ℕ) (user : UserData)
      → All (λ id. rank id < fuel) user.roles
      → (answer : Bool) × (is_permitted roles fuel user perm ≡ some answer)
  unfolding is_permitted
  is_permitted_total fuel user h =
      let (b, s, e) = loop-Ends _ fuel (tally-Ends fuel) user.roles [] h in (b, rw e)

-- Roles that match nothing and whose first parent is again such a role.
abbrev pub IsCycle : Roles → Permission → (Str → Type 0) → Type 0
IsCycle roles perm C =
    (id : Str)
    → C id
    → (role : Role) × (p : Str) × (ps : List Str) × (get roles id ≡ some role)
      × (any_match role.permissions perm ≡ false)
      × (role.parents ≡ p ∷ ps)
      × C p

module _ (roles : Roles) (perm : Permission) (C : Str → Type 0) (cycle : IsCycle roles perm C) where
  loop_diverges :
      (call : Seen → Str → Option (Bool × Seen)) (seen : Seen) (id : Str) (ids : List Str)
      → call seen id ≡ none
      → permitted_loop call seen (id ∷ ids) ≡ none
  unfolding permitted_loop
  loop_diverges call seen id ids e = rw e

  tally_diverges : (fuel : ℕ) (id : Str) → C id → permitted_tally roles perm fuel [] id ≡ none
  tally_diverges zero id c = unfold permitted_tally in refl
  tally_diverges (suc fuel) id c =
      let (role, p, ps, found, miss, above, next) = cycle id c in
      Permitted.tally_known roles perm fuel [] id role found
      ∙ rw
          (
            above,
            miss,
            loop_diverges (permitted_tally roles perm fuel) [] p ps (tally_diverges fuel p next),
          )
          (unfold contains in refl)

  -- If each of some roles matches nothing of its own and has one of them as its first parent,
  -- and the user's first role is one of them, then `is_permitted` answers on no fuel: its
  -- recursion has no end.
  pub is_permitted_diverges :
      (fuel : ℕ) (user : UserData) (id : Str) (ids : List Str)
      → user.roles ≡ id ∷ ids
      → C id
      → is_permitted roles fuel user perm ≡ none
  unfolding is_permitted
  is_permitted_diverges fuel user id ids e c =
      rw (e, loop_diverges (permitted_tally roles perm fuel) [] id ids (tally_diverges fuel id c))

abbrev IsSome : Option Roles → Type 0
IsSome o = (acc : Roles) × (o ≡ some acc)

module _ (roles : Roles) (rank : Str → ℕ) (ranked : IsRanked roles rank) where
  tally_loop_total :
      (call : Roles → Str → Option Roles) (bound : ℕ)
      → ((acc : Roles) (id : Str) → rank id < bound → IsSome (call acc id))
      → (ids : List Str) (acc : Roles) → All (λ id. rank id < bound) ids
      → IsSome (tally_loop call acc ids)
  unfolding tally_loop
  tally_loop_total call bound total [] acc h = (acc, refl)
  tally_loop_total call bound total (id ∷ ids) acc h =
      let (a, e) = total acc id h.0 in
      let (b, f) = tally_loop_total call bound total ids a h.1 in (b, rw e f)

  tally_total :
      (fuel : ℕ) (acc : Roles) (id : Str) → rank id < fuel → IsSome (tally_role roles fuel acc id)
  tally_total zero acc id h = absurd (omega arith)
  tally_total (suc fuel) acc id h = elim (Option-cases (get roles id)) [
    | inl missing ↦ (acc, tally_missing roles fuel acc id missing)
    | inr (role, found) ↦
        let above = All-weaken rank (rank id) fuel role.parents (ranked id role found) h in
        let parents = tally_loop_total _ fuel (tally_total fuel) role.parents acc above in
        let (a, e) = known_total id role acc _ parents in
        (a, tally_known roles fuel acc id role found ∙ e)
  ]
    where
      known_total :
          (id : Str) (role : Role) (acc : Roles) (o : Option Roles)
          → IsSome o
          → IsSome (if contains_key acc id then some acc else (o >>= λ a. some (insert id role a)))
      known_total id role acc o (a, e) = elim (Bool-cases (contains_key acc id)) [
        | inl old ↦ (
          acc,
          subst (λ b. (if b then some acc else (o >>= λ x. some (insert id role x))) ≡ some acc)
              (sym old) refl,
        )
        | inr new ↦ (
          insert id role a,
          subst
              (λ b.
                (if b then some acc else (o >>= λ x. some (insert id role x)))
                ≡ some (insert id role a))
              (sym new) (rw e),
        )
      ]

  -- When every parent of a defined role has a lower rank than the role, `collect_permrules`
  -- answers on any fuel above the ranks of the user's roles.
  pub collect_permrules_total :
      (fuel : ℕ) (user : UserData)
      → All (λ id. rank id < fuel) user.roles
      → (rules : List PermRule) × (collect_permrules roles fuel user ≡ some rules)
  unfolding collect_permrules
  collect_permrules_total fuel user h =
      let (acc, e) = tally_loop_total _ fuel (tally_total fuel) user.roles [] h in
      (rules_of acc, rw e)
