-- ===== src/Examples/Roles.antt =====
-- Roles of a workshop, bffhd/authorization/roles.rs.
use fabaccess_server.Prelude.{
  ℕ, ◌<◌, ◌≡◌, refl, subst, ◌↔◌, ◌⊎◌, Bool, true, none, some, List, [], ◌∷◌, All, Any, Str, codes,
  str_eq, if◌then◌else◌, Bool-cases, inl, inr, arith,
}
use fabaccess_server.Authorization.Permissions.{
  Permission, PermRule, base, children, match_perm, iter, cmp_segments, partial_cmp,
}
use fabaccess_server.Users.{UserData}
use fabaccess_server.Authorization.Roles.{
  Role, Roles, get, is_permitted, any_match, contains, permitted_loop, permitted_tally, insert,
  tally_loop, tally_role, rules_of, collect_permrules,
}
use fabaccess_server.Authorization.Roles.Spec.{Permits}
use fabaccess_server.Authorization.Roles.Permitted.{is_permitted_iff}
use fabaccess_server.Authorization.Roles.Collect.{is_permitted-collect_permrules}
use fabaccess_server.Authorization.Roles.Depth.{IsRanked, IsCycle, is_permitted_total}

abbrev admin_role : Role
admin_role = record { parents = codes "user" ∷ []; permissions = base (codes "admin") ∷ [] }

abbrev user_role : Role
user_role = record { parents = []; permissions = children (codes "laser") ∷ [] }

-- Admins are users, too.
abbrev roles : Roles
roles = (codes "admin", admin_role) ∷ (codes "user", user_role) ∷ []

abbrev alice : UserData
alice = record { roles = codes "admin" ∷ []; passwd = none; kv = [] }

abbrev laser_cut : Permission
laser_cut = codes "laser.cut"

alice_cuts : is_permitted roles 2 alice laser_cut ≡ some true
unfolding is_permitted permitted_loop permitted_tally get contains any_match match_perm partial_cmp
    cmp_segments iter str_eq
alice_cuts = refl

alice_rules :
    collect_permrules roles 2 alice ≡ some (base (codes "admin") ∷ children (codes "laser") ∷ [])
unfolding collect_permrules tally_loop tally_role get insert rules_of str_eq
alice_rules = refl

is_permitted_iff_example : (true ≡ true) ↔ Any (Permits roles laser_cut) alice.roles
is_permitted_iff_example = is_permitted_iff roles laser_cut 2 alice true alice_cuts

-- Roles without parents rank below those with parents.
abbrev rank : Str → ℕ
rank id = if str_eq (codes "admin") id then 1 else 0

user_below : rank (codes "user") < 1
unfolding str_eq
user_below = omega arith

ranked : IsRanked roles rank
unfolding get
ranked id role e = elim (Bool-cases (str_eq (codes "admin") id)) [
  | inl a ↦
      let found : some admin_role ≡ some role = rw a at e in
      let same : admin_role ≡ role = cc in
      subst (λ (x : Role). All (λ p. rank p < rank id) x.parents) same (rw a (user_below, tt))
  | inr a ↦ user_ranked (rw a at e)
]
  where
    user_ranked :
        (if str_eq (codes "user") id then some user_role else none) ≡ some role
        → All (λ p. rank p < rank id) role.parents
    user_ranked f = elim (Bool-cases (str_eq (codes "user") id)) [
      | inl b ↦
          let found : some user_role ≡ some role = rw b at f in
          let same : user_role ≡ role = cc in
          subst (λ (x : Role). All (λ p. rank p < rank id) x.parents) same tt
      | inr b ↦ cc (rw b at f)
    ]

alice_ranked : All (λ id. rank id < 2) alice.roles
unfolding str_eq
alice_ranked = (omega arith, tt)

is_permitted_total_example : (answer : Bool) × (is_permitted roles 2 alice laser_cut ≡ some answer)
is_permitted_total_example = is_permitted_total roles laser_cut rank ranked 2 alice alice_ranked

abbrev alice_all : List PermRule
alice_all = base (codes "admin") ∷ children (codes "laser") ∷ []

is_permitted-collect_permrules_example : true ≡ any_match alice_all laser_cut
is_permitted-collect_permrules_example =
    is_permitted-collect_permrules roles laser_cut 2 2 alice true alice_all alice_cuts alice_rules

-- Two roles that name each other as parents.
abbrev chicken : Role
chicken = record { parents = codes "egg" ∷ []; permissions = [] }

abbrev egg : Role
egg = record { parents = codes "chicken" ∷ []; permissions = base (codes "mill") ∷ [] }

abbrev ring : Roles
ring = (codes "chicken", chicken) ∷ (codes "egg", egg) ∷ []

abbrev bob : UserData
bob = record { roles = codes "egg" ∷ []; passwd = none; kv = [] }

abbrev IsOnRing : Str → Type 0
IsOnRing id = (id ≡ codes "chicken") ⊎ (id ≡ codes "egg")

ring-IsCycle : IsCycle ring laser_cut IsOnRing
unfolding get any_match match_perm str_eq
ring-IsCycle id (inl e) = (chicken, codes "egg", [], rw e, refl, refl, inr refl)
ring-IsCycle id (inr e) = (egg, codes "chicken", [], rw e, refl, refl, inl refl)
