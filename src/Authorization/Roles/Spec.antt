-- ===== src/Authorization/Roles/Spec.antt =====
-- Which roles a role inherits and what they grant, apart from the traversal.
use fabaccess_server.Prelude.{
  ◌≡◌, ◌↔◌, ◌⊎◌, inl, inr, true, some, List, [], ◌∷◌, Any, In, Any-In, Any-find, Bool-cases, Str,
  arith,
}
use fabaccess_server.Authorization.Permissions.{Permission, PermRule, match_perm}
use fabaccess_server.Authorization.Permissions.Order.{Grants, match_perm_iff}
use fabaccess_server.Authorization.Roles.{Role, Roles, get, any_match}
use mathlib.Core.Bool.{false≢true}

-- A role inherits itself and what its parents inherit.
pub data Inherits (roles : Roles) : Str → Str → Type 0 where
  self : (id : Str) → Inherits roles id id
  parent :
      {id p r : Str} (role : Role)
      → get roles id ≡ some role
      → In p role.parents
      → Inherits roles p r
      → Inherits roles id r

abbrev pub Allows : Permission → List PermRule → Type 0
Allows perm = Any (λ rule. Grants rule perm)

-- Some role that `id` inherits is defined and has a rule that grants the permission.
abbrev pub Permits : Roles → Permission → Str → Type 0
Permits roles perm id =
    (r : Str) × (role : Role) × Inherits roles id r
    × (get roles r ≡ some role)
    × Allows perm role.permissions

any_match_sound :
    (rules : List PermRule) (perm : Permission) → any_match rules perm ≡ true → Allows perm rules
unfolding any_match
any_match_sound [] perm h = absurd (false≢true h)
any_match_sound (rule ∷ rules) perm h = elim (Bool-cases (match_perm rule perm)) [
  | inl e ↦ inl ((match_perm_iff rule perm).0 e)
  | inr e ↦ inr (any_match_sound rules perm (rw e at h))
]

any_match_complete :
    (rules : List PermRule) (perm : Permission) → Allows perm rules → any_match rules perm ≡ true
unfolding any_match
any_match_complete [] perm h = elim h [ ]
any_match_complete (rule ∷ rules) perm (inl g) = rw ((match_perm_iff rule perm).1 g)
any_match_complete (rule ∷ rules) perm (inr h) =
    let rest = any_match_complete rules perm h in ground arith

pub any_match_iff :
    (rules : List PermRule) (perm : Permission) → (any_match rules perm ≡ true) ↔ Allows perm rules
any_match_iff rules perm = (any_match_sound rules perm, any_match_complete rules perm)

-- What is permitted is granted by the role itself or by a parent.
pub Permits-split :
    {roles : Roles} {perm : Permission} {id : Str}
    → Permits roles perm id
    → (role : Role) × (get roles id ≡ some role)
      × (Allows perm role.permissions ⊎ Any (Permits roles perm) role.parents)
Permits-split (r, role, self _, g, a) = (role, g, inl a)
Permits-split {roles} {perm} (r, role, parent {p} above found p_in inh, g, a) =
    (above, found, inr (Any-In (Permits roles perm) above.parents p_in (r, role, inh, g, a)))

pub Permits-own :
    {roles : Roles} {perm : Permission} {id : Str} (role : Role)
    → get roles id ≡ some role
    → Allows perm role.permissions
    → Permits roles perm id
Permits-own {id} role g a = (id, role, self id, g, a)

pub Permits-parent :
    {roles : Roles} {perm : Permission} {id : Str} (role : Role)
    → get roles id ≡ some role
    → Any (Permits roles perm) role.parents
    → Permits roles perm id
Permits-parent {roles} {perm} role g above =
    let (p, p_in, (r, granting, inh, found, a)) =
      Any-find (Permits roles perm) role.parents above in
    (r, granting, parent role g p_in inh, found, a)
