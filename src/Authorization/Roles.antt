-- ===== src/Authorization/Roles.antt =====
-- Roles and what they permit: bffhd/authorization/roles.rs.
-- The recursion over parents takes fuel: `none` is a call deeper than the fuel, which in the
-- program is one more frame on the stack.
pub mod Spec
pub mod Permitted
pub mod Insert
pub mod Collect
pub mod Depth
use fabaccess_server.Prelude.{
  ℕ, zero, suc, Bool, true, false, Option, none, some, List, [], ◌∷◌, ◌++◌, ◌||◌, if◌then◌else◌,
  str_eq, Str,
}
use fabaccess_server.Users.{UserData}
use fabaccess_server.Authorization.Permissions.{Permission, PermRule, match_perm}

pub record Role : Type 0 where
  pub parents : List Str
  pub permissions : List PermRule

-- `HashMap<String, Role>`; the first entry of a key counts.
abbrev pub Roles : Type 0
Roles = List (Str × Role)

unfoldable pub get : Roles → Str → Option Role
get [] id = none
get ((key, role) ∷ roles) id = if str_eq key id then some role else get roles id

infixl 5 ◌>>=◌
abbrev pub ◌>>=◌ : {A B : Type 0} → Option A → (A → Option B) → Option B
none >>= f = none
some a >>= f = f a

-- The set of role names that were looked at.
abbrev pub Seen : Type 0
Seen = List Str

unfoldable pub contains : Seen → Str → Bool
contains [] id = false
contains (key ∷ seen) id = str_eq key id || contains seen id

-- The loop over a role's rules, with its early return.
unfoldable pub any_match : List PermRule → Permission → Bool
any_match [] perm = false
any_match (rule ∷ rules) perm = if match_perm rule perm then true else any_match rules perm

-- The loop over role names that stops at the first one that permits; `call` is the recursive call.
unfoldable pub permitted_loop :
    (Seen → Str → Option (Bool × Seen)) → Seen → List Str → Option (Bool × Seen)
permitted_loop call seen [] = some (false, seen)
permitted_loop call seen (id ∷ ids) = do
  (granted, seen') ← call seen id
  if granted then some (true, seen') else permitted_loop call seen' ids

-- After the parents, the role itself is marked as seen.
abbrev mark : Str → Option (Bool × Seen) → Option (Bool × Seen)
mark id none = none
mark id (some (true, seen)) = some (true, seen)
mark id (some (false, seen)) = some (false, id ∷ seen)

unfoldable pub permitted_tally : Roles → Permission → ℕ → Seen → Str → Option (Bool × Seen)
permitted_tally roles perm zero seen id = none
permitted_tally roles perm (suc fuel) seen id =
    let parents =
      λ (role : Role). permitted_loop (permitted_tally roles perm fuel) seen role.parents in
    elim (get roles id) [
      | none ↦ some (false, seen)
      | some role ↦
          if contains seen id
          then some (false, seen)
          else if any_match role.permissions perm
          then some (true, seen)
          else mark id (parents role)
    ]

unfoldable pub is_permitted : Roles → ℕ → UserData → Permission → Option Bool
is_permitted roles fuel user perm = do
  (granted, _) ← permitted_loop (permitted_tally roles perm fuel) [] user.roles
  some granted

-- The roles collected so far, `HashMap<String, Role>`.
abbrev pub contains_key : Roles → Str → Bool
contains_key acc id = elim (get acc id) [ none ↦ false | some _ ↦ true ]

abbrev pub remove : Str → Roles → Roles
remove id [] = []
remove id ((key, role) ∷ acc) = if str_eq key id then remove id acc else (key, role) ∷ remove id acc

unfoldable pub insert : Str → Role → Roles → Roles
insert id role acc = (id, role) ∷ remove id acc

unfoldable pub tally_loop : (Roles → Str → Option Roles) → Roles → List Str → Option Roles
tally_loop call acc [] = some acc
tally_loop call acc (id ∷ ids) = do acc' ← call acc id; tally_loop call acc' ids

unfoldable pub tally_role : Roles → ℕ → Roles → Str → Option Roles
tally_role roles zero acc id = none
tally_role roles (suc fuel) acc id =
    let parents = λ (role : Role). tally_loop (tally_role roles fuel) acc role.parents in
    elim (get roles id) [
      | none ↦ some acc
      | some role ↦
          if contains_key acc id
          then some acc
          else (parents role >>= λ acc'. some (insert id role acc'))
    ]

-- The rules of all collected roles. The source leaves their order to the hash map.
unfoldable pub rules_of : Roles → List PermRule
rules_of [] = []
rules_of ((_, role) ∷ acc) = role.permissions ++ rules_of acc

unfoldable pub collect_permrules : Roles → ℕ → UserData → Option (List PermRule)
collect_permrules roles fuel user = do
  acc ← tally_loop (tally_role roles fuel) [] user.roles
  some (rules_of acc)
