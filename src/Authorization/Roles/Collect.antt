-- ===== src/Authorization/Roles/Collect.antt =====
-- `collect_permrules` gathers the rules of exactly the inherited roles.
mod Closed
mod Reached
use fabaccess_server.Prelude.{
  ℕ, ◌≡◌, refl, sym, subst, ◌↔◌, ◌⊎◌, inl, inr, Bool, true, Option, none, some, List, [], ◌∷◌, ◌++◌,
  Any, In, Any-In, Any-find, Bool-cases, Bool_ext, str_eq, Str,
}
use fabaccess_server.Authorization.Permissions.{Permission, PermRule}
use fabaccess_server.Users.{UserData}
use fabaccess_server.Authorization.Roles.{
  Role, Roles, get, any_match, is_permitted, tally_loop, tally_role, rules_of, collect_permrules,
  ◌>>=◌,
}
use fabaccess_server.Authorization.Roles.Spec.{Inherits, Allows, Permits, any_match_iff}
use fabaccess_server.Authorization.Roles.Permitted.{is_permitted_iff}
use Closed.{collected}
use Reached.{IsSound, collected-IsSound}

Any-append_left : {A : Type 0} (P : A → Type 0) (xs ys : List A) → Any P xs → Any P (xs ++ ys)
Any-append_left P [] ys h = elim h [ ]
Any-append_left P (x ∷ xs) ys (inl p) = inl p
Any-append_left P (x ∷ xs) ys (inr h) = inr (Any-append_left P xs ys h)

Any-append_right : {A : Type 0} (P : A → Type 0) (xs ys : List A) → Any P ys → Any P (xs ++ ys)
Any-append_right P [] ys h = h
Any-append_right P (x ∷ xs) ys h = inr (Any-append_right P xs ys h)

Any-append_split :
    {A : Type 0} (P : A → Type 0) (xs ys : List A) → Any P (xs ++ ys) → Any P xs ⊎ Any P ys
Any-append_split P [] ys h = inr h
Any-append_split P (x ∷ xs) ys (inl p) = inl (inl p)
Any-append_split P (x ∷ xs) ys (inr h) = elim (Any-append_split P xs ys h) [
  | inl a ↦ inl (inr a)
  | inr b ↦ inr b
]

get-rules_of :
    (perm : Permission) (acc : Roles) (r : Str) (role : Role)
    → get acc r ≡ some role
    → Allows perm role.permissions
    → Allows perm (rules_of acc)
unfolding get rules_of
get-rules_of perm [] r role e a = cc
get-rules_of perm ((key, own) ∷ acc) r role e a = elim (Bool-cases (str_eq key r)) [
  | inl q ↦
      let same : some own ≡ some role = rw q at e in
      let owned : role ≡ own = cc in
      Any-append_left _ own.permissions (rules_of acc)
        (subst (λ (x : Role). Allows perm x.permissions) owned a)
  | inr q ↦
      Any-append_right _ own.permissions (rules_of acc) (get-rules_of perm acc r role (rw q at e) a)
]

module _ (roles : Roles) (perm : Permission) where
  IsSound-Permits :
      (start : List Str) (acc : Roles)
      → IsSound roles start acc
      → Allows perm (rules_of acc)
      → Any (Permits roles perm) start
  unfolding rules_of
  IsSound-Permits start [] s a = elim a [ ]
  IsSound-Permits start ((key, role) ∷ acc) s a =
      elim (Any-append_split _ role.permissions (rules_of acc) a) [
        | inl own ↦ granting own start s.0.1
        | inr rest ↦ IsSound-Permits start acc s.1 rest
      ]
    where
      granting :
          Allows perm role.permissions
          → (us : List Str) → Any (λ u. Inherits roles u key) us
          → Any (Permits roles perm) us
      granting own [] x = elim x [ ]
      granting own (u ∷ us) (inl inh) = inl (key, role, inh, s.0.0, own)
      granting own (u ∷ us) (inr x) = inr (granting own us x)

  -- When `collect_permrules` answers on its fuel, one of its rules grants a permission exactly
  -- if one of the user's roles inherits a defined role with a rule that grants it.
  pub collect_permrules_iff :
      (fuel : ℕ) (user : UserData) (rules : List PermRule)
      → collect_permrules roles fuel user ≡ some rules
      → Allows perm rules ↔ Any (Permits roles perm) user.roles
  unfolding collect_permrules
  collect_permrules_iff fuel user rules h =
      split (tally_loop (tally_role roles fuel) [] user.roles) refl h
    where
      split :
          (o : Option Roles)
          → tally_loop (tally_role roles fuel) [] user.roles ≡ o
          → (o >>= λ acc. some (rules_of acc)) ≡ some rules
          → Allows perm rules ↔ Any (Permits roles perm) user.roles
      split none e q = cc
      split (some acc) e q =
          let same : rules_of acc ≡ rules = cc in
          (
            λ a.
                IsSound-Permits user.roles acc (collected-IsSound roles user.roles fuel acc e)
                  (rw (← same) at a),
            λ p.
                let (id, m, (r, role, inh, g, a)) = Any-find (Permits roles perm) user.roles p in
                rw (← same) (
                  get-rules_of perm acc r role
                    (collected roles fuel user.roles acc e id r role m inh g) a),
          )

  -- When `is_permitted` answers on its fuel and `collect_permrules` on its own, the answer is
  -- whether one of the collected rules matches the permission.
  pub is_permitted-collect_permrules :
      (fuel depth : ℕ) (user : UserData) (answer : Bool) (rules : List PermRule)
      → is_permitted roles fuel user perm ≡ some answer
      → collect_permrules roles depth user ≡ some rules
      → answer ≡ any_match rules perm
  is_permitted-collect_permrules fuel depth user answer rules p c =
      let (to, back) = is_permitted_iff roles perm fuel user answer p in
      let (allow, collect) = collect_permrules_iff depth user rules c in
      let (sound, complete) = any_match_iff rules perm in
      Bool_ext answer (any_match rules perm) (λ t. complete (collect (to t)))
        (λ t. back (allow (sound t)))
