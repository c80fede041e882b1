-- ===== src/Authorization/Roles/Insert.antt =====
-- The laws of the collected map, and the branches of `tally_role`.
use fabaccess_server.Prelude.{
  ℕ, suc, ◌≡◌, ◌∙◌, refl, sym, ◌⊎◌, inl, inr, false, none, some, [], ◌∷◌, if◌then◌else◌, Bool-cases,
  str_eq, str_eq_sound, Str,
}
use fabaccess_server.Authorization.Roles.{
  Role, Roles, get, contains_key, tally_loop, tally_role, insert, remove, ◌>>=◌,
}

get-remove :
    (id key : Str) (acc : Roles) → str_eq id key ≡ false → get (remove id acc) key ≡ get acc key
unfolding get
get-remove id key [] h = refl
get-remove id key ((k, r) ∷ acc) h = elim (Bool-cases (str_eq k id)) [
  | inl e ↦ rw (e, get-remove id key acc h, str_eq_sound k id e, h)
  | inr e ↦
      rw e
        (elim (Bool-cases (str_eq k key)) [ inl f ↦ rw f | inr f ↦ rw f (get-remove id key acc h) ])
]

pub get-insert :
    (id key : Str) (role : Role) (acc : Roles)
    → get (insert id role acc) key ≡ (if str_eq id key then some role else get acc key)
unfolding insert get
get-insert id key role acc = elim (Bool-cases (str_eq id key)) [
  | inl e ↦ rw e
  | inr e ↦ rw e (get-remove id key acc e)
]

pub insert_cases :
    (id key : Str) (role r : Role) (acc : Roles)
    → get (insert id role acc) key ≡ some r
    → ((id ≡ key) × (role ≡ r)) ⊎ (get acc key ≡ some r)
insert_cases id key role r acc h = elim (Bool-cases (str_eq id key)) [
  | inl e ↦
      let hit : some role ≡ some r = rw e at (sym (get-insert id key role acc) ∙ h) in
      inl (str_eq_sound id key e, cc)
  | inr e ↦ inr (rw e at (sym (get-insert id key role acc) ∙ h))
]

-- The branches of `tally_role`.
pub tally_missing :
    (roles : Roles) (fuel : ℕ) (acc : Roles) (id : Str)
    → get roles id ≡ none
    → tally_role roles (suc fuel) acc id ≡ some acc
unfolding tally_role
tally_missing roles fuel acc id e = rw (e, tally_role)

pub tally_known :
    (roles : Roles) (fuel : ℕ) (acc : Roles) (id : Str) (role : Role)
    → get roles id ≡ some role
    → tally_role roles (suc fuel) acc id ≡ (
        if contains_key acc id
        then some acc
        else (tally_loop (tally_role roles fuel) acc role.parents >>= λ a. some (insert id role a)))
unfolding tally_role
tally_known roles fuel acc id role e = rw (e, tally_role)
