-- ===== src/Authorization/Roles/Collect/Reached.antt =====
-- Whatever `tally_role` collects is inherited by the roles that it started from.
use fabaccess_server.Prelude.{
  ℕ, zero, suc, ◌≡◌, refl, sym, subst, inl, inr, true, false, Option, none, some, List, [], ◌∷◌,
  Bool, Any, In, Any-In, All, if◌then◌else◌, Bool-cases, Option-cases, str_eq, Str,
}
use fabaccess_server.Authorization.Roles.{
  Role, Roles, get, contains_key, tally_loop, tally_role, insert, remove, ◌>>=◌,
}
use fabaccess_server.Authorization.Roles.Spec.{Inherits, self, parent}
use fabaccess_server.Authorization.Roles.Insert.{tally_missing, tally_known}

Inherits-parent :
    {roles : Roles} {id r p : Str} (role : Role)
    → Inherits roles id r
    → get roles r ≡ some role
    → In p role.parents
    → Inherits roles id p
Inherits-parent {p} role (self id) g m = parent role g m (self p)
Inherits-parent role (parent above found n inh) g m =
    parent above found n (Inherits-parent role inh g m)

module _ (roles : Roles) (start : List Str) where
  -- Some role of `start` inherits `id`.
  abbrev pub IsReached : Str → Type 0
  IsReached id = Any (λ u. Inherits roles u id) start

  abbrev pub IsSound : Roles → Type 0
  IsSound = All λ e. (get roles e.0 ≡ some e.1) × IsReached e.0

  IsReached-parent :
      (id p : Str) (role : Role)
      → get roles id ≡ some role
      → In p role.parents
      → IsReached id
      → IsReached p
  IsReached-parent id p role g m h = go start h
    where
      go : (us : List Str) → Any (λ u. Inherits roles u id) us → Any (λ u. Inherits roles u p) us
      go [] x = elim x [ ]
      go (u ∷ us) (inl inh) = inl (Inherits-parent role inh g m)
      go (u ∷ us) (inr x) = inr (go us x)

  IsSound-remove : (id : Str) (acc : Roles) → IsSound acc → IsSound (remove id acc)
  IsSound-remove id [] h = tt
  IsSound-remove id ((key, role) ∷ acc) h = elim (Bool-cases (str_eq key id)) [
    | inl e ↦ rw (e, remove) (IsSound-remove id acc h.1)
    | inr e ↦ rw (e, remove) (h.0, IsSound-remove id acc h.1)
  ]

  abbrev SoundResult : Option Roles → Type 0
  SoundResult none = Unit {0}
  SoundResult (some acc) = IsSound acc

  loop_sound :
      (call : Roles → Str → Option Roles)
      → ((a : Roles) (id : Str) → IsReached id → IsSound a → SoundResult (call a id))
      → (ids : List Str) (acc : Roles) → ((p : Str) → In p ids → IsReached p)
      → IsSound acc
      → SoundResult (tally_loop call acc ids)
  unfolding tally_loop
  loop_sound call ok [] acc reached s = s
  loop_sound call ok (id ∷ ids) acc reached s =
      step (call acc id) (ok acc id (reached id (inl refl)) s)
        (λ a. loop_sound call ok ids a (λ p m. reached p (inr m)))
    where
      step :
          (o : Option Roles)
          → SoundResult o
          → ((a : Roles) → IsSound a → SoundResult (tally_loop call a ids))
          → SoundResult (o >>= λ a. tally_loop call a ids)
      step none r rest = tt
      step (some a) r rest = rest a r

  insert_sound :
      (id : Str) (role : Role)
      → get roles id ≡ some role
      → IsReached id
      → (o : Option Roles) → SoundResult o
      → SoundResult (o >>= λ a. some (insert id role a))
  unfolding insert
  insert_sound id role g r none s = tt
  insert_sound id role g r (some a) s = ((g, r), IsSound-remove id a s)

  if_sound :
      (b : Bool) (o p : Option Roles)
      → SoundResult o
      → SoundResult p
      → SoundResult (if b then o else p)
  if_sound true o p s t = s
  if_sound false o p s t = t

  tally_sound :
      (fuel : ℕ) (acc : Roles) (id : Str)
      → IsReached id
      → IsSound acc
      → SoundResult (tally_role roles fuel acc id)
  tally_sound zero acc id r s = unfold tally_role in tt
  tally_sound (suc fuel) acc id r s = elim (Option-cases (get roles id)) [
    | inl missing ↦ subst SoundResult (sym (tally_missing roles fuel acc id missing)) s
    | inr (role, found) ↦
        let reached = λ (p : Str) (m : In p role.parents). IsReached-parent id p role found m r in
        let above =
          loop_sound (tally_role roles fuel) (tally_sound fuel) role.parents acc reached s in
        subst SoundResult (sym (tally_known roles fuel acc id role found))
          (if_sound (contains_key acc id) _ _ s (insert_sound id role found r _ above))
  ]

  pub collected-IsSound :
      (fuel : ℕ) (acc : Roles)
      → tally_loop (tally_role roles fuel) [] start ≡ some acc
      → IsSound acc
  collected-IsSound fuel acc e =
      rw e at (loop_sound (tally_role roles fuel) (tally_sound fuel) start [] from_start tt)
    where
      from_start : (p : Str) → In p start → IsReached p
      from_start p m = Any-In (λ u. Inherits roles u p) start m (self p)
