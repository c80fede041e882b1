-- ===== src/Api/Machine/Listing.antt =====
-- The list of the machines and the lookup of one agree.
use fabaccess_server.Prelude.{
  ℕ, ◌≡◌, ◌⊎◌, inl, inr, refl, subst, Bool, true, false, some, List, [], ◌∷◌, if◌then◌else◌, Str,
}
use fabaccess_server.Session.{SessionHandle, has_perm}
use fabaccess_server.Resources.Store.{StateDb}
use fabaccess_server.Resources.Search.{get_by_id}
use fabaccess_server.Resources.Operations.{
  Run, ret, panicked, too_deep, ◌>>=◌, and_then, checked, get_state_ref, Resource, visible,
}
use fabaccess_server.Api.Machine.{
  MachineView, Description, usable, build_into, optional_build, get_machine_list, get_machine,
}

>>=-eq_ret :
    {A B : Type 0} (m : Run A) (f : A → Run B) {b : B}
    → (m >>= f) ≡ ret b
    → (a : A) × (m ≡ ret a) × (f a ≡ ret b)
>>=-eq_ret (ret a) f h = (a, refl, h)
>>=-eq_ret panicked f h = cc
>>=-eq_ret too_deep f h = cc

module _ (store : StateDb) (fuel : ℕ) (session : SessionHandle)
    (describe : Resource store → Description) where
  -- The resources under their ids, none under two.
  abbrev pub IsIndexed : List (Str × Resource store) → List (Str × Resource store) → Type 0
  IsIndexed whole [] = Unit {0}
  IsIndexed whole ((key, r) ∷ index) =
      (get_by_id (λ (q : Resource store). q.id) whole r.id ≡ some r) × IsIndexed whole index

  -- One of the views is of this machine.
  abbrev pub Lists : MachineView → List MachineView → Type 0
  Lists view [] = ⊥
  Lists view (v ∷ views) = (view ≡ v) ⊎ Lists view views

  build_into-id :
      (r : Resource store) {view : MachineView}
      → build_into store fuel session describe r ≡ ret view
      → view.id ≡ r.id
  unfolding build_into
  build_into-id r h =
      let offer =
        and_then (checked (has_perm fuel session r.privs.write))
          (ret (usable session.user (get_state_ref store r).state)) in
      let (may, _, h1) = >>=-eq_ret offer _ h in
      let (manage, _, h2) = >>=-eq_ret (checked (has_perm fuel session r.privs.manage)) _ h1 in
      let (read, _, h3) = >>=-eq_ret (checked (has_perm fuel session r.privs.read)) _ h2 in cc

  optional_build-visible :
      (r : Resource store) {view : MachineView}
      → visible store fuel r session ≡ ret true
      → build_into store fuel session describe r ≡ ret view
      → optional_build store fuel session describe r ≡ ret (some view)
  unfolding optional_build
  optional_build-visible r v b = rw (v, b)

  -- In an index that finds each of its machines by id, each machine of the list that
  -- `get_machine_list` answers is the one that `get_machine` answers for its id.
  pub get_machine-get_machine_list :
      (whole index : List (Str × Resource store)) (views : List MachineView) (view : MachineView)
      → IsIndexed whole index
      → get_machine_list store fuel session describe index ≡ ret views
      → Lists view views
      → get_machine store fuel session describe whole view.id ≡ ret (some view)
  unfolding get_machine_list get_machine
  get_machine-get_machine_list whole [] views view i h l =
      let empty : views ≡ [] = cc in absurd (subst (Lists view) empty l)
  get_machine-get_machine_list whole ((key, r) ∷ index) views view (mine, i) h l =
      let (seen, v, h1) = >>=-eq_ret _ _ h in
      let (rest, g, h2) = >>=-eq_ret _ _ h1 in
      listed seen v rest h2 (get_machine-get_machine_list whole index rest view i g)
    where
      listed :
          (seen : Bool)
          → visible store fuel r session ≡ ret seen
          → (rest : List MachineView)
          → (if seen
              then (build_into store fuel session describe r >>= λ made. ret (made ∷ rest))
              else ret rest)
            ≡ ret views
          → (Lists view rest
              → get_machine store fuel session describe whole view.id ≡ ret (some view))
          → get_machine store fuel session describe whole view.id ≡ ret (some view)
      listed false v rest h2 ih = let same : views ≡ rest = cc in ih (subst (Lists view) same l)
      listed true v rest h2 ih =
          let (made, b, h3) = >>=-eq_ret (build_into store fuel session describe r) _ h2 in
          let same : views ≡ made ∷ rest = cc in
          elim (subst (Lists view) same l) [
            | inl e ↦ rw (e, build_into-id r b, mine) (optional_build-visible r v b)
            | inr l' ↦ ih l'
          ]
