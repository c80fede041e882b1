-- ===== src/Api/Machine.antt =====
-- Machines over the API: bffhd/capnp/machine.rs and bffhd/capnp/machinesystem.rs.
pub mod Offers
pub mod Listing
use fabaccess_server.Prelude.{
  ℕ, Bool, true, false, Option, none, some, List, [], ◌∷◌, ◌++◌, if◌then◌else◌, str_eq, Str, codes,
  Result, ok, err,
}
use fabaccess_server.Session.{SessionHandle, has_perm}
use fabaccess_server.Authorization.Roles.{Roles}
use fabaccess_server.Resources.Machine.{UserRef, Status}
use fabaccess_server.Resources.Store.{StateDb}
use fabaccess_server.Resources.Search.{get_by_id, get_by_urn}
use fabaccess_server.Resources.Operations.{
  Run, ret, panicked, too_deep, ◌>>=◌, checked, or_else, and_then, Resource, try_update, give_back,
  force_set, visible, get_state_ref, get_current_user, get_previous_user,
}
use fabaccess_server.Users.Database.{UserDb}
use fabaccess_server.Api.Users.{UserView, build_optional}

-- What the configuration says of a resource.
pub record Description : Type 0 where
  pub name : Str
  pub description : Option Str
  pub wiki : Option Str
  pub category : Option Str

-- `MachineState` of the API.
pub data ApiState : Type 0 where
  free blocked disabled in_use reserved to_check totakeover : ApiState

-- What a client gets of a machine; an interface is there or not.
pub record MachineView : Type 0 where
  pub id : Str
  pub about : Description
  pub urn : Str
  pub offers_use : Bool
  pub offers_manage : Bool
  pub offers_inuse : Bool
  pub shown_state : Option ApiState
  pub offers_info : Bool

-- A method that the server does not have.
pub data Unimplemented : Type 0 where
  unimplemented : Unimplemented

-- The status of a machine in the API.
unfoldable pub api_state : Status → ApiState
api_state Status.free = free
api_state Status.disabled = disabled
api_state (Status.blocked _) = blocked
api_state (Status.in_use _) = in_use
api_state (Status.reserved _) = reserved
api_state (Status.to_check _) = to_check

-- Who may begin to use a machine, as `build_into` reads its status.
unfoldable pub usable : UserRef → Status → Bool
usable user Status.free = true
usable user (Status.reserved reserver) = str_eq reserver user
usable user _ = false

unfoldable pub used_by : UserRef → Status → Bool
used_by user (Status.in_use owner) = str_eq owner user
used_by user _ = false

-- The status that an administrator asks for, with themselves as its user.
unfoldable pub status_of : UserRef → ApiState → Result Unimplemented Status
status_of user free = ok Status.free
status_of user blocked = ok (Status.blocked user)
status_of user disabled = ok Status.disabled
status_of user in_use = ok (Status.in_use user)
status_of user reserved = ok (Status.reserved user)
status_of user to_check = ok (Status.to_check user)
status_of user totakeover = err unimplemented

module _ (store : StateDb) where
  unfoldable pub build_into :
      ℕ → SessionHandle → (Resource store → Description) → Resource store → Run MachineView
  unfolding api_state usable used_by
  build_into fuel session describe r = do
    let user = session.user
    let status = (get_state_ref store r).state
    may_use ← and_then (checked (has_perm fuel session r.privs.write)) (ret (usable user status))
    manage ← checked (has_perm fuel session r.privs.manage)
    read ← checked (has_perm fuel session r.privs.read)
    ret (record {
      id = r.id;
      about = describe r;
      urn = codes "urn:fabaccess:resource:" ++ r.id;
      offers_use = may_use;
      offers_manage = manage;
      offers_inuse = used_by user status;
      shown_state = if read then some (api_state status) else none;
      offers_info = true;
    })

  unfoldable pub optional_build :
      ℕ → SessionHandle → (Resource store → Description) → Resource store → Run (Option MachineView)
  unfolding build_into
  optional_build fuel session describe r = do
    seen ← or_else (visible store fuel r session) (checked (has_perm fuel session r.privs.read))
    if seen then (build_into fuel session describe r >>= λ view. ret (some view)) else ret none

  -- The requests of the interfaces.
  unfoldable pub use_ : ℕ → SessionHandle → Resource store → Run (Resource store)
  use_ fuel session r = try_update store fuel r session (Status.in_use session.user)

  unfoldable pub reserve : ℕ → SessionHandle → Resource store → Run (Resource store)
  reserve fuel session r = try_update store fuel r session (Status.reserved session.user)

  unfoldable pub hand_back : SessionHandle → Resource store → Run (Resource store)
  hand_back session r = give_back store r session

  unfoldable pub force_use : SessionHandle → Resource store → Run (Resource store)
  force_use session r = force_set store r (Status.in_use session.user)

  unfoldable pub force_free : Resource store → Run (Resource store)
  force_free r = force_set store r Status.free

  unfoldable pub block : SessionHandle → Resource store → Run (Resource store)
  block session r = force_set store r (Status.blocked session.user)

  unfoldable pub disable : Resource store → Run (Resource store)
  disable r = force_set store r Status.disabled

  unfoldable pub force_set_state :
      SessionHandle → ApiState → Resource store → Result Unimplemented (Run (Resource store))
  unfolding status_of
  force_set_state session state r = elim (status_of session.user state) [
    | ok status ↦ ok (force_set store r status)
    | err e ↦ err e
    | Result.panic ↦ Result.panic
  ]

  unfoldable pub get_machine_info_extended :
      (lmdb : UserDb)
      → ℕ
      → Roles
      → lmdb.Db
      → Str
      → Resource store
      → Option (Option UserView × Option UserView)
  get_machine_info_extended lmdb fuel roles users me r =
      elim (build_optional lmdb fuel roles users me (get_current_user store r)) [
        | none ↦ none
        | some current ↦
            elim (build_optional lmdb fuel roles users me (get_previous_user store r)) [
              | none ↦ none
              | some previous ↦ some (current, previous)
            ]
      ]

  -- `get_machine_list`: the machines that are visible, in the order of the index.
  unfoldable pub get_machine_list :
      ℕ
      → SessionHandle
      → (Resource store → Description)
      → List (Str × Resource store)
      → Run (List MachineView)
  unfolding build_into
  get_machine_list fuel session describe [] = ret []
  get_machine_list fuel session describe ((key, r) ∷ index) = do
    seen ← visible store fuel r session
    views ← get_machine_list fuel session describe index
    if seen then (build_into fuel session describe r >>= λ view. ret (view ∷ views)) else ret views

  -- `get_machine` and `get_machine_u_r_n`.
  unfoldable pub found :
      ℕ
      → SessionHandle
      → (Resource store → Description)
      → Option (Resource store)
      → Run (Option MachineView)
  unfolding optional_build
  found fuel session describe none = ret none
  found fuel session describe (some r) = optional_build fuel session describe r

  unfoldable pub get_machine :
      ℕ
      → SessionHandle
      → (Resource store → Description)
      → List (Str × Resource store)
      → Str
      → Run (Option MachineView)
  unfolding found
  get_machine fuel session describe index id =
      found fuel session describe (get_by_id (λ (r : Resource store). r.id) index id)

  unfoldable pub get_machine_u_r_n :
      ℕ
      → SessionHandle
      → (Resource store → Description)
      → List (Str × Resource store)
      → Str
      → Run (Option MachineView)
  unfolding found
  get_machine_u_r_n fuel session describe index urn =
      found fuel session describe (get_by_urn (λ (r : Resource store). r.id) index urn)
