-- ===== src/Examples/Resources.antt =====
-- A mill and who may use it, bffhd/resources/mod.rs, on a state database that is a function.
use fabaccess_server.Prelude.{
  ℕ, zero, suc, ◌≤◌, Bool, arith, ◌≡◌, refl, ◌⊎◌, true, false, Option, none, some, List, [], ◌∷◌,
  ◌++◌, inl, ok, if◌then◌else◌, str_eq, str_eq_refl, Str, codes,
}
use fabaccess_server.Authorization.Permissions.{match_perm, base}
use fabaccess_server.Authorization.Roles.{
  Roles, get, any_match, contains, permitted_loop, permitted_tally, is_permitted,
}
use fabaccess_server.Session.{Users, SessionHandle, has_perm}
use fabaccess_server.Resources.Machine.{Status, free, in_use, MachineState, free_state}
use fabaccess_server.Resources.Search.{get_by_id}
use fabaccess_server.Api.Machine.{
  ApiState, MachineView, Description, build_into, use_, hand_back, force_set_state, get_machine,
  get_machine_list,
}
use fabaccess_server.Api.Machine.Offers.{used, build_into-offers, build_into-force_set_state}
use fabaccess_server.Api.Machine.Listing.{get_machine-get_machine_list}
use fabaccess_server.Resources.Store.{StateDb}
use fabaccess_server.Resources.Operations.{
  PrivilegesBuf, ret, Resource, set_state, try_update, visible, is_owned_by, get_state,
}
use fabaccess_server.Resources.Operations.Consistency.{
  Request, updates, gives_back, forces, serve_all, KeepsRun, serve_all-KeepsRun,
}
use fabaccess_server.Initiators.Dummy.{Dummy, empty, poll}
use fabaccess_server.Initiators.Dummy.Flips.{IsTame, poll-IsTame}
use fabaccess_server.Resources.Operations.Update.{IsAuthorised, try_update_decides}

abbrev memory : StateDb
memory = record {
  Db = Str → Option MachineState;
  get = λ db id. db id;
  put = λ db id s other. if str_eq id other then some s else db other;
  get-put = λ db id s. rw (str_eq_refl id);
  get-put_other = λ db id other s h. rw h;
}

abbrev privs : PrivilegesBuf
privs = record {
  disclose = codes "see";
  read = codes "read";
  write = codes "write";
  manage = codes "manage";
}

abbrev mill_state : Status → MachineState
mill_state status = record { state = status; previous = none }

abbrev mill : Status → Resource memory
mill status = record {
  id = codes "mill";
  privs = privs;
  db = λ id. some (mill_state status);
  signal = mill_state status;
  audit = [];
}

-- A user with the write permission.
abbrev roles : Roles
roles = (codes "user", record { parents = []; permissions = base (codes "write") ∷ [] }) ∷ []

abbrev users : Users
users id =
    some
      (record { id = id; userdata = record { roles = codes "user" ∷ []; passwd = none; kv = [] } })

abbrev alice : SessionHandle
alice = record { users = users; roles = roles; user = codes "alice" }

may_not_manage : has_perm 1 alice (codes "manage") ≡ some false
unfolding has_perm is_permitted permitted_loop permitted_tally get contains any_match match_perm
    str_eq
may_not_manage = refl

may_write : has_perm 1 alice (codes "write") ≡ some true
unfolding has_perm is_permitted permitted_loop permitted_tally get contains any_match match_perm
    str_eq
may_write = refl

abbrev alices : Status
alices = in_use (codes "alice")

abbrev bobs : Status
bobs = in_use (codes "bob")

try_update_decides_example :
    (IsAuthorised false true (codes "alice") free alices
      × (try_update memory 1 (mill free) alice alices
          ≡ ret (set_state memory (mill free) (mill_state alices))))
    ⊎ ((¬ IsAuthorised false true (codes "alice") free alices)
        × (try_update memory 1 (mill free) alice alices ≡ ret (mill free)))
try_update_decides_example =
    try_update_decides memory 1 (mill free) alice refl false true alices may_not_manage may_write

abbrev day : List Request
day = updates alice alices ∷ forces bobs ∷ gives_back alice ∷ []

serve_all-KeepsRun_example : KeepsRun memory (mill free) (serve_all memory 1 (mill free) day)
serve_all-KeepsRun_example = serve_all-KeepsRun memory 1 (mill free) day refl

may_not_read : has_perm 1 alice (codes "read") ≡ some false
unfolding has_perm is_permitted permitted_loop permitted_tally get contains any_match match_perm
    str_eq
may_not_read = refl

abbrev about : Resource memory → Description
about r = record { name = r.id; description = none; wiki = none; category = none }

build_into-offers_example :
    (view : MachineView) × (build_into memory 1 alice about (mill free) ≡ ret view)
    × (((view.offers_use ≡ true)
          × (use_ memory 1 alice (mill free) ≡ ret (used memory 1 alice about (mill free))))
        ⊎ ((view.offers_use ≡ false)
            × ((false ≡ true) ⊎ (use_ memory 1 alice (mill free) ≡ ret (mill free)))))
    × (((view.offers_inuse ≡ true)
          × (hand_back memory alice (mill free)
              ≡ ret (set_state memory (mill free) (free_state (some (codes "alice"))))))
        ⊎ ((view.offers_inuse ≡ false) × (hand_back memory alice (mill free) ≡ ret (mill free))))
build_into-offers_example =
    build_into-offers memory 1 alice about (mill free) refl false true false may_not_manage
      may_write may_not_read

build_into-force_set_state_example :
    (r' : Resource memory) × (view : MachineView) × (force_set_state memory alice ApiState.blocked
        (mill free)
      ≡ ok (ret r'))
    × (build_into memory 1 alice about r' ≡ ret view)
    × (view.shown_state ≡ (if false then some ApiState.blocked else none))
build_into-force_set_state_example =
    build_into-force_set_state memory 1 alice about (mill free) ApiState.blocked false true false
      refl (λ e. cc) may_not_manage may_write may_not_read

abbrev one_mill : List (Str × Resource memory)
one_mill = (codes "mill", mill alices) ∷ []

-- What Alice, who uses the mill, sees of it.
abbrev used_view : MachineView
used_view = record {
  id = codes "mill";
  about = about (mill alices);
  urn = codes "urn:fabaccess:resource:" ++ codes "mill";
  offers_use = false;
  offers_manage = false;
  offers_inuse = true;
  shown_state = none;
  offers_info = true;
}

get_machine-get_machine_list_example :
    get_machine memory 1 alice about one_mill (codes "mill") ≡ ret (some used_view)
unfolding get_machine_list has_perm is_permitted permitted_loop permitted_tally get contains
    any_match match_perm str_eq get_by_id visible is_owned_by get_state
get_machine-get_machine_list_example =
    get_machine-get_machine_list memory 1 alice about one_mill one_mill (used_view ∷ []) used_view
      (refl, tt) refl (inl refl)

-- A dummy initiator of Alice, whose timer is ready once.
abbrev dummy : Dummy memory
dummy = record { resource = mill free; session = alice; state = empty }

abbrev once : ℕ → Bool
once zero = false
once (suc zero) = true
once (suc (suc n)) = false

dummy-IsTame : IsTame memory 1 false true dummy
dummy-IsTame = record {
  consistent = refl;
  manages = may_not_manage;
  writes = may_write;
  own = inl refl;
  has_next = tt;
}

once_over : (n : ℕ) → 2 ≤ n → once n ≡ false
once_over zero h = refl
once_over (suc zero) h = absurd (omega arith)
once_over (suc (suc n)) h = refl

poll-IsTame_example :
    (d : Dummy memory) × (poll memory 1 6 once 0 dummy ≡ some (ret d))
    × IsTame memory 1 false true d
poll-IsTame_example =
    poll-IsTame memory 1 false true 6 2 once dummy dummy-IsTame once_over (omega arith)
