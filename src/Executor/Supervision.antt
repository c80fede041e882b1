-- ===== src/Executor/Supervision.antt =====
-- Groups of processes, runtime/executor/src/supervision.rs, as one thread sees them. A map from
-- indexes stands for the pool; an operation gives `none` where it panics.
pub mod Alive
use fabaccess_server.Prelude.{
  ℕ, ◌+◌, ◌-◌, ◌%◌, ◌^◌, ◌==◌, ltb, not, ◌≡◌, Bool, true, false, Option, none, some, List, [], ◌∷◌,
  if◌then◌else◌,
}
use fabaccess_server.Loading.{or_then}

-- An id as its number.
abbrev pub GroupId : Type 0
GroupId = ℕ

unfoldable pub id_to_idx : GroupId → ℕ
id_to_idx id = (id + (2 ^ 64 - 1)) % 2 ^ 64

-- `from_u64` panics on zero.
unfoldable pub idx_to_id : ℕ → Option GroupId
idx_to_id idx = let id = (idx + 1) % 2 ^ 64 in if id == 0 then none else some id

pub record GroupInner : Type 0 where
  pub parent : Option GroupId
  pub ref_count : ℕ

pub record SupervisionRegistry : Type 0 where
  pub groups : ℕ → Option GroupInner
  pub current : Option GroupId

unfoldable pub new_registry : SupervisionRegistry
new_registry = record { groups = λ idx. none; current = none }

unfoldable pub get : SupervisionRegistry → GroupId → Option GroupInner
get reg id = reg.groups (id_to_idx id)

abbrev pub store : ℕ → GroupInner → SupervisionRegistry → SupervisionRegistry
store idx group reg = record reg { groups = λ j. if j == idx then some group else reg.groups j }

-- A thread's group is set once: `get_or` writes only where there is none.
abbrev pub get_or : Option GroupId → GroupId → SupervisionRegistry → SupervisionRegistry
get_or none id reg = record reg { current = some id }
get_or (some old) id reg = reg

unfoldable pub set_current : GroupId → SupervisionRegistry → SupervisionRegistry
set_current id reg = get_or reg.current id reg

-- The count is raised before the test.
unfoldable pub clone_group : GroupId → SupervisionRegistry → Option (GroupId × SupervisionRegistry)
clone_group id reg = or_then (get reg id) (λ group.
    let grown = record group { ref_count = (group.ref_count + 1) % 2 ^ 64 } in
    if group.ref_count == 0 then none else some (id, store (id_to_idx id) grown reg))

-- `SupervisionRegistry::current`.
abbrev pub clone_of :
    Option GroupId → SupervisionRegistry → Option (Option GroupId × SupervisionRegistry)
clone_of none reg = some (none, reg)
clone_of (some id) reg = or_then (clone_group id reg) (λ cloned. some (some cloned.0, cloned.1))

unfoldable pub clone_current : SupervisionRegistry → Option (Option GroupId × SupervisionRegistry)
clone_current reg = clone_of reg.current reg

-- The debug assertion on the count of a slot before its use is left out.
-- `allocate` is the pool's choice of an index, `none` where it has no room.
module _ (allocate : SupervisionRegistry → Option ℕ) where
  unfoldable pub new_group_inner :
      Option GroupId → SupervisionRegistry → Option (GroupId × SupervisionRegistry)
  new_group_inner parent reg = or_then (allocate reg) (λ idx.
      or_then (idx_to_id idx)
        (λ id. some (id, store idx (record { parent = parent; ref_count = 1 }) reg)))

  unfoldable pub new_root_group : SupervisionRegistry → Option (GroupId × SupervisionRegistry)
  unfolding new_group_inner
  new_root_group reg = new_group_inner none reg

  unfoldable pub new_group : SupervisionRegistry → Option (GroupId × SupervisionRegistry)
  unfolding clone_current new_group_inner
  new_group reg = or_then (clone_current reg) (λ cloned. new_group_inner cloned.0 cloned.1)

-- On a thread that is not panicking.
unfoldable pub try_close : GroupId → SupervisionRegistry → Option (Bool × SupervisionRegistry)
try_close id reg = or_then (get reg id) (λ group.
    let remaining = group.ref_count in
    let fewer = record group { ref_count = (remaining + (2 ^ 64 - 1)) % 2 ^ 64 } in
    if ltb remaining (2 ^ 64 - 1)
    then some (not (ltb 1 remaining), store (id_to_idx id) fewer reg)
    else none)

-- `Clear::clear` of a group, which gives its reference to its parent back.
unfoldable pub clear_group : GroupInner → SupervisionRegistry → Option SupervisionRegistry
unfolding try_close
clear_group group reg = elim group.parent [
  | none ↦ some reg
  | some parent ↦ or_then (try_close parent reg) (λ closed. some closed.1)
]
