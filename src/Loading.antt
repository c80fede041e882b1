-- ===== src/Loading.antt =====
-- Which modules of the configuration are started: the maps and loops of `load` in bffhd/actors/mod.rs
-- and bffhd/initiators/mod.rs.
pub mod Started
use fabaccess_server.Prelude.{Option, none, some, List, [], ◌∷◌, Str, lookup, erase}

abbrev pub or_then : {A B : Type 0} → Option A → (A → Option B) → Option B
or_then none f = none
or_then (some a) f = f a

abbrev pub cons_found : {A : Type 0} → Str → Option A → List (Str × A) → List (Str × A)
cons_found name none rest = rest
cons_found name (some a) rest = (name, a) ∷ rest

-- Resources, the modules of a configuration and what is started of them.
module _ {R M D : Type 0} (get_by_id : Str → Option R) (load_single : Str → M → R → Option D) where
  -- `actor_map` and `initiator_map`: connections to a resource that is not there are left out.
  unfoldable pub connect : List (Str × Str) → List (Str × R)
  connect [] = []
  connect ((name, id) ∷ connections) = cons_found name (get_by_id id) (connect connections)

  -- The loop over the configured modules; each takes its resource out of the map.
  unfoldable pub load_loop : List (Str × R) → List (Str × M) → List (Str × D)
  load_loop resources [] = []
  load_loop resources ((name, config) ∷ configs) = elim (lookup resources name) [
    | none ↦ load_loop resources configs
    | some r ↦
        cons_found name (load_single name config r) (load_loop (erase name resources) configs)
  ]

  unfoldable pub load : List (Str × Str) → List (Str × M) → List (Str × D)
  unfolding connect load_loop
  load connections configs = load_loop (connect connections) configs
