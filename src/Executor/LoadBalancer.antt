-- ===== src/Executor/LoadBalancer.antt =====
-- Statistics of the run queues, runtime/executor/src/load_balancer.rs, on a machine of 64 bits.
pub mod Loads
use fabaccess_server.Prelude.{
  ℕ, zero, suc, ◌+◌, ◌-◌, ◌/◌, ◌^◌, ◌==◌, ltb, leb, Bool, true, false, Option, none, some, List, [],
  ◌∷◌, ◌++◌, if◌then◌else◌, take, drop, length, replicate,
}

abbrev pub usize_max : ℕ
usize_max = 2 ^ 64 - 1

abbrev pub max_core : ℕ
max_core = 256

pub record Stats : Type 0 where
  pub smp_load : List ℕ
  pub mean_level : ℕ
  pub updating_mean : Bool

-- `Stats::new`.
unfoldable pub new : ℕ → Stats
new num_cores = record {
  smp_load = take max_core (replicate num_cores 0) ++ replicate (max_core - num_cores) usize_max;
  mean_level = 0;
  updating_mean = false;
}

abbrev pub store : ℕ → ℕ → List ℕ → List ℕ
store affinity load [] = []
store zero load (x ∷ xs) = load ∷ xs
store (suc affinity) load (x ∷ xs) = x ∷ store affinity load xs

-- `none` is the panic of the index.
unfoldable pub store_load : ℕ → ℕ → Stats → Option Stats
store_load affinity load s =
    if ltb affinity (length s.smp_load)
    then some (record s { smp_load = store affinity load s.smp_load })
    else none

-- The cores in order with their loads, up to the first one that has none.
unfoldable pub loads_from : ℕ → List ℕ → List (ℕ × ℕ)
loads_from core [] = []
loads_from core (load ∷ rest) =
    let more = loads_from (core + 1) rest in if load == usize_max then [] else (core, load) ∷ more

-- `sort_by`, which is stable, from the highest load to the lowest.
unfoldable pub insert : ℕ × ℕ → List (ℕ × ℕ) → List (ℕ × ℕ)
insert x [] = x ∷ []
insert x (y ∷ ys) = let rest = insert x ys in if leb y.1 x.1 then x ∷ y ∷ ys else y ∷ rest

unfoldable pub sort_by_load : List (ℕ × ℕ) → List (ℕ × ℕ)
unfolding insert
sort_by_load [] = []
sort_by_load (x ∷ xs) = insert x (sort_by_load xs)

unfoldable pub get_sorted_load : Stats → List (ℕ × ℕ)
unfolding loads_from sort_by_load
get_sorted_load s = sort_by_load (loads_from 0 s.smp_load)

-- The sum of `update_mean` leaves out what would overflow it.
unfoldable pub sum_loop : ℕ → List ℕ → ℕ
sum_loop sum [] = sum
sum_loop sum (load ∷ rest) = sum_loop (if leb (sum + load) usize_max then sum + load else sum) rest

-- `none` is the panic of a division by zero.
unfoldable pub update_mean : ℕ → Stats → Option Stats
unfolding sum_loop
update_mean num_cores s =
    if s.updating_mean
    then some s
    else if num_cores == 0
    then none
    else some (record s { mean_level = sum_loop 0 (take num_cores s.smp_load) / num_cores })

-- `update_load_mean`, by the clock `now` in milliseconds: `free` tells whether the lock of the time
-- of the last update can be read.
pub record LoadBalancer : Type 0 where
  pub num_cores : ℕ
  pub mean_last_updated_at : ℕ
  pub stats : Stats

unfoldable pub should_update : Bool → ℕ → LoadBalancer → Bool
should_update free now lb = if free then ltb 200 (now - lb.mean_last_updated_at) else false

unfoldable pub update_load_mean : Bool → ℕ → LoadBalancer → Option LoadBalancer
unfolding should_update update_mean
update_load_mean free now lb =
    if should_update free now lb
    then elim (update_mean lb.num_cores lb.stats) [
      | none ↦ none
      | some stats ↦ some (record lb { mean_last_updated_at = now; stats = stats })
    ]
    else some lb
