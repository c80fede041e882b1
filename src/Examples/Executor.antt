-- ===== src/Examples/Executor.antt =====
-- Three cores and their loads, runtime/executor/src/load_balancer.rs.
use mathlib.Core.List.{Perm}
use fabaccess_server.Prelude.{refl, false, List, [], ◌∷◌, ◌++◌, replicate, ℕ, arith}
use fabaccess_server.Executor.LoadBalancer.{usize_max, Stats, get_sorted_load}
use fabaccess_server.Executor.LoadBalancer.Loads.{
  IsDescending, enumerate, IsLoads, get_sorted_load_lem,
}

abbrev loads : List ℕ
loads = 3 ∷ 5 ∷ 3 ∷ []

abbrev stats : Stats
stats = record {
  smp_load = loads ++ replicate 253 usize_max;
  mean_level = 0;
  updating_mean = false;
}

loads-IsLoads : IsLoads loads
loads-IsLoads = (λ e. omega arith, (λ e. omega arith, (λ e. omega arith, tt)))

get_sorted_load_lem_example :
    Perm (get_sorted_load stats) (enumerate 0 loads) × IsDescending (get_sorted_load stats)
get_sorted_load_lem_example = get_sorted_load_lem stats loads 253 refl loads-IsLoads
