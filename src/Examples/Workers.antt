-- ===== src/Examples/Workers.antt =====
-- A worker with four tasks, runtime/executor/src/worker.rs.
use fabaccess_server.Prelude.{
  ℕ, ◌+◌, ◌≤◌, ◌≡◌, ◌↔◌, refl, ◌==◌, if◌then◌else◌, Bool, true, false, [], ◌∷◌, arith,
}
use fabaccess_server.Executor.Worker.{
  Deque, WorkerThread, Effects, overflow, parked, steal_global, run_inner,
}
use fabaccess_server.Executor.Worker.Search.{IsIdle}
use fabaccess_server.Executor.Worker.Runs.{IsBalanced, run_inner_lem}
use fabaccess_server.Executor.Worker.Parks.{run_inner_parks}
use fabaccess_server.Executor.Worker.Backoff.{steal_global-overflow_iff}

abbrev quiet_deque : Deque
quiet_deque = record { contended = λ n. false; batch = λ n. 1 }

abbrev busy_deque : Deque
busy_deque = record { contended = λ n. true; batch = λ n. 1 }

-- Task 1 schedules task 5 on its thread.
abbrev spawns : Effects ℕ
spawns = record { to_local = λ task. if task == 1 then 5 ∷ [] else []; to_global = λ task. [] }

abbrev spawns_none : Effects ℕ
spawns_none = record { to_local = λ task. []; to_global = λ task. [] }

abbrev worker : WorkerThread ℕ
worker = record {
  task_queue = 1 ∷ 2 ∷ [];
  tasks = 3 ∷ [];
  local_tasks = [];
  fences = [] ∷ (4 ∷ []) ∷ [];
  steals = 0;
  ran = [];
  spawned = [];
}

abbrev idle_worker : WorkerThread ℕ
idle_worker = record {
  task_queue = [];
  tasks = [];
  local_tasks = [];
  fences = [] ∷ [] ∷ [];
  steals = 5;
  ran = 4 ∷ 2 ∷ 5 ∷ 1 ∷ 3 ∷ [];
  spawned = 5 ∷ [];
}

worker_parks : run_inner ℕ quiet_deque spawns 9 worker ≡ parked idle_worker
unfolding run_inner
worker_parks = refl

run_inner_lem_example :
    IsIdle idle_worker × IsBalanced quiet_deque spawns (λ task. task == 5) worker idle_worker
run_inner_lem_example =
    run_inner_lem quiet_deque spawns (λ task. task == 5) 9 worker idle_worker worker_parks

run_inner_parks_example :
    (w' : WorkerThread ℕ) × (run_inner ℕ quiet_deque spawns_none 9 worker ≡ parked w')
    × IsIdle w'
    × ((p : ℕ → Bool) → IsBalanced quiet_deque spawns_none p worker w')
run_inner_parks_example =
    run_inner_parks quiet_deque (λ n. refl) spawns_none (λ task. refl) (λ task. refl) 9 worker
      (omega arith)

steal_global-overflow_iff_example :
    (steal_global ℕ busy_deque 5 0 worker ≡ overflow)
    ↔ ((n : ℕ) → n ≤ 4 → busy_deque.contended (worker.steals + n) ≡ true)
steal_global-overflow_iff_example = steal_global-overflow_iff busy_deque 5 worker (omega arith)
