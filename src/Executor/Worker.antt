-- ===== src/Executor/Worker.antt =====
-- A worker thread of the executor, runtime/executor/src/worker.rs. Queues are lists with the next
-- task first; `crossbeam` says when a steal must be tried again and how many tasks move with it.
pub mod Fences
pub mod Queues
pub mod Search
pub mod Runs
pub mod Backoff
pub mod Parks
use fabaccess_server.Prelude.{
  ℕ, zero, suc, ◌+◌, ◌^◌, leb, Bool, true, false, Option, none, some, List, [], ◌∷◌, ◌++◌,
  if◌then◌else◌, take, drop, length, set,
}

-- `crossbeam_deque`: whether steal number `n` meets another one and must be tried again, and how
-- many tasks it moves besides the one that it takes.
pub record Deque : Type 0 where
  pub contended : ℕ → Bool
  pub batch : ℕ → ℕ

-- `spin_loop` is called 1 << i times, and each time raises i.
abbrev pub backoff : ℕ → ℕ
backoff i = i + 2 ^ i

module _ (Task : Type 0) where
  -- A worker with the queues that it takes from; `fences` are those of the other workers. `steals`
  -- counts the steals, `ran` lists the tasks that ran, the latest first, and `spawned` those that
  -- they spawned.
  pub record WorkerThread : Type 0 where
    pub task_queue : List Task
    pub tasks : List Task
    pub local_tasks : List Task
    pub fences : List (List Task)
    pub steals : ℕ
    pub ran : List Task
    pub spawned : List Task

  -- What a task does when it runs: tasks that it schedules on this thread, and on the executor.
  pub record Effects : Type 0 where
    pub to_local : Task → List Task
    pub to_global : Task → List Task

  unfoldable pub schedule_local : Task → WorkerThread → WorkerThread
  schedule_local task w = record w { local_tasks = w.local_tasks ++ task ∷ [] }

  unfoldable pub run : Effects → Task → WorkerThread → WorkerThread
  run effects task w = record w {
    local_tasks = w.local_tasks ++ effects.to_local task;
    task_queue = w.task_queue ++ effects.to_global task;
    ran = task ∷ w.ran;
    spawned = (effects.to_local task ++ effects.to_global task) ++ w.spawned;
  }

  -- `Steal`, with the worker after it.
  pub data Steal : Type 0 where
    success : Task → WorkerThread → Steal
    empty retry : WorkerThread → Steal

  -- Why a loop of steals ended; `overflow` is the panic of a shift by more than 31 places.
  pub data Found : Type 0 where
    found : Task → WorkerThread → Found
    nothing : WorkerThread → Found
    overflow out_of_fuel : Found

  -- A steal that meets no other one: `put_back` stores what it leaves of the queue.
  unfoldable pub pop_batch :
      ℕ → List Task → (List Task → WorkerThread → WorkerThread) → WorkerThread → Steal
  pop_batch n [] put_back w = empty w
  pop_batch n (task ∷ rest) put_back w =
      success task (put_back (drop n rest) (record w { tasks = w.tasks ++ take n rest }))

  unfoldable pub steal_batch_and_pop :
      Deque → List Task → (List Task → WorkerThread → WorkerThread) → WorkerThread → Steal
  unfolding pop_batch
  steal_batch_and_pop deque queue put_back w =
      let next = record w { steals = w.steals + 1 } in
      if deque.contended w.steals
      then retry next
      else pop_batch (deque.batch w.steals) queue put_back next

  unfoldable pub steal_global : Deque → ℕ → ℕ → WorkerThread → Found
  unfolding steal_batch_and_pop
  steal_global deque zero i w = out_of_fuel
  steal_global deque (suc fuel) i w =
      elim (steal_batch_and_pop deque w.task_queue (λ rest w'. record w' { task_queue = rest }) w) [
        | success task w' ↦ found task w'
        | empty w' ↦ nothing w'
        | retry w' ↦ elim (leb 32 i) [
          | true ↦ overflow
          | false ↦ steal_global deque fuel (backoff i) w'
        ]
      ]

  abbrev pub fence_at : ℕ → List (List Task) → List Task
  fence_at i [] = []
  fence_at zero (fence ∷ fences) = fence
  fence_at (suc i) (fence ∷ fences) = fence_at i fences

  -- `max_by_key` gives the last one of the longest.
  unfoldable pub select_fence : List (List Task) → Option ℕ
  select_fence [] = none
  select_fence (fence ∷ fences) = elim (select_fence fences) [
    | none ↦ some 0
    | some j ↦ if leb (length fence) (length (fence_at j fences)) then some (suc j) else some 0
  ]

  unfoldable pub steal_fences : Deque → ℕ → WorkerThread → Found
  unfolding select_fence steal_batch_and_pop
  steal_fences deque zero w = out_of_fuel
  steal_fences deque (suc fuel) w = elim (select_fence w.fences) [
    | none ↦ nothing w
    | some j ↦
        elim (steal_batch_and_pop deque (fence_at j w.fences)
          (λ rest w'. record w' { fences = set w'.fences j rest }) w) [
            | success task w' ↦ found task w'
            | empty w' ↦ nothing w'
            | retry w' ↦ steal_fences deque fuel w'
          ]
  ]

  -- The global queue first, and then the worker with the most tasks.
  unfoldable pub steal_task : Deque → ℕ → WorkerThread → Found
  unfolding steal_global steal_fences
  steal_task deque fuel w = elim (steal_global deque fuel 0 w) [
    | nothing w' ↦ steal_fences deque fuel w'
    | found task w' ↦ found task w'
    | overflow ↦ overflow
    | out_of_fuel ↦ out_of_fuel
  ]

  -- The queues from which a task is taken, in their order.
  unfoldable pub next_task : Deque → ℕ → WorkerThread → Found
  unfolding steal_task
  next_task deque fuel w = elim w.local_tasks [
    | task ∷ rest ↦ found task (record w { local_tasks = rest })
    | [] ↦ elim w.tasks [
      | task ∷ rest ↦ found task (record w { tasks = rest })
      | [] ↦ steal_task deque fuel w
    ]
  ]

  -- How `run_inner` ends.
  pub data Ended : Type 0 where
    parked : WorkerThread → Ended
    panicked exhausted : Ended

  unfoldable pub run_inner : Deque → Effects → ℕ → WorkerThread → Ended
  unfolding run next_task
  run_inner deque effects zero w = exhausted
  run_inner deque effects (suc fuel) w = elim (next_task deque (suc fuel) w) [
    | found task w' ↦ run_inner deque effects fuel (run effects task w')
    | nothing w' ↦ parked w'
    | overflow ↦ panicked
    | out_of_fuel ↦ exhausted
  ]
