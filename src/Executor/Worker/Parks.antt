-- ===== src/Executor/Worker/Parks.antt =====
-- When a worker parks.
use fabaccess_server.Prelude.{
  ℕ, zero, suc, ◌<◌, Option-cases, set, ◌≡◌, refl, Bool, true, false, inl, inr, List, [], ◌∷◌,
  count_p, arith,
}
use mathlib.Core.List.{append-nil}
use fabaccess_server.Executor.Worker.{
  success, empty, retry, Deque, WorkerThread, Effects, run, Found, found, nothing, overflow,
  out_of_fuel, next_task, steal_task, steal_fences, select_fence, fence_at, pop_batch, steal_global,
  steal_batch_and_pop, parked, panicked, exhausted, run_inner,
}
use fabaccess_server.Executor.Worker.Queues.{waiting}
use fabaccess_server.Executor.Worker.Search.{IsIdle, Next, next_task-Next}
use fabaccess_server.Executor.Worker.Runs.{IsBalanced, run_inner_lem}
use fabaccess_server.Executor.Worker.Backoff.{retried, IsAnswer, steal_global-IsAnswer}

module _ {Task : Type 0} (deque : Deque) (quiet : (n : ℕ) → deque.contended n ≡ false) where
  steal_fences-IsAnswer :
      (fuel : ℕ) (w : WorkerThread Task) → IsAnswer deque (steal_fences Task deque (suc fuel) w)
  unfolding steal_fences steal_batch_and_pop pop_batch
  steal_fences-IsAnswer fuel w = elim (Option-cases (select_fence Task w.fences)) [
    | inl e ↦ rw (e, steal_fences) tt
    | inr (j, e) ↦ rw (e, quiet w.steals, steal_fences) (goes j (fence_at Task j w.fences))
  ]
    where
      goes :
          (j : ℕ) (queue : List Task)
          → IsAnswer deque
              (elim (pop_batch Task
                (deque.batch w.steals)
                queue
                (λ rest w'. record w' { fences = set w'.fences j rest })
                (retried deque w)) [
                  | success task w' ↦ found task w'
                  | empty w' ↦ nothing w'
                  | retry w' ↦ steal_fences Task deque fuel w'
                ])
      goes j [] = tt
      goes j (task ∷ rest) = tt

  steal_task-IsAnswer :
      (fuel : ℕ) (w : WorkerThread Task) → IsAnswer deque (steal_task Task deque (suc fuel) w)
  unfolding steal_task
  steal_task-IsAnswer fuel w =
      goes (steal_global Task deque (suc fuel) 0 w)
        (steal_global-IsAnswer deque fuel 0 w (quiet w.steals))
    where
      goes :
          (f : Found Task)
          → IsAnswer deque f
          → IsAnswer deque (elim f [
            | nothing w' ↦ steal_fences Task deque (suc fuel) w'
            | found task w' ↦ found task w'
            | overflow ↦ overflow
            | out_of_fuel ↦ out_of_fuel
          ])
      goes (found task w') a = tt
      goes (nothing w') a = steal_fences-IsAnswer fuel w'
      goes overflow a = a
      goes out_of_fuel a = a

  next_task-IsAnswer :
      (fuel : ℕ) (w : WorkerThread Task) → IsAnswer deque (next_task Task deque (suc fuel) w)
  unfolding next_task
  next_task-IsAnswer fuel w = from_local w.local_tasks
    where
      from_tasks :
          (tasks : List Task)
          → IsAnswer deque (elim tasks [
            | task ∷ rest ↦ found task (record w { tasks = rest })
            | [] ↦ steal_task Task deque (suc fuel) w
          ])
      from_tasks [] = steal_task-IsAnswer fuel w
      from_tasks (task ∷ rest) = tt

      from_local :
          (tasks : List Task)
          → IsAnswer deque (elim tasks [
            | task ∷ rest ↦ found task (record w { local_tasks = rest })
            | [] ↦ elim w.tasks [
              | task ∷ rest ↦ found task (record w { tasks = rest })
              | [] ↦ steal_task Task deque (suc fuel) w
            ]
          ])
      from_local [] = from_tasks w.tasks
      from_local (task ∷ rest) = tt

  module _ (effects : Effects Task) (none_local : (task : Task) → effects.to_local task ≡ [])
      (none_global : (task : Task) → effects.to_global task ≡ []) where
    abbrev pub any : Task → Bool
    any task = true

    run-waiting :
        (task : Task) (w : WorkerThread Task)
        → waiting any (run Task effects task w) ≡ waiting any w
    unfolding run
    run-waiting task w =
        rw (none_local task, none_global task, append-nil w.local_tasks, append-nil w.task_queue)

    parks :
        (fuel : ℕ) (w : WorkerThread Task)
        → waiting any w < fuel
        → (w' : WorkerThread Task) × (run_inner Task deque effects fuel w ≡ parked w')
    unfolding run_inner
    parks zero w lt = absurd (omega arith)
    parks (suc fuel) w lt =
        goes (next_task Task deque (suc fuel) w) (next_task-IsAnswer fuel w)
          (next_task-Next any deque (suc fuel) w) (λ w1 lt1. parks fuel w1 lt1)
      where
        goes :
            (f : Found Task)
            → IsAnswer deque f
            → Next any (waiting any w) (count_p any w.ran) (count_p any w.spawned) f
            → ((w1 : WorkerThread Task)
                → waiting any w1 < fuel
                → (w' : WorkerThread Task) × (run_inner Task deque effects fuel w1 ≡ parked w'))
            → (w' : WorkerThread Task) × (elim f [
              | found task w1 ↦ run_inner Task deque effects fuel (run Task effects task w1)
              | nothing w1 ↦ parked w1
              | overflow ↦ panicked
              | out_of_fuel ↦ exhausted
            ]
                ≡ parked w')
        goes (found task w1) a k ih =
            ih (run Task effects task w1) (omega (arith, k.one_less, run-waiting task w1))
        goes (nothing w1) a k ih = (w1, refl)
        goes overflow a k ih = elim a [ ]
        goes out_of_fuel a k ih = elim a [ ]

    -- When no steal has to be tried again and no task spawns another, a worker with fewer
    -- waiting tasks than fuel parks, and nothing waits then, and every task ran once.
    pub run_inner_parks :
        (fuel : ℕ) (w : WorkerThread Task)
        → waiting any w < fuel
        → (w' : WorkerThread Task) × (run_inner Task deque effects fuel w ≡ parked w')
          × IsIdle w'
          × ((p : Task → Bool) → IsBalanced deque effects p w w')
    run_inner_parks fuel w lt =
        let (w', e) = parks fuel w lt in
        (
          w',
          e,
          (run_inner_lem deque effects any fuel w w' e).0,
          λ p. (run_inner_lem deque effects p fuel w w' e).1,
        )
