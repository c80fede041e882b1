-- ===== src/Executor/Worker/Runs.antt =====
-- What a worker has done when it parks.
use fabaccess_server.Prelude.{
  ℕ, zero, suc, ◌+◌, ◌≡◌, refl, ap, subst, Bool, List, [], ◌∷◌, ◌++◌, count_p, count_p-append,
  arith,
}
use fabaccess_server.Executor.Worker.{
  Deque, WorkerThread, Effects, run, Found, found, nothing, overflow, out_of_fuel, next_task, Ended,
  parked, panicked, exhausted, run_inner,
}
use fabaccess_server.Executor.Worker.Fences.{AllEmpty}
use fabaccess_server.Executor.Worker.Queues.{waiting, count_all, Took}
use fabaccess_server.Executor.Worker.Search.{IsIdle, Next, next_task-Next}

module _ {Task : Type 0} (deque : Deque) (effects : Effects Task) (p : Task → Bool) where
  -- Tasks that wait or ran, less those that were spawned, are as many as before.
  abbrev pub IsBalanced : WorkerThread Task → WorkerThread Task → Type 0
  IsBalanced w w' =
      count_p p w'.ran + count_p p w.spawned ≡ count_p p w.ran + waiting p w + count_p p w'.spawned

  abbrev Settles : WorkerThread Task → Ended Task → Type 0
  Settles w (parked w') = IsIdle w' × IsBalanced w w'
  Settles w panicked = Unit {0}
  Settles w exhausted = Unit {0}

  run-waiting :
      (task : Task) (w w' : WorkerThread Task)
      → Took p (waiting p w) (count_p p w.ran) (count_p p w.spawned) task w'
      → count_p p (run Task effects task w').ran
          + waiting p (run Task effects task w')
          + count_p p w.spawned
        ≡ count_p p w.ran + waiting p w + count_p p (run Task effects task w').spawned
  unfolding run
  run-waiting task w w' k = omega (
    arith,
    k.one_less,
    k.same_ran,
    k.same_spawned,
    count_p-append p w'.local_tasks (effects.to_local task),
    count_p-append p w'.task_queue (effects.to_global task),
    count_p-append p (effects.to_local task) (effects.to_global task),
    count_p-append p (effects.to_local task ++ effects.to_global task) w'.spawned,
  )

  count_all-AllEmpty : (fences : List (List Task)) → AllEmpty fences → count_all p fences ≡ 0
  count_all-AllEmpty [] a = refl
  count_all-AllEmpty (fence ∷ fences) (e, a) =
      omega (arith, ap (count_p p) e, count_all-AllEmpty fences a)

  idle_waiting : (w : WorkerThread Task) → IsIdle w → waiting p w ≡ 0
  idle_waiting w i = omega (
    arith,
    ap (count_p p) i.no_local,
    ap (count_p p) i.no_tasks,
    ap (count_p p) i.no_global,
    count_all-AllEmpty w.fences i.no_fences,
  )

  run_inner-Settles :
      (fuel : ℕ) (w : WorkerThread Task) → Settles w (run_inner Task deque effects fuel w)
  unfolding run_inner
  run_inner-Settles zero w = tt
  run_inner-Settles (suc fuel) w =
      goes (next_task Task deque (suc fuel) w) (next_task-Next p deque (suc fuel) w)
        (λ w'. run_inner-Settles fuel w')
    where
      later :
          (w1 : WorkerThread Task) (e : Ended Task)
          → count_p p w1.ran + waiting p w1 + count_p p w.spawned
            ≡ count_p p w.ran + waiting p w + count_p p w1.spawned
          → Settles w1 e
          → Settles w e
      later w1 (parked w') h (i, b) = (i, omega (arith, h, b))
      later w1 panicked h s = tt
      later w1 exhausted h s = tt

      goes :
          (f : Found Task)
          → Next p (waiting p w) (count_p p w.ran) (count_p p w.spawned) f
          → ((w' : WorkerThread Task) → Settles w' (run_inner Task deque effects fuel w'))
          → Settles w (elim f [
            | found task w' ↦ run_inner Task deque effects fuel (run Task effects task w')
            | nothing w' ↦ parked w'
            | overflow ↦ panicked
            | out_of_fuel ↦ exhausted
          ])
      goes (found task w') k ih =
          later (run Task effects task w')
            (run_inner Task deque effects fuel (run Task effects task w')) (run-waiting task w w' k)
            (ih (run Task effects task w'))
      goes (nothing w') (k, i) ih =
          (i, omega (arith, k.same_waiting, k.same_ran, k.same_spawned, idle_waiting w' i))
      goes overflow k ih = tt
      goes out_of_fuel k ih = tt

  -- When `run_inner` parks a worker, nothing waits in its queues, in the global queue or in
  -- those of the other workers, and no task was lost or run twice: of the tasks that pass any
  -- test, those that ran or wait, less those that were spawned, are as many as before. The
  -- deques may let any steal be tried again and move any number of tasks.
  pub run_inner_lem :
      (fuel : ℕ) (w w' : WorkerThread Task)
      → run_inner Task deque effects fuel w ≡ parked w'
      → IsIdle w' × IsBalanced w w'
  run_inner_lem fuel w w' e = subst (Settles w) e (run_inner-Settles fuel w)
