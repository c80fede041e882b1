-- ===== src/Executor/Worker/Search.antt =====
-- Where a worker finds its next task, and when it finds none.
use fabaccess_server.Prelude.{ℕ, ◌≡◌, refl, ap, ◌∙◌, Bool, List, [], ◌∷◌, count_p, arith}
use fabaccess_server.Executor.Worker.{
  Deque, WorkerThread, Found, found, nothing, overflow, out_of_fuel, steal_global, steal_fences,
  steal_task, next_task,
}
use fabaccess_server.Executor.Worker.Fences.{AllEmpty}
use fabaccess_server.Executor.Worker.Queues.{
  waiting, Keeps, Took, FromGlobal, FromFences, steal_global-FromGlobal, steal_fences-FromFences,
}

module _ {Task : Type 0} where
  -- Nothing waits for this worker.
  pub record IsIdle (w : WorkerThread Task) : Type 0 where
    pub no_local : w.local_tasks ≡ []
    pub no_tasks : w.tasks ≡ []
    pub no_global : w.task_queue ≡ []
    pub no_fences : AllEmpty w.fences

  module _ (p : Task → Bool) where
    abbrev pub Next : ℕ → ℕ → ℕ → Found Task → Type 0
    Next n r s (found task w) = Took p n r s task w
    Next n r s (nothing w) = Keeps p n r s w × IsIdle w
    Next n r s overflow = Unit {0}
    Next n r s out_of_fuel = Unit {0}

    after_global :
        {n r s : ℕ} (w : WorkerThread Task) (f : Found Task)
        → Keeps p n r s w
        → w.local_tasks ≡ []
        → w.tasks ≡ []
        → w.task_queue ≡ []
        → FromFences p w.local_tasks w.tasks w.task_queue
            (waiting p w)
            (count_p p w.ran)
            (count_p p w.spawned)
            f
        → Next n r s f
    after_global w (found task w1) k l t q f = record {
      one_less = k.same_waiting ∙ f.one_less;
      same_ran = f.same_ran ∙ k.same_ran;
      same_spawned = f.same_spawned ∙ k.same_spawned;
    }
    after_global w (nothing w1) k l t q (f, l1, t1, q1, a) = (
      record {
        same_waiting = k.same_waiting ∙ f.same_waiting;
        same_ran = f.same_ran ∙ k.same_ran;
        same_spawned = f.same_spawned ∙ k.same_spawned;
      },
      record { no_local = l1 ∙ l; no_tasks = t1 ∙ t; no_global = q1 ∙ q; no_fences = a },
    )
    after_global w overflow k l t q f = tt
    after_global w out_of_fuel k l t q f = tt

    steal_task-Next :
        (deque : Deque) (fuel : ℕ) (w : WorkerThread Task)
        → w.local_tasks ≡ []
        → w.tasks ≡ []
        → Next (waiting p w) (count_p p w.ran) (count_p p w.spawned) (steal_task Task deque fuel w)
    unfolding steal_task
    steal_task-Next deque fuel w l t =
        goes (steal_global Task deque fuel 0 w) (steal_global-FromGlobal p deque fuel 0 w)
      where
        goes :
            (f : Found Task)
            → FromGlobal p w.local_tasks w.tasks
                (waiting p w)
                (count_p p w.ran)
                (count_p p w.spawned)
                f
            → Next (waiting p w) (count_p p w.ran) (count_p p w.spawned) (elim f [
              | nothing w' ↦ steal_fences Task deque fuel w'
              | found task w' ↦ found task w'
              | overflow ↦ overflow
              | out_of_fuel ↦ out_of_fuel
            ])
        goes (found task w') f = f
        goes (nothing w') (k, l', t', q) =
            after_global w' (steal_fences Task deque fuel w') k (l' ∙ l) (t' ∙ t) q
              (steal_fences-FromFences p deque fuel w')
        goes overflow f = tt
        goes out_of_fuel f = tt

    pub next_task-Next :
        (deque : Deque) (fuel : ℕ) (w : WorkerThread Task)
        → Next (waiting p w) (count_p p w.ran) (count_p p w.spawned) (next_task Task deque fuel w)
    unfolding next_task
    next_task-Next deque fuel w = from_local w.local_tasks refl
      where
        from_tasks :
            (tasks : List Task)
            → w.local_tasks ≡ []
            → w.tasks ≡ tasks
            → Next (waiting p w) (count_p p w.ran) (count_p p w.spawned) (elim tasks [
              | task ∷ rest ↦ found task (record w { tasks = rest })
              | [] ↦ steal_task Task deque fuel w
            ])
        from_tasks [] l e = steal_task-Next deque fuel w l e
        from_tasks (task ∷ rest) l e = record {
          one_less = omega (arith, ap (count_p p) e);
          same_ran = refl;
          same_spawned = refl;
        }

        from_local :
            (tasks : List Task)
            → w.local_tasks ≡ tasks
            → Next (waiting p w) (count_p p w.ran) (count_p p w.spawned) (elim tasks [
              | task ∷ rest ↦ found task (record w { local_tasks = rest })
              | [] ↦ elim w.tasks [
                | task ∷ rest ↦ found task (record w { tasks = rest })
                | [] ↦ steal_task Task deque fuel w
              ]
            ])
        from_local [] e = from_tasks w.tasks e refl
        from_local (task ∷ rest) e = record {
          one_less = omega (arith, ap (count_p p) e);
          same_ran = refl;
          same_spawned = refl;
        }
