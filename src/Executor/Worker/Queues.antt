-- ===== src/Executor/Worker/Queues.antt =====
-- No task is lost or run twice, wherever it comes from.
use fabaccess_server.Prelude.{
  ℕ, zero, suc, ◌+◌, ◌≡◌, refl, ap, inl, inr, leb, Bool, Bool-cases, true, false, List, [], ◌∷◌,
  if◌then◌else◌, Option-cases, take, drop, length, set, count_p, count_p-append, count_p-take-drop,
  arith,
}
use fabaccess_server.Executor.Worker.{
  Deque, WorkerThread, Steal, success, empty, retry, Found, found, nothing, overflow, out_of_fuel,
  pop_batch, steal_batch_and_pop, backoff, steal_global, fence_at, select_fence, steal_fences,
}
use fabaccess_server.Executor.Worker.Fences.{AllEmpty, AtMost, AtMost-zero, select_fence-IsLongest}

module _ {Task : Type 0} where
  module _ (p : Task → Bool) where
    abbrev pub count_all : List (List Task) → ℕ
    count_all [] = 0
    count_all (fence ∷ fences) = count_p p fence + count_all fences

    count_all-set :
        (fences : List (List Task)) (j : ℕ) (task : Task) (rest left : List Task)
        → fence_at Task j fences ≡ task ∷ rest
        → count_all (set fences j left) + count_p p (task ∷ rest)
          ≡ count_all fences + count_p p left
    count_all-set [] j task rest left e = cc
    count_all-set (fence ∷ fences) zero task rest left e = omega (arith, ap (count_p p) e)
    count_all-set (fence ∷ fences) (suc j) task rest left e =
        omega (arith, count_all-set fences j task rest left e)

    abbrev pub one : Task → ℕ
    one task = if p task then 1 else 0

    -- The tasks that wait in one of the queues.
    abbrev pub waiting : WorkerThread Task → ℕ
    waiting w =
        count_p p w.local_tasks + count_p p w.tasks + count_p p w.task_queue + count_all w.fences

    -- The worker keeps what ran and what was spawned, and this many tasks wait.
    pub record Keeps (n r s : ℕ) (w : WorkerThread Task) : Type 0 where
      pub same_waiting : n ≡ waiting w
      pub same_ran : count_p p w.ran ≡ r
      pub same_spawned : count_p p w.spawned ≡ s

    pub record Took (n r s : ℕ) (task : Task) (w : WorkerThread Task) : Type 0 where
      pub one_less : n ≡ one task + waiting w
      pub same_ran : count_p p w.ran ≡ r
      pub same_spawned : count_p p w.spawned ≡ s

    abbrev Stole : ℕ → ℕ → ℕ → Steal Task → Type 0
    Stole n r s (success task w) = Took n r s task w
    Stole n r s (empty w) = Keeps n r s w
    Stole n r s (retry w) = Keeps n r s w

    pop_global :
        (n : ℕ) (w : WorkerThread Task) (queue : List Task)
        → w.task_queue ≡ queue
        → Stole
            (waiting w)
            (count_p p w.ran)
            (count_p p w.spawned)
            (pop_batch Task n queue (λ rest w'. record w' { task_queue = rest }) w)
    unfolding pop_batch
    pop_global n w [] e = record { same_waiting = refl; same_ran = refl; same_spawned = refl }
    pop_global n w (task ∷ rest) e = record {
      one_less = omega (
        arith,
        ap (count_p p) e,
        count_p-append p w.tasks (take n rest),
        count_p-take-drop p n rest,
      );
      same_ran = refl;
      same_spawned = refl;
    }

    pop_fence :
        (n j : ℕ) (w : WorkerThread Task) (queue : List Task)
        → fence_at Task j w.fences ≡ queue
        → Stole
            (waiting w)
            (count_p p w.ran)
            (count_p p w.spawned)
            (pop_batch Task n queue (λ rest w'. record w' { fences = set w'.fences j rest }) w)
    unfolding pop_batch
    pop_fence n j w [] e = record { same_waiting = refl; same_ran = refl; same_spawned = refl }
    pop_fence n j w (task ∷ rest) e = record {
      one_less = omega (
        arith,
        count_all-set w.fences j task rest (drop n rest) e,
        count_p-append p w.tasks (take n rest),
        count_p-take-drop p n rest,
      );
      same_ran = refl;
      same_spawned = refl;
    }

    -- What a search of the global queue, and what one of the other workers' leads to.
    abbrev pub FromGlobal : List Task → List Task → ℕ → ℕ → ℕ → Found Task → Type 0
    FromGlobal l t n r s (found task w) = Took n r s task w
    FromGlobal l t n r s (nothing w) =
        Keeps n r s w × (w.local_tasks ≡ l) × (w.tasks ≡ t) × (w.task_queue ≡ [])
    FromGlobal l t n r s overflow = Unit {0}
    FromGlobal l t n r s out_of_fuel = Unit {0}

    abbrev pub FromFences : List Task → List Task → List Task → ℕ → ℕ → ℕ → Found Task → Type 0
    FromFences l t q n r s (found task w) = Took n r s task w
    FromFences l t q n r s (nothing w) =
        Keeps n r s w × (w.local_tasks ≡ l) × (w.tasks ≡ t) × (w.task_queue ≡ q) × AllEmpty w.fences
    FromFences l t q n r s overflow = Unit {0}
    FromFences l t q n r s out_of_fuel = Unit {0}

    pub steal_global-FromGlobal :
        (deque : Deque) (fuel i : ℕ) (w : WorkerThread Task)
        → FromGlobal w.local_tasks w.tasks
            (waiting w)
            (count_p p w.ran)
            (count_p p w.spawned)
            (steal_global Task deque fuel i w)
    unfolding steal_global steal_batch_and_pop
    steal_global-FromGlobal deque zero i w = tt
    steal_global-FromGlobal deque (suc fuel) i w = elim (Bool-cases (deque.contended w.steals)) [
      | inl busy ↦ elim (Bool-cases (leb 32 i)) [
        | inl over ↦ rw (busy, over, steal_global) tt
        | inr fits ↦
            rw (busy, fits, steal_global) (steal_global-FromGlobal deque fuel (backoff i) next)
      ]
      | inr alone ↦
          rw (alone, steal_global)
            (goes w.task_queue refl (pop_global (deque.batch w.steals) next w.task_queue refl))
    ]
      where
        next : WorkerThread Task
        next = record w { steals = w.steals + 1 }

        goes :
            (queue : List Task)
            → w.task_queue ≡ queue
            → Stole (waiting w) (count_p p w.ran) (count_p p w.spawned) (
                pop_batch Task
                  (deque.batch w.steals)
                  queue
                  (λ rest w'. record w' { task_queue = rest })
                  next)
            → FromGlobal w.local_tasks w.tasks
                (waiting w)
                (count_p p w.ran)
                (count_p p w.spawned)
                (elim (pop_batch Task
                  (deque.batch w.steals)
                  queue
                  (λ rest w'. record w' { task_queue = rest })
                  next) [
                    | success task w' ↦ found task w'
                    | empty w' ↦ nothing w'
                    | retry w' ↦ elim (leb 32 i) [
                      | true ↦ overflow
                      | false ↦ steal_global Task deque fuel (backoff i) w'
                    ]
                  ])
        goes [] e k = (k, refl, refl, e)
        goes (task ∷ rest) e k = k

    pub steal_fences-FromFences :
        (deque : Deque) (fuel : ℕ) (w : WorkerThread Task)
        → FromFences w.local_tasks w.tasks w.task_queue
            (waiting w)
            (count_p p w.ran)
            (count_p p w.spawned)
            (steal_fences Task deque fuel w)
    unfolding steal_fences steal_batch_and_pop
    steal_fences-FromFences deque zero w = tt
    steal_fences-FromFences deque (suc fuel) w = elim (Option-cases (select_fence Task w.fences)) [
      | inl e ↦
          let none_there : w.fences ≡ [] = rw e at (select_fence-IsLongest w.fences) in
          rw (e, steal_fences)
            (
              record { same_waiting = refl; same_ran = refl; same_spawned = refl },
              refl,
              refl,
              refl,
              rw none_there tt,
            )
      | inr (j, e) ↦
          let longest : AtMost (length (fence_at Task j w.fences)) w.fences =
            rw e at (select_fence-IsLongest w.fences) in
          elim (Bool-cases (deque.contended w.steals)) [
            | inl busy ↦ rw (e, busy, steal_fences) (steal_fences-FromFences deque fuel next)
            | inr alone ↦
                rw (e, alone, steal_fences)
                  (goes j (fence_at Task j w.fences) refl longest
                    (pop_fence (deque.batch w.steals) j next (fence_at Task j w.fences) refl))
          ]
    ]
      where
        next : WorkerThread Task
        next = record w { steals = w.steals + 1 }

        goes :
            (j : ℕ) (queue : List Task)
            → fence_at Task j w.fences ≡ queue
            → AtMost (length queue) w.fences
            → Stole (waiting w) (count_p p w.ran) (count_p p w.spawned) (
                pop_batch Task
                  (deque.batch w.steals)
                  queue
                  (λ rest w'. record w' { fences = set w'.fences j rest })
                  next)
            → FromFences w.local_tasks w.tasks w.task_queue
                (waiting w)
                (count_p p w.ran)
                (count_p p w.spawned)
                (elim (pop_batch Task
                  (deque.batch w.steals)
                  queue
                  (λ rest w'. record w' { fences = set w'.fences j rest })
                  next) [
                    | success task w' ↦ found task w'
                    | empty w' ↦ nothing w'
                    | retry w' ↦ steal_fences Task deque fuel w'
                  ])
        goes j [] e a k = (k, refl, refl, refl, AtMost-zero w.fences a)
        goes j (task ∷ rest) e a k = k
