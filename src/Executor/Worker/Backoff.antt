-- ===== src/Executor/Worker/Backoff.antt =====
-- How many steals in a row may fail.
use fabaccess_server.Prelude.{
  ℕ, zero, suc, ◌+◌, ◌<◌, ◌≤◌, ◌≡◌, ◌≢◌, ◌↔◌, refl, subst, sym, ◌∙◌, Bool-cases, leb, true, false,
  inl, inr, List, [], ◌∷◌, arith,
}
use fabaccess_server.Executor.Worker.{
  success, empty, retry, Deque, WorkerThread, Found, found, nothing, overflow, out_of_fuel,
  pop_batch, steal_global, steal_batch_and_pop, backoff,
}

-- After k steals that meet another one, the next such steal shifts too far.
abbrev Climbs : ℕ → ℕ → Type 0
Climbs zero i = leb 32 i ≡ true
Climbs (suc k) i = (leb 32 i ≡ false) × Climbs k (backoff i)

module _ (deque : Deque) where
  abbrev AllBusy : ℕ → ℕ → Type 0
  AllBusy steals k = (n : ℕ) → n ≤ k → deque.contended (steals + n) ≡ true

  not_alone : (steals k : ℕ) → deque.contended steals ≡ false → AllBusy steals k → ⊥
  not_alone steals k alone all =
      let here : steals + 0 ≡ steals = omega arith in cc (rw (here, alone) at (all 0 (omega arith)))

  busy_from :
      (steals k : ℕ)
      → deque.contended steals ≡ true
      → AllBusy (steals + 1) k
      → AllBusy steals (suc k)
  busy_from steals k busy all zero h =
      let here : steals + 0 ≡ steals = omega arith in rw (here) busy
  busy_from steals k busy all (suc n) h =
      let there : steals + suc n ≡ steals + 1 + n = omega arith in rw there (all n (omega arith))

  busy_after : (steals k : ℕ) → AllBusy steals (suc k) → AllBusy (steals + 1) k
  busy_after steals k all n h =
      let there : steals + 1 + n ≡ steals + suc n = omega arith in
      rw there (all (suc n) (omega arith))

  busy_here : (steals k : ℕ) → AllBusy steals k → deque.contended steals ≡ true
  busy_here steals k all =
      let here : steals + 0 ≡ steals = omega arith in rw here at (all 0 (omega arith))

module _ {Task : Type 0} (deque : Deque) where
  abbrev pub retried : WorkerThread Task → WorkerThread Task
  retried w = record w { steals = w.steals + 1 }

  steal_global_busy :
      (fuel i : ℕ) (w : WorkerThread Task)
      → deque.contended w.steals ≡ true
      → leb 32 i ≡ false
      → steal_global Task deque (suc fuel) i w
        ≡ steal_global Task deque fuel (backoff i) (retried w)
  unfolding steal_global steal_batch_and_pop
  steal_global_busy fuel i w busy fits = rw (busy, fits, steal_global)

  steal_global_over :
      (fuel i : ℕ) (w : WorkerThread Task)
      → deque.contended w.steals ≡ true
      → leb 32 i ≡ true
      → steal_global Task deque (suc fuel) i w ≡ overflow
  unfolding steal_global steal_batch_and_pop
  steal_global_over fuel i w busy over = rw (busy, over, steal_global)

  -- The search has an answer.
  abbrev pub IsAnswer : Found Task → Type 0
  IsAnswer (found task w) = Unit {0}
  IsAnswer (nothing w) = Unit {0}
  IsAnswer overflow = ⊥
  IsAnswer out_of_fuel = ⊥

  pub steal_global-IsAnswer :
      (fuel i : ℕ) (w : WorkerThread Task)
      → deque.contended w.steals ≡ false
      → IsAnswer (steal_global Task deque (suc fuel) i w)
  unfolding steal_global steal_batch_and_pop pop_batch
  steal_global-IsAnswer fuel i w alone = rw (alone, steal_global) (goes w.task_queue)
    where
      goes :
          (queue : List Task)
          → IsAnswer
              (elim (pop_batch Task
                (deque.batch w.steals)
                queue
                (λ rest w'. record w' { task_queue = rest })
                (retried w)) [
                  | success task w' ↦ found task w'
                  | empty w' ↦ nothing w'
                  | retry w' ↦ elim (leb 32 i) [
                    | true ↦ overflow
                    | false ↦ steal_global Task deque fuel (backoff i) w'
                  ]
                ])
      goes [] = tt
      goes (task ∷ rest) = tt

  answers : (f : Found Task) → IsAnswer f → f ≢ overflow
  answers f a e = subst IsAnswer e a

  steal_global-overflow :
      (k i fuel : ℕ) (w : WorkerThread Task)
      → k < fuel
      → Climbs k i
      → (steal_global Task deque fuel i w ≡ overflow) ↔ AllBusy deque w.steals k
  steal_global-overflow k i zero w lt c = absurd (omega arith)
  steal_global-overflow zero i (suc fuel) w lt over = elim (Bool-cases (deque.contended w.steals)) [
    | inl busy ↦ (
      λ e n h. let here : w.steals + n ≡ w.steals = omega arith in rw here busy,
      λ all. steal_global_over fuel i w busy over,
    )
    | inr alone ↦ (
      λ e. absurd (
          answers (steal_global Task deque (suc fuel) i w) (steal_global-IsAnswer fuel i w alone)
            e),
      λ all. absurd (not_alone deque w.steals 0 alone all),
    )
  ]
  steal_global-overflow (suc k) i (suc fuel) w lt (fits, c) =
      elim (Bool-cases (deque.contended w.steals)) [
        | inl busy ↦
            let next = steal_global_busy fuel i w busy fits in
            let ih = steal_global-overflow k (backoff i) fuel (retried w) (omega arith) c in
            (
              λ e. busy_from deque w.steals k busy (ih.0 (sym next ∙ e)),
              λ all. next ∙ ih.1 (busy_after deque w.steals k all),
            )
        | inr alone ↦ (
          λ e. absurd (
              answers (steal_global Task deque (suc fuel) i w)
                (steal_global-IsAnswer fuel i w alone) e),
          λ all. absurd (not_alone deque w.steals (suc k) alone all),
        )
      ]

  -- On more fuel than four, the backoff of a worker that steals from the global queue overflows
  -- its shift exactly when five steals in a row have to be tried again.
  pub steal_global-overflow_iff :
      (fuel : ℕ) (w : WorkerThread Task)
      → 4 < fuel
      → (steal_global Task deque fuel 0 w ≡ overflow)
        ↔ ((n : ℕ) → n ≤ 4 → deque.contended (w.steals + n) ≡ true)
  steal_global-overflow_iff fuel w lt =
      steal_global-overflow 4 0 fuel w lt (refl, (refl, (refl, (refl, refl))))
