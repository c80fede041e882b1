-- ===== src/Actors/Driver/Polls.antt =====
-- The driver never forgets a change, and never runs two applications at once.
use fabaccess_server.Prelude.{
  ℕ, zero, suc, ◌<◌, ◌≡◌, refl, subst, Bool, true, false, Option, none, some, List, [], ◌∷◌, arith,
}
use fabaccess_server.Resources.Machine.{MachineState}
use fabaccess_server.Actors.Driver.{
  Change, unchanged, ended, changed, Parts, Event, started, completed, Poll, pending, ready,
  ActorDriver, Round, again, return, take_change, settle, round, poll,
}

-- Every application but the latest is completed before the next one starts; the flag tells whether
-- the latest one runs.
abbrev pub Alternates : Bool → List Event → Type 0
Alternates false [] = Unit {0}
Alternates true [] = ⊥
Alternates true (started state ∷ log) = Alternates false log
Alternates false (started state ∷ log) = ⊥
Alternates false (completed ∷ log) = Alternates true log
Alternates true (completed ∷ log) = ⊥

abbrev pub is_some {ℓ} : {A : Type ℓ} → Option A → Bool
is_some none = false
is_some (some _) = true

module _ (parts : Parts) where
  abbrev pub IsOrderly : ActorDriver parts → Type 0
  IsOrderly d = Alternates (is_some d.future) d.log

  -- Why `poll` returned: a future that is not done was polled, and is kept; or all applications are
  -- completed, and the signal has no news or has ended.
  pub data Stops (d : ActorDriver parts) : Poll → Type 0 where
    busy :
        (future future' : parts.ApplyFuture)
        → parts.poll_future future ≡ (future', false)
        → d.future ≡ some future'
        → Stops d pending
    idle :
        (signal : parts.Signal)
        → parts.poll_change signal ≡ (d.signal, unchanged)
        → d.future ≡ none
        → Stops d pending
    over :
        (signal : parts.Signal)
        → parts.poll_change signal ≡ (d.signal, ended)
        → d.future ≡ none
        → Stops d ready

  abbrev Good : Round parts → Type 0
  Good (again d) = IsOrderly d
  Good (return d outcome) = IsOrderly d × Stops d outcome

  take_change-Good :
      (d : ActorDriver parts) (c : parts.Signal × Change)
      → parts.poll_change d.signal ≡ c
      → d.future ≡ none
      → IsOrderly d
      → Good (take_change parts d c)
  unfolding take_change
  take_change-Good d (signal, unchanged) e f o = (o, idle d.signal e f)
  take_change-Good d (signal, ended) e f o = (o, over d.signal e f)
  take_change-Good d (signal, changed state) e f o =
      subst (λ (x : Option parts.ApplyFuture). Alternates (is_some x) d.log) f o

  settle-Good :
      (d : ActorDriver parts) (future : parts.ApplyFuture) (p : parts.ApplyFuture × Bool)
      → parts.poll_future future ≡ p
      → d.future ≡ some future
      → IsOrderly d
      → Good (settle parts d p)
  unfolding settle
  settle-Good d future (future', true) e f o =
      let running = subst (λ (x : Option parts.ApplyFuture). Alternates (is_some x) d.log) f o in
      take_change-Good (record d { future = none; log = completed ∷ d.log }) _ refl refl running
  settle-Good d future (future', false) e f o =
      let running = subst (λ (x : Option parts.ApplyFuture). Alternates (is_some x) d.log) f o in
      (running, busy future future' e refl)

  round-Good : (d : ActorDriver parts) → IsOrderly d → Good (round parts d)
  unfolding round
  round-Good d o = by d.future refl
    where
      by :
          (f : Option parts.ApplyFuture)
          → d.future ≡ f
          → Good (elim f [
            | none ↦ take_change parts d (parts.poll_change d.signal)
            | some future ↦ settle parts d (parts.poll_future future)
          ])
      by none e = take_change-Good d _ refl e o
      by (some future) e = settle-Good d future _ refl e o

  -- From a driver whose applications of states have run one after the other, a poll that
  -- returns leaves it so; it returns pending only with a future that was just polled and is not
  -- done, or with no application left and no news from the signal, and ready only with no
  -- application left and the signal ended.
  pub poll-Stops :
      (fuel : ℕ) (d d' : ActorDriver parts) (outcome : Poll)
      → IsOrderly d
      → poll parts fuel d ≡ some (d', outcome)
      → IsOrderly d' × Stops d' outcome
  unfolding poll
  poll-Stops zero d d' outcome o h = cc
  poll-Stops (suc fuel) d d' outcome o h =
      goes (round parts d) (round-Good d o) h (λ d1 o1 h1. poll-Stops fuel d1 d' outcome o1 h1)
    where
      goes :
          (r : Round parts)
          → Good r
          → elim r [ return d1 out ↦ some (d1, out) | again d1 ↦ poll parts fuel d1 ]
            ≡ some (d', outcome)
          → ((d1 : ActorDriver parts)
              → IsOrderly d1
              → poll parts fuel d1 ≡ some (d', outcome)
              → IsOrderly d' × Stops d' outcome)
          → IsOrderly d' × Stops d' outcome
      goes (again d1) g h ih = ih d1 g h
      goes (return d1 out) g h ih =
          let same : ◌≡◌ {A = ActorDriver parts × Poll} (d1, out) (d', outcome) = cc in
          subst (λ (q : ActorDriver parts × Poll). IsOrderly q.0 × Stops q.0 q.1) same g

  module _ (left : parts.Signal → ℕ)
      (falls : (s s' : parts.Signal) (state : MachineState)
        → parts.poll_change s ≡ (s', changed state)
        → left s' < left s) where
    abbrev Falls : ℕ → Round parts → Type 0
    Falls n (again d) = left d.signal < n
    Falls n (return d outcome) = Unit {0}

    take_change-Falls :
        (d : ActorDriver parts) (c : parts.Signal × Change)
        → parts.poll_change d.signal ≡ c
        → Falls (left d.signal) (take_change parts d c)
    unfolding take_change
    take_change-Falls d (signal, unchanged) e = tt
    take_change-Falls d (signal, ended) e = tt
    take_change-Falls d (signal, changed state) e = falls d.signal signal state e

    round-Falls : (d : ActorDriver parts) → Falls (left d.signal) (round parts d)
    unfolding round
    round-Falls d = by d.future
      where
        settled : (p : parts.ApplyFuture × Bool) → Falls (left d.signal) (settle parts d p)
        settled (future, true) =
            take_change-Falls (record d { future = none; log = completed ∷ d.log }) _ refl
        settled (future, false) = tt

        by :
            (f : Option parts.ApplyFuture)
            → Falls (left d.signal) (elim f [
              | none ↦ take_change parts d (parts.poll_change d.signal)
              | some future ↦ settle parts d (parts.poll_future future)
            ])
        by none = take_change-Falls d _ refl
        by (some future) = settled (parts.poll_future future)

    -- When each change that a signal gives lowers some number of the signal, a poll of the
    -- driver returns on any fuel above that number.
    pub poll_returns :
        (fuel : ℕ) (d : ActorDriver parts)
        → left d.signal < fuel
        → (d' : ActorDriver parts) × (outcome : Poll) × (poll parts fuel d ≡ some (d', outcome))
    unfolding poll
    poll_returns zero d h = absurd (omega arith)
    poll_returns (suc fuel) d h =
        goes (round parts d) (round-Falls d) (λ d1 lt. poll_returns fuel d1 lt)
      where
        goes :
            (r : Round parts)
            → Falls (left d.signal) r
            → ((d1 : ActorDriver parts)
                → left d1.signal < fuel
                → (d' : ActorDriver parts) × (outcome : Poll) × (poll parts fuel d1
                    ≡ some (d', outcome)))
            → (d' : ActorDriver parts) × (outcome : Poll) × (elim r [
              | return d1 out ↦ some (d1, out)
              | again d1 ↦ poll parts fuel d1
            ]
                ≡ some (d', outcome))
        goes (again d1) lt ih = ih d1 (omega arith)
        goes (return d1 out) lt ih = (d1, out, refl)
