-- ===== src/Lightproc/System.antt =====
-- The life of one process: everybody who holds a reference to it, and the steps that they take in any
-- order. Each step is a transition of Lightproc/Transitions with what it does next.
pub mod Counts
pub mod Invariant
pub mod Safety
use fabaccess_server.Prelude.{
  ℕ, ◌+◌, ◌-◌, ◌<◌, ◌^◌, ◌≡◌, Bool, true, false, not, ◌&&◌, ◌||◌, ltb, if◌then◌else◌, List, [], ◌∷◌,
}
use fabaccess_server.Lightproc.State.{State}
use fabaccess_server.Lightproc.Transitions.{
  Action, schedule, decrement, notify, notify_unless, drop_future, write_output, read_output,
  destroy, abort, Effect, effect, is_closed, is_completed, allocate, wake, wake_by_ref, clone_waker,
  decrement_ref, tick_enter, tick_ready, tick_pending, guard_drop, cancel, lightproc_drop,
  handle_cancel, swap_awaiter_pass, swap_awaiter_release, handle_poll, handle_take_output,
  handle_release,
}

pub record Proc : Type 0 where
  pub state : State
  -- `LightProc` values that wait to be run
  pub queued : ℕ
  pub wakers : ℕ
  -- references that a thread is about to drop
  pub dropping : ℕ
  -- threads between the two loops of `tick`
  pub polling : ℕ
  -- the `ProcHandle` exists
  pub handle : Bool
  -- what the union holds
  pub future : Bool
  pub output : Bool
  pub destroyed : Bool
  -- a future or an output was dropped or read where there was none
  pub fault : Bool

-- Waking the awaiter concerns another process. An abort ends all of them.
unfoldable pub perform : Action → Proc → Proc
perform schedule p = record p { queued = p.queued + 1 }
perform decrement p = record p { dropping = p.dropping + 1 }
perform drop_future p = record p { future = false; fault = p.fault || not p.future }
perform write_output p = record p { output = true }
perform read_output p = record p { output = false; fault = p.fault || not p.output }
perform destroy p = record p { destroyed = true; fault = p.fault || p.destroyed }
perform _ p = p

unfoldable pub perform_all : List Action → Proc → Proc
unfolding perform
perform_all [] p = p
perform_all (a ∷ actions) p = perform_all actions (perform a p)

abbrev pub after : Effect → Proc → Proc
after e p = perform_all e.actions (record p { state = e.state })

-- After `LightProc::build`: one queued process, and its handle.
unfoldable pub build : Proc
build = record {
  state = allocate;
  queued = 1;
  wakers = 0;
  dropping = 0;
  polling = 0;
  handle = true;
  future = true;
  output = false;
  destroyed = false;
  fault = false;
}

-- Whoever polls has a waker on loan.
abbrev pub has_waker : Proc → Bool
has_waker p = ltb 0 p.wakers || ltb 0 p.polling

-- The start of `tick`, by a thread that took the process off the queue.
unfoldable pub run : Proc → Proc
unfolding tick_enter perform_all
run p = after (tick_enter p.state) (record p {
  queued = p.queued - 1;
  polling = if is_closed p.state then p.polling else p.polling + 1;
})

-- Everything that can happen, but `ProcHandle::cancel`. Fewer than 2^32 references exist at once.
pub data Step (p : Proc) : Proc → Type 0 where
  wakes : 0 < p.wakers → Step p (after (wake p.state) (record p { wakers = p.wakers - 1 }))
  wakes_by_ref :
      has_waker p ≡ true → p.state.refcount + 1 < 2 ^ 32 → Step p (after (wake_by_ref p.state) p)
  clones :
      has_waker p ≡ true
      → (clone_waker p.state).actions ≡ []
      → Step p (after (clone_waker p.state) (record p { wakers = p.wakers + 1 }))
  drops_waker :
      0 < p.wakers → Step p (record p { wakers = p.wakers - 1; dropping = p.dropping + 1 })
  drops_reference :
      0 < p.dropping
      → Step p (after (decrement_ref p.state) (record p { dropping = p.dropping - 1 }))
  runs : 0 < p.queued → Step p (run p)
  finishes :
      0 < p.polling → Step p (after (tick_ready p.state) (record p { polling = p.polling - 1 }))
  pends :
      0 < p.polling → Step p (after (tick_pending p.state) (record p { polling = p.polling - 1 }))
  panics :
      0 < p.polling → Step p (after (guard_drop p.state) (record p { polling = p.polling - 1 }))
  cancels : 0 < p.queued → Step p (after (cancel p.state) p)
  drops :
      0 < p.queued → Step p (after (lightproc_drop p.state) (record p { queued = p.queued - 1 }))
  polls_handle : p.handle ≡ true → Step p (after (handle_poll p.state).0 p)
  takes_output : p.handle ≡ true → Step p (after (handle_take_output p.state) p)
  releases :
      p.handle ≡ true
      → (is_completed p.state && not (is_closed p.state)) ≡ false
      → Step p (after (handle_release p.state) (record p { handle = false }))
  -- the awaiter's lock is taken and released by whoever polls or notifies
  locks :
      (new_is_none : Bool) → Step p (record p { state = (swap_awaiter_pass new_is_none p.state).0 })
  unlocks :
      (new_is_none : Bool) → Step p (record p { state = swap_awaiter_release new_is_none p.state })

pub data Reach : Proc → Type 0 where
  built : Reach build
  later : {p q : Proc} → Reach p → Step p q → Reach q
