-- ===== src/Lightproc/Transitions.antt =====
-- What each operation on a process does to its state, and what it does next: the atomic part of
-- runtime/lightproc/src/raw_proc.rs, proc_data.rs and proc_handle.rs.
-- Each function is the body of a compare-exchange loop at the pass whose exchange succeeds: there the
-- state read is the state in memory. A count wraps at 32 bits.
use fabaccess_server.Prelude.{
  ℕ, ◌+◌, ◌-◌, ◌%◌, ◌^◌, Bool, not, ◌&&◌, ◌||◌, ltb, ◌==◌, if◌then◌else◌, List, [], ◌∷◌, ◌++◌,
}
use fabaccess_server.Lightproc.State.{
  scheduled_flag, running_flag, completed_flag, closed_flag, handle_flag, locked_flag, awaiter_flag,
  union, intersection, complement, State, new, into_u64, from_u64, fetch_or, fetch_and, fetch_add,
  fetch_sub,
}

-- What a thread does after its exchange, in order.
pub data Action : Type 0 where
  -- pass the reference to the schedule function
  schedule : Action
  -- drop a reference
  decrement : Action
  -- wake the awaiter, unless it is the poller itself
  notify notify_unless : Action
  drop_future write_output read_output destroy : Action
  -- `std::process::abort`
  abort : Action

pub record Effect : Type 0 where
  pub state : State
  pub actions : List Action

abbrev pub effect : State → List Action → Effect
effect s actions = record { state = s; actions = actions }

-- The flags of a state, `State::is_scheduled` and its siblings.
abbrev pub is_scheduled : State → Bool
is_scheduled s = s.flags.scheduled

abbrev pub is_running : State → Bool
is_running s = s.flags.running

abbrev pub is_completed : State → Bool
is_completed s = s.flags.completed

abbrev pub is_closed : State → Bool
is_closed s = s.flags.closed

abbrev pub is_handle : State → Bool
is_handle s = s.flags.handle

abbrev pub is_awaiter : State → Bool
is_awaiter s = s.flags.awaiter

abbrev pub is_locked : State → Bool
is_locked s = s.flags.locked

-- `intersects(COMPLETED | CLOSED)` and `intersects(SCHEDULED | RUNNING)`.
abbrev pub is_done : State → Bool
is_done s = s.flags.completed || s.flags.closed

abbrev pub is_active : State → Bool
is_active s = s.flags.scheduled || s.flags.running

abbrev pub plus_one : ℕ → ℕ
plus_one n = (n + 1) % 2 ^ 32

abbrev pub notify_awaiter : State → List Action
notify_awaiter s = if is_awaiter s then notify ∷ [] else []

-- `RawProc::allocate`: scheduled, with a handle and one reference.
abbrev pub allocate : State
allocate = new (union scheduled_flag handle_flag) 1

-- `RawProc::wake`, by value: the waker's reference is dropped, or goes to the schedule function.
unfoldable pub wake : State → Effect
wake s =
    if is_done s
    then effect s (decrement ∷ [])
    else if is_scheduled s
    then effect s (decrement ∷ [])
    else effect (new (union s.flags scheduled_flag) s.refcount)
        (if not (is_running s) then schedule ∷ [] else decrement ∷ [])

-- `RawProc::wake_by_ref`: a process that is not active gets a reference for the schedule function.
unfoldable pub wake_by_ref : State → Effect
wake_by_ref s =
    if is_done s
    then effect s []
    else if is_scheduled s
    then effect s []
    else effect
        (new (union s.flags scheduled_flag)
          (if not (is_active s) then plus_one s.refcount else s.refcount))
        (if not (is_active s) then schedule ∷ [] else [])

-- `RawProc::clone_waker`, with the abort on an overflow of the count.
unfoldable pub clone_waker : State → Effect
clone_waker s =
    effect (from_u64 (fetch_add 1 (into_u64 s)))
      (if ltb (2 ^ 31 - 1) s.refcount then abort ∷ [] else [])

-- `RawProc::decrement`; the test is on the count that `saturating_sub` gives.
unfoldable pub decrement_ref : State → Effect
decrement_ref s =
    effect (from_u64 (fetch_sub 1 (into_u64 s)))
      (if s.refcount - 1 == 0 && not (is_handle s) then destroy ∷ [] else [])

-- The first loop of `RawProc::tick`: a closed process is cleaned up, any other starts to run.
unfoldable pub tick_enter : State → Effect
tick_enter s =
    if is_closed s
    then effect s (notify_awaiter s ++ (drop_future ∷ decrement ∷ []))
    else effect
        (new (union (intersection s.flags (complement scheduled_flag)) running_flag) s.refcount) []

-- `RawProc::tick` after `Poll::Ready`. `RUNNING & SCHEDULED` is empty, and its complement is
-- everything.
unfoldable pub tick_ready : State → Effect
tick_ready s =
    let kept = intersection s.flags (complement (intersection running_flag scheduled_flag)) in
    let flags =
      if not (is_handle s)
      then union (union kept completed_flag) closed_flag
      else union kept completed_flag in
    effect (new flags s.refcount) (
      (drop_future ∷ write_output ∷ [])
      ++ ((if not (is_handle s) || is_closed s then read_output ∷ [] else [])
          ++ (notify_awaiter s ++ (decrement ∷ []))))

-- `RawProc::tick` after `Poll::Pending`.
unfoldable pub tick_pending : State → Effect
tick_pending s =
    let flags =
      if is_closed s
      then intersection s.flags (complement (union running_flag scheduled_flag))
      else intersection s.flags (complement running_flag) in
    effect (new flags s.refcount) (
      if is_closed s
      then drop_future ∷ decrement ∷ []
      else if is_scheduled s
      then schedule ∷ []
      else decrement ∷ [])

-- `Guard::drop`, when polling panics.
unfoldable pub guard_drop : State → Effect
guard_drop s =
    if is_closed s
    then effect (new (intersection s.flags (complement scheduled_flag)) s.refcount)
        (drop_future ∷ decrement ∷ [])
    else effect
        (new
          (union (intersection s.flags (complement (intersection running_flag scheduled_flag)))
            closed_flag)
          s.refcount)
        ((drop_future ∷ []) ++ (notify_awaiter s ++ (decrement ∷ [])))

-- `ProcData::cancel`, for `LightProc::cancel`.
unfoldable pub cancel : State → Effect
cancel s =
    if is_done s
    then effect s []
    else effect (new (union s.flags closed_flag) s.refcount) (notify_awaiter s)

-- `LightProc::drop`: cancel, drop the future, drop the reference.
unfoldable pub lightproc_drop : State → Effect
unfolding cancel
lightproc_drop s = effect (cancel s).state ((cancel s).actions ++ (drop_future ∷ decrement ∷ []))

-- `ProcHandle::cancel`. The count grows where the process is active already.
unfoldable pub handle_cancel : State → Effect
handle_cancel s =
    if is_done s
    then effect s []
    else effect
        (if is_active s
          then new (union (union s.flags scheduled_flag) closed_flag) (plus_one s.refcount)
          else new (union s.flags closed_flag) s.refcount)
        ((if not (is_active s) then schedule ∷ [] else []) ++ notify_awaiter s)

pub data Polled : Type 0 where
  pending ready_none ready_some : Polled

-- `ProcHandle::poll` at the state that its last load or exchange sees. (An awaiter is registered by
-- `swap_awaiter` before a pending answer.)
unfoldable pub handle_poll : State → Effect × Polled
handle_poll s =
    if is_closed s
    then (effect s (notify_unless ∷ []), ready_none)
    else if not (is_completed s)
    then (effect s [], pending)
    else (
      effect (new (union s.flags closed_flag) s.refcount)
          ((if is_awaiter s then notify_unless ∷ [] else []) ++ (read_output ∷ [])),
      ready_some,
    )

-- The exchanges of `ProcHandle::drop`: the output of a completed process is taken first.
unfoldable pub handle_take_output : State → Effect
handle_take_output s =
    if is_completed s && not (is_closed s)
    then effect (new (union s.flags closed_flag) s.refcount) (read_output ∷ [])
    else effect s []

unfoldable pub handle_release : State → Effect
handle_release s =
    effect
      (if s.refcount == 0 && not (is_closed s)
        then new (union scheduled_flag closed_flag) 1
        else new (intersection s.flags (complement handle_flag)) s.refcount)
      (if s.refcount == 0 then (if not (is_closed s) then schedule ∷ [] else destroy ∷ []) else [])

-- One pass of the loop that takes the lock in `ProcData::swap_awaiter`: the state after it, and if the
-- loop ends. It ends when the state before the pass was locked.
unfoldable pub swap_awaiter_pass : Bool → State → State × Bool
swap_awaiter_pass new_is_none s = (
  from_u64
      (fetch_or (if new_is_none then locked_flag else union locked_flag awaiter_flag) (into_u64 s)),
  is_locked s,
)

-- The release of the lock after the awaiter was replaced.
unfoldable pub swap_awaiter_release : Bool → State → State
swap_awaiter_release new_is_none s = from_u64 (
    fetch_and
      (if new_is_none
        then intersection (complement locked_flag) (complement awaiter_flag)
        else complement locked_flag)
      (into_u64 s))
