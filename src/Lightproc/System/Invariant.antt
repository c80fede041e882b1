-- ===== src/Lightproc/System/Invariant.antt =====
-- What holds of a process at every moment of its life, without `ProcHandle::cancel`.
use fabaccess_server.Prelude.{
  ◌+◌, ◌-◌, ◌<◌, ◌≤◌, ◌^◌, ◌≡◌, ap, ◌∙◌, Bool, true, false, not, ◌&&◌, ◌||◌, [], arith,
}
use fabaccess_server.Lightproc.State.{
  State, StateFlags, locked_flag, awaiter_flag, new, union, intersection, complement, set_refcount,
  into_u64, from_u64, fetch_or, fetch_and, fetch_add, fetch_sub,
}
use fabaccess_server.Lightproc.State.Word.{
  from_u64-into_u64, fetch_add-into_u64, fetch_sub-into_u64, fetch_or-into_u64, fetch_and-into_u64,
}
use fabaccess_server.Lightproc.Transitions.{
  wake, wake_by_ref, clone_waker, decrement_ref, tick_ready, tick_pending, guard_drop, cancel,
  lightproc_drop, handle_poll, handle_take_output, handle_release, swap_awaiter_pass,
  swap_awaiter_release,
}
use fabaccess_server.Lightproc.System.{
  Proc, perform_all, after, build, run, has_waker, Step, wakes, wakes_by_ref, clones, drops_waker,
  drops_reference, runs, finishes, pends, panics, cancels, drops, polls_handle, takes_output,
  releases, locks, unlocks, Reach, built, later,
}

pub record Inv (p : Proc) : Type 0 where
  -- the count is that of the references
  pub counted : p.state.refcount ≡ p.queued + p.wakers + p.dropping + p.polling
  pub small : p.state.refcount < 2 ^ 32
  pub held : p.state.flags.handle ≡ p.handle
  -- one thread at most runs the process or is about to
  pub alone : p.queued + p.polling ≤ 1
  pub runs : 0 < p.polling → (p.state.flags.running ≡ true) × (p.state.flags.completed ≡ false)
  pub waits :
      0 < p.queued
      → (p.state.flags.completed ≡ false)
        × ((p.state.flags.scheduled || p.state.flags.closed) ≡ true)
  -- a live process that is scheduled is in the queue, or runs
  pub polled :
      p.state.flags.completed ≡ false
      → p.state.flags.closed ≡ false
      → p.state.flags.running ≡ true
      → p.polling ≡ 1
  pub queues :
      p.state.flags.completed ≡ false
      → p.state.flags.closed ≡ false
      → p.state.flags.running ≡ false
      → p.state.flags.scheduled ≡ true
      → p.queued ≡ 1
  pub unfinished : p.state.flags.completed ≡ false → p.state.flags.closed ≡ false → p.future ≡ true
  pub owned : 0 < p.queued + p.polling → p.future ≡ true
  pub stored : p.state.flags.completed ≡ true → p.state.flags.closed ≡ false → p.output ≡ true
  -- freed exactly when nobody is left
  pub freed : p.destroyed ≡ true → (p.state.refcount ≡ 0) × (p.handle ≡ false)
  pub no_leak : p.state.refcount ≡ 0 → p.handle ≡ false → p.destroyed ≡ true
  pub no_fault : p.fault ≡ false

wakes-Inv :
    (p : Proc)
    → 0 < p.wakers
    → Inv p
    → Inv (after (wake p.state) (record p { wakers = p.wakers - 1 }))
unfolding wake perform_all
wakes-Inv p h v = ground arith

wakes_by_ref-Inv :
    (p : Proc)
    → p.state.refcount + 1 < 2 ^ 32
    → Inv p
    → 0 < p.wakers + p.polling
    → Inv (after (wake_by_ref p.state) p)
unfolding wake_by_ref perform_all
wakes_by_ref-Inv p h v w = ground arith

-- Within its bounds the count moves alone.
pub add_lem :
    (s : State)
    → s.refcount + 1 < 2 ^ 32
    → from_u64 (fetch_add 1 (into_u64 s)) ≡ set_refcount s (s.refcount + 1)
add_lem s h =
    ap from_u64 (fetch_add-into_u64 1 s h) ∙ from_u64-into_u64 (set_refcount s (s.refcount + 1)) h

pub sub_lem :
    (s : State)
    → 0 < s.refcount
    → s.refcount < 2 ^ 32
    → from_u64 (fetch_sub 1 (into_u64 s)) ≡ set_refcount s (s.refcount - 1)
sub_lem s pos h =
    ap from_u64 (fetch_sub-into_u64 1 s pos h)
    ∙ from_u64-into_u64 (set_refcount s (s.refcount - 1)) (omega arith)

clones-Inv :
    (p : Proc)
    → (clone_waker p.state).actions ≡ []
    → Inv p
    → 0 < p.wakers + p.polling
    → Inv (after (clone_waker p.state) (record p { wakers = p.wakers + 1 }))
unfolding clone_waker perform_all
clones-Inv p h v w = ground (arith, add_lem p.state)

drops_reference-Inv :
    (p : Proc)
    → 0 < p.dropping
    → Inv p
    → Inv (after (decrement_ref p.state) (record p { dropping = p.dropping - 1 }))
unfolding decrement_ref perform_all
drops_reference-Inv p h v = ground (arith, sub_lem p.state)

runs-Inv : (p : Proc) → 0 < p.queued → Inv p → Inv (run p)
unfolding run
runs-Inv p h v = ground arith

finishes-Inv :
    (p : Proc)
    → 0 < p.polling
    → Inv p
    → Inv (after (tick_ready p.state) (record p { polling = p.polling - 1 }))
unfolding tick_ready perform_all
finishes-Inv p h v = ground arith

pends-Inv :
    (p : Proc)
    → 0 < p.polling
    → Inv p
    → Inv (after (tick_pending p.state) (record p { polling = p.polling - 1 }))
unfolding tick_pending perform_all
pends-Inv p h v = ground arith

panics-Inv :
    (p : Proc)
    → 0 < p.polling
    → Inv p
    → Inv (after (guard_drop p.state) (record p { polling = p.polling - 1 }))
unfolding guard_drop perform_all
panics-Inv p h v = ground arith

cancels-Inv : (p : Proc) → 0 < p.queued → Inv p → Inv (after (cancel p.state) p)
unfolding cancel perform_all
cancels-Inv p h v = ground arith

drops-Inv :
    (p : Proc)
    → 0 < p.queued
    → Inv p
    → Inv (after (lightproc_drop p.state) (record p { queued = p.queued - 1 }))
unfolding lightproc_drop perform_all
drops-Inv p h v = ground arith

polls_handle-Inv : (p : Proc) → p.handle ≡ true → Inv p → Inv (after (handle_poll p.state).0 p)
unfolding handle_poll perform_all
polls_handle-Inv p h v = ground arith

takes_output-Inv : (p : Proc) → p.handle ≡ true → Inv p → Inv (after (handle_take_output p.state) p)
unfolding handle_take_output perform_all
takes_output-Inv p h v = ground arith

releases-Inv :
    (p : Proc)
    → p.handle ≡ true
    → (p.state.flags.completed && not p.state.flags.closed) ≡ false
    → Inv p
    → Inv (after (handle_release p.state) (record p { handle = false }))
unfolding handle_release perform_all
releases-Inv p h taken v = ground arith

or_lem :
    (val : StateFlags) (s : State)
    → s.refcount < 2 ^ 32
    → from_u64 (fetch_or val (into_u64 s)) ≡ new (union s.flags val) s.refcount
or_lem val s h =
    ap from_u64 (fetch_or-into_u64 val s h)
    ∙ from_u64-into_u64 (new (union s.flags val) s.refcount) h

and_lem :
    (val : StateFlags) (s : State)
    → s.refcount < 2 ^ 32
    → from_u64 (fetch_and val (into_u64 s)) ≡ new (intersection s.flags val) s.refcount
and_lem val s h =
    ap from_u64 (fetch_and-into_u64 val s h)
    ∙ from_u64-into_u64 (new (intersection s.flags val) s.refcount) h

-- A pass of the lock loop sets LOCKED, and AWAITER for a new awaiter.
pub pass_lem :
    (b : Bool) (s : State)
    → s.refcount < 2 ^ 32
    → (swap_awaiter_pass b s).0
      ≡ new (record s.flags { awaiter = s.flags.awaiter || not b; locked = true }) s.refcount
unfolding swap_awaiter_pass
pass_lem true s h = or_lem locked_flag s h ∙ ground arith
pass_lem false s h = or_lem (union locked_flag awaiter_flag) s h ∙ ground arith

-- The release clears LOCKED, and AWAITER where there is no new awaiter.
pub release_lem :
    (b : Bool) (s : State)
    → s.refcount < 2 ^ 32
    → swap_awaiter_release b s
      ≡ new (record s.flags { awaiter = s.flags.awaiter && not b; locked = false }) s.refcount
unfolding swap_awaiter_release
release_lem true s h =
    and_lem (intersection (complement locked_flag) (complement awaiter_flag)) s h ∙ ground arith
release_lem false s h = and_lem (complement locked_flag) s h ∙ ground arith

locks-Inv :
    (p : Proc) (b : Bool) → Inv p → Inv (record p { state = (swap_awaiter_pass b p.state).0 })
locks-Inv p b v = ground (arith, pass_lem b p.state v.small)

unlocks-Inv :
    (p : Proc) (b : Bool) → Inv p → Inv (record p { state = swap_awaiter_release b p.state })
unlocks-Inv p b v = ground (arith, release_lem b p.state v.small)

build-Inv : Inv build
unfolding build
build-Inv = ground arith

pub has_waker-pos : (p : Proc) → has_waker p ≡ true → 0 < p.wakers + p.polling
has_waker-pos p h = ground arith

-- Every step keeps the invariant.
pub Step-Inv : {p q : Proc} → Step p q → Inv p → Inv q
Step-Inv {p} (wakes h) v = wakes-Inv p h v
Step-Inv {p} (wakes_by_ref h b) v = wakes_by_ref-Inv p b v (has_waker-pos p h)
Step-Inv {p} (clones h b) v = clones-Inv p b v (has_waker-pos p h)
Step-Inv {p} (drops_waker h) v = ground arith
Step-Inv {p} (drops_reference h) v = drops_reference-Inv p h v
Step-Inv {p} (runs h) v = runs-Inv p h v
Step-Inv {p} (finishes h) v = finishes-Inv p h v
Step-Inv {p} (pends h) v = pends-Inv p h v
Step-Inv {p} (panics h) v = panics-Inv p h v
Step-Inv {p} (cancels h) v = cancels-Inv p h v
Step-Inv {p} (drops h) v = drops-Inv p h v
Step-Inv {p} (polls_handle h) v = polls_handle-Inv p h v
Step-Inv {p} (takes_output h) v = takes_output-Inv p h v
Step-Inv {p} (releases h b) v = releases-Inv p h b v
Step-Inv {p} (locks b) v = locks-Inv p b v
Step-Inv {p} (unlocks b) v = unlocks-Inv p b v

-- So it holds at every moment of a process's life.
pub Reach-Inv : {p : Proc} → Reach p → Inv p
Reach-Inv built = build-Inv
Reach-Inv (later r st) = Step-Inv st (Reach-Inv r)
