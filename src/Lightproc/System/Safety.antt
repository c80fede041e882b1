-- ===== src/Lightproc/System/Safety.antt =====
-- What the invariant of a process means for those who share it: its memory, its future and its wake-ups.
use fabaccess_server.Prelude.{
  ◌+◌, ◌-◌, ◌<◌, ◌≤◌, ◌≡◌, ◌↔◌, ◌⊎◌, Bool, not, ◌||◌, true, false, ◌&&◌, if◌then◌else◌, arith,
}
use fabaccess_server.Lightproc.Transitions.{
  is_done, is_closed, is_completed, is_running, is_scheduled, is_handle, wake, wake_by_ref,
  clone_waker, decrement_ref, tick_ready, tick_pending, guard_drop, cancel, lightproc_drop,
  handle_poll, handle_take_output, handle_release,
}
use fabaccess_server.Lightproc.System.{
  Proc, perform_all, after, run, Step, wakes, wakes_by_ref, clones, drops_waker, drops_reference,
  runs, finishes, pends, panics, cancels, drops, polls_handle, takes_output, releases, locks,
  unlocks, Reach,
}
use fabaccess_server.Lightproc.System.Invariant.{
  Reach-Inv, add_lem, sub_lem, has_waker-pos, pass_lem, release_lem,
}

-- In every state that a process can reach without `ProcHandle::cancel`, its memory has been freed
-- exactly when no queued reference, no waker, no reference about to be dropped, no poller and no
-- handle is left.
pub destroyed_iff_unreferenced :
    {p : Proc}
    → Reach p
    → (p.destroyed ≡ true)
      ↔ ((p.queued + p.wakers + p.dropping + p.polling ≡ 0) × (p.handle ≡ false))
destroyed_iff_unreferenced {p} r = let v = Reach-Inv r in ground arith

-- In every state that a process can reach without `ProcHandle::cancel`, at most one thread polls
-- its future or is queued to do so; if there is one, the future is there; and no future or output
-- was dropped or read, and no memory freed, where it was not there.
pub polled_by_one :
    {p : Proc}
    → Reach p
    → (p.queued + p.polling ≤ 1)
      × ((p.queued + p.polling ≡ 0) ⊎ (p.future ≡ true))
      × (p.fault ≡ false)
polled_by_one {p} r = let v = Reach-Inv r in ground arith

-- For a process that can be reached without `ProcHandle::cancel`, is neither completed nor
-- closed, and has a waker: after a wake by value it is scheduled, and it is in the queue or a
-- thread polls it.
pub wake-not_lost :
    {p : Proc}
    → Reach p
    → 0 < p.wakers
    → is_done p.state ≡ false
    → let q = after (wake p.state) (record p { wakers = p.wakers - 1 }) in
      (is_scheduled q.state ≡ true) × (q.queued + q.polling ≡ 1)
unfolding wake perform_all
wake-not_lost {p} r h d = let v = Reach-Inv r in ground arith

-- When a thread that polls a process (reachable without `ProcHandle::cancel`) gets `Pending`,
-- then RUNNING is clear, the process is queued exactly if it was scheduled meanwhile and not
-- closed, and its future is gone if it was closed.
pub pending-requeued :
    {p : Proc}
    → Reach p
    → 0 < p.polling
    → let q = after (tick_pending p.state) (record p { polling = p.polling - 1 }) in
      (q.queued ≡ (if is_scheduled p.state && not (is_closed p.state) then 1 else 0))
      × (is_running q.state ≡ false)
      × ((is_closed p.state ≡ false) ⊎ (q.future ≡ false))
unfolding tick_pending perform_all
pending-requeued {p} r h = let v = Reach-Inv r in ground arith

-- What a step may never undo.
abbrev pub implies : Bool → Bool → Bool
implies a b = not a || b

abbrev pub Keeps : Proc → Proc → Type 0
Keeps p q =
    (implies (is_closed p.state) (is_closed q.state) ≡ true)
    × (implies (is_completed p.state) (is_completed q.state) ≡ true)
    × (implies (is_handle q.state) (is_handle p.state) ≡ true)
    × (implies q.future p.future ≡ true)
    × (implies p.destroyed q.destroyed ≡ true)

-- No step from a process that can be reached without `ProcHandle::cancel` reopens a closed
-- process, takes back a completion, brings back a dropped handle or a dropped future, or revives
-- freed memory.
pub Step-Keeps : {p q : Proc} → Reach p → Step p q → Keeps p q
unfolding wake wake_by_ref clone_waker decrement_ref run tick_ready tick_pending guard_drop cancel
    lightproc_drop handle_poll handle_take_output handle_release perform_all
Step-Keeps {p} r (wakes h) = let v = Reach-Inv r in ground arith
Step-Keeps {p} r (wakes_by_ref h b) = ground arith
Step-Keeps {p} r (clones h b) =
    let v = Reach-Inv r in let w = has_waker-pos p h in ground (arith, add_lem p.state)
Step-Keeps {p} r (drops_waker h) = ground arith
Step-Keeps {p} r (drops_reference h) = let v = Reach-Inv r in ground (arith, sub_lem p.state)
Step-Keeps {p} r (runs h) = ground arith
Step-Keeps {p} r (finishes h) = ground arith
Step-Keeps {p} r (pends h) = ground arith
Step-Keeps {p} r (panics h) = ground arith
Step-Keeps {p} r (cancels h) = ground arith
Step-Keeps {p} r (drops h) = ground arith
Step-Keeps {p} r (polls_handle h) = ground arith
Step-Keeps {p} r (takes_output h) = ground arith
Step-Keeps {p} r (releases h b) = let v = Reach-Inv r in ground arith
Step-Keeps {p} r (locks b) = let v = Reach-Inv r in ground (arith, pass_lem b p.state v.small)
Step-Keeps {p} r (unlocks b) = let v = Reach-Inv r in ground (arith, release_lem b p.state v.small)
