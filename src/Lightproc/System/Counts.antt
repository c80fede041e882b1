-- ===== src/Lightproc/System/Counts.antt =====
-- `ProcHandle::cancel`, and the last reference to a process that still has its future.
use fabaccess_server.Prelude.{◌+◌, ◌-◌, ◌<◌, ◌^◌, ◌≡◌, true, false, if◌then◌else◌, arith}
use fabaccess_server.Lightproc.Transitions.{
  is_done, is_active, is_running, is_completed, tick_ready, decrement_ref, handle_cancel,
}
use fabaccess_server.Lightproc.System.{Proc, perform_all, after, Reach}
use fabaccess_server.Lightproc.System.Invariant.{Reach-Inv, sub_lem}

-- After `ProcHandle::cancel` of a process that is reachable without it, neither completed nor
-- closed, and whose count is below 2^32 - 1, the count is no longer that of the references: it is
-- one above where the process was scheduled or running, and one below where it was idle.
pub handle_cancel_miscounts :
    {p : Proc}
    → Reach p
    → is_done p.state ≡ false
    → p.state.refcount + 1 < 2 ^ 32
    → let q = after (handle_cancel p.state) p in
      let references = q.queued + q.wakers + q.dropping + q.polling in
      if is_active p.state
      then q.state.refcount ≡ references + 1
      else q.state.refcount + 1 ≡ references
unfolding handle_cancel perform_all
handle_cancel_miscounts {p} r d b = let v = Reach-Inv r in ground arith

-- When the only reference to a process (reachable without `ProcHandle::cancel`) is dropped and no
-- handle is left, its memory is freed, and a future that is still there has not been dropped.
pub last_reference_keeps_future :
    {p : Proc}
    → Reach p
    → p.state.refcount ≡ 1
    → p.dropping ≡ 1
    → p.handle ≡ false
    → let q = after (decrement_ref p.state) (record p { dropping = p.dropping - 1 }) in
      (q.destroyed ≡ true) × (q.future ≡ p.future)
unfolding decrement_ref perform_all
last_reference_keeps_future {p} r one d h = let v = Reach-Inv r in ground (arith, sub_lem p.state)

-- After the future of a polled process (reachable without `ProcHandle::cancel`) has returned
-- `Ready`, the process is completed and its RUNNING flag is still set.
pub ready_keeps_running :
    {p : Proc}
    → Reach p
    → 0 < p.polling
    → let q = after (tick_ready p.state) (record p { polling = p.polling - 1 }) in
      (is_completed q.state ≡ true) × (is_running q.state ≡ true)
unfolding tick_ready perform_all
ready_keeps_running {p} r h = let v = Reach-Inv r in ground arith
