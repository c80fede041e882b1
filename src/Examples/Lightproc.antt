-- ===== src/Examples/Lightproc.antt =====
-- One process and its wakers, runtime/lightproc.
use fabaccess_server.Prelude.{◌+◌, ◌-◌, ◌≤◌, ◌≡◌, refl, ◌↔◌, ◌⊎◌, true, false, arith}
use fabaccess_server.Lightproc.State.{
  State, new, into_u64, from_u64, fetch_add, bits, from_bits_unchecked, handle_flag,
}
use fabaccess_server.Lightproc.Transitions.{
  is_scheduled, wake, clone_waker, tick_enter, handle_release,
}
use fabaccess_server.Lightproc.System.{
  Proc, perform_all, after, build, run, Step, clones, runs, Reach, built, later,
}
use fabaccess_server.Lightproc.System.Safety.{
  destroyed_iff_unreferenced, polled_by_one, wake-not_lost, Keeps, Step-Keeps,
}

-- A thread runs the process, which clones its waker.
abbrev running : Proc
running = run build

abbrev woken : Proc
woken = after (clone_waker running.state) (record running { wakers = running.wakers + 1 })

runs_built : Step build running
unfolding build
runs_built = runs (omega arith)

running-Reach : Reach running
running-Reach = later built runs_built

woken-Reach : Reach woken
unfolding build run clone_waker tick_enter perform_all from_u64 into_u64 fetch_add bits
    from_bits_unchecked
woken-Reach = later running-Reach (clones refl refl)

destroyed_iff_unreferenced_example :
    (woken.destroyed ≡ true)
    ↔ ((woken.queued + woken.wakers + woken.dropping + woken.polling ≡ 0) × (woken.handle ≡ false))
destroyed_iff_unreferenced_example = destroyed_iff_unreferenced woken-Reach

polled_by_one_example :
    (woken.queued + woken.polling ≤ 1)
    × ((woken.queued + woken.polling ≡ 0) ⊎ (woken.future ≡ true))
    × (woken.fault ≡ false)
polled_by_one_example = polled_by_one woken-Reach

wake-not_lost_example :
    let q = after (wake woken.state) (record woken { wakers = woken.wakers - 1 }) in
    (is_scheduled q.state ≡ true) × (q.queued + q.polling ≡ 1)
unfolding build run clone_waker tick_enter perform_all from_u64 into_u64 fetch_add bits
    from_bits_unchecked
wake-not_lost_example = wake-not_lost woken-Reach (omega arith) refl

Step-Keeps_example : Keeps build running
Step-Keeps_example = Step-Keeps built runs_built

-- The handle is dropped, and the process waits for something without a waker.
abbrev detached : Proc
detached = after (handle_release build.state) (record build { handle = false })

abbrev detached_running : Proc
detached_running = run detached

abbrev idle : State
idle = new handle_flag 1
