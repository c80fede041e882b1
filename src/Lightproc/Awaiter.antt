-- ===== src/Lightproc/Awaiter.antt =====
-- The awaiter of a process and its lock: `ProcData::swap_awaiter` in runtime/lightproc/src/proc_data.rs.
-- A waker is a value of any type.
use fabaccess_server.Prelude.{
  ℕ, zero, suc, ◌<◌, ◌^◌, ◌≡◌, ap, ◌∙◌, Bool, true, false, not, ◌||◌, if◌then◌else◌, Option, none,
  some, arith,
}
use fabaccess_server.Lightproc.State.{State, new}
use fabaccess_server.Lightproc.Transitions.{is_locked, swap_awaiter_pass, swap_awaiter_release}
use fabaccess_server.Lightproc.System.Invariant.{pass_lem, release_lem}

pub record ProcData {ℓ} (W : Type ℓ) : Type ℓ where
  pub state : State
  pub awaiter : Option W

abbrev pub is_none {ℓ} : {W : Type ℓ} → Option W → Bool
is_none none = true
is_none (some _) = false

-- The loop that takes the lock, by a thread that nobody disturbs; none when the passes run out.
unfoldable pub swap_awaiter_acquire : ℕ → Bool → State → Option State
swap_awaiter_acquire zero b s = none
swap_awaiter_acquire (suc fuel) b s =
    let rest = swap_awaiter_acquire fuel b (swap_awaiter_pass b s).0 in
    if (swap_awaiter_pass b s).1 then some (swap_awaiter_pass b s).0 else rest

-- Under the lock the awaiter is replaced; then the lock is released.
abbrev pub swap_awaiter_replace {ℓ} :
    {W : Type ℓ} → Option W → ProcData W → Option State → Option (Option W × ProcData W)
swap_awaiter_replace new_awaiter d none = none
swap_awaiter_replace new_awaiter d (some s) = some (
  d.awaiter,
  record { state = swap_awaiter_release (is_none new_awaiter) s; awaiter = new_awaiter },
)

-- The whole call: the awaiter before it, and what it leaves.
unfoldable pub swap_awaiter {ℓ} :
    {W : Type ℓ} → ℕ → Option W → ProcData W → Option (Option W × ProcData W)
unfolding swap_awaiter_acquire
swap_awaiter fuel new_awaiter d =
    swap_awaiter_replace new_awaiter d (swap_awaiter_acquire fuel (is_none new_awaiter) d.state)

-- Two threads at the lock, and which of them are past its loop.
pub record Contest : Type 0 where
  pub state : State
  pub first_inside : Bool
  pub second_inside : Bool

unfoldable pub first_pass : Bool → Contest → Contest
first_pass b c = record c {
  state = (swap_awaiter_pass b c.state).0;
  first_inside = (swap_awaiter_pass b c.state).1;
}

unfoldable pub second_pass : Bool → Contest → Contest
second_pass b c = record c {
  state = (swap_awaiter_pass b c.state).0;
  second_inside = (swap_awaiter_pass b c.state).1;
}

abbrev pub arrive : State → Contest
arrive s = record { state = s; first_inside = false; second_inside = false }

-- The state after a pass.
abbrev taken : Bool → State → State
taken b s = new (record s.flags { awaiter = s.flags.awaiter || not b; locked = true }) s.refcount

pass_eq :
    (b : Bool) (s : State) → s.refcount < 2 ^ 32 → swap_awaiter_pass b s ≡ (taken b s, is_locked s)
unfolding swap_awaiter_pass
pass_eq b s h = λ i. (pass_lem b s h i, is_locked s)

acquire_lem :
    (b : Bool) (s : State) → s.refcount < 2 ^ 32 → swap_awaiter_acquire 2 b s ≡ some (taken b s)
unfolding swap_awaiter_acquire
acquire_lem b s h = ground (arith, pass_eq b s h, pass_eq b (taken b s) h)

-- A thread that nobody disturbs gets through `swap_awaiter` in two passes of its loop, whether
-- LOCKED was set or not, if the count is below 2^32: it gets the awaiter of before and leaves the
-- new one, with AWAITER set exactly for a new awaiter, LOCKED clear, and the other flags and the
-- count as they were.
pub swap_awaiter_alone {ℓ} :
    {W : Type ℓ} (new_awaiter : Option W) (d : ProcData W)
    → d.state.refcount < 2 ^ 32
    → swap_awaiter 2 new_awaiter d
      ≡ some (
        d.awaiter,
        record {
          state =
              new
                (record d.state.flags { awaiter = not (is_none new_awaiter); locked = false })
                d.state.refcount;
          awaiter = new_awaiter;
        },
      )
unfolding swap_awaiter
swap_awaiter_alone new_awaiter d h =
    let b = is_none new_awaiter in
    ap (swap_awaiter_replace new_awaiter d) (acquire_lem b d.state h)
    ∙ ap (λ (s : State). some (d.awaiter, record { state = s; awaiter = new_awaiter }))
        (release_lem b (taken b d.state) h ∙ ground arith)

-- The lock of `swap_awaiter` keeps nobody out: from any state whose count is below 2^32, after
-- two passes of one thread and one of another both are past the loop, before either has released
-- the lock.
pub swap_awaiter_admits_both :
    (s : State) (a b : Bool)
    → s.refcount < 2 ^ 32
    → let c = second_pass b (first_pass a (first_pass a (arrive s))) in
      (c.first_inside ≡ true) × (c.second_inside ≡ true)
unfolding first_pass second_pass
swap_awaiter_admits_both s a b h =
    ground (arith, pass_eq a s h, pass_eq a (taken a s) h, pass_eq b (taken a (taken a s)) h)
