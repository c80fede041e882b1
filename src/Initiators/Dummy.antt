-- ===== src/Initiators/Dummy.antt =====
-- The dummy initiator, bffhd/initiators/dummy.rs: it uses and frees a machine in turn, two seconds
-- apart.
pub mod Flips
use fabaccess_server.Prelude.{
  ℕ, zero, suc, ◌+◌, Bool, true, false, Option, none, some, List, Str, codes, lookup,
}
use fabaccess_server.Session.{SessionManager, SessionHandle, try_open}
use fabaccess_server.Resources.Machine.{UserRef, Status, free, in_use}
use fabaccess_server.Resources.Store.{StateDb}
use fabaccess_server.Resources.Operations.{
  Run, ret, panicked, too_deep, ◌>>=◌, Resource, try_update,
}

-- A timer is running, with the status to ask for when it fires; or the future of an update, which
-- has not begun, is there to be polled.
pub data DummyState : Type 0 where
  empty : DummyState
  sleeping : Option Status → DummyState
  updating : Status → DummyState

-- The status after the one that is asked for.
unfoldable pub flip : UserRef → Status → Status
flip user free = in_use user
flip user (in_use _) = free
flip user _ = free

module _ (store : StateDb) where
  pub record Dummy : Type 0 where
    pub resource : Resource store
    pub session : SessionHandle
    pub state : DummyState

  -- `Initiator::new`; `none` is a missing or an unknown user.
  unfoldable pub new_dummy : List (Str × Str) → SessionManager → Resource store → Option Dummy
  new_dummy params sessions resource = elim (lookup params (codes "uid")) [
    | none ↦ none
    | some uid ↦ elim (try_open sessions uid) [
      | none ↦ none
      | some session ↦ some (record { resource = resource; session = session; state = empty })
    ]
  ]

  -- One pass of the loop: it goes on, or `poll` returns as pending.
  pub data Round : Type 0 where
    again return : Dummy → Round

  -- The arms of `poll`. `fired` tells whether a timer that is polled in this pass is ready.
  -- `try_update` awaits nothing, so that its future is ready when it is polled.
  unfoldable pub arm : ℕ → Bool → DummyState → Dummy → Run Round
  unfolding flip
  arm depth fired empty d = ret (again (record d { state = sleeping (some free) }))
  arm depth true (sleeping none) d = panicked
  arm depth true (sleeping (some status)) d = ret (again (record d { state = updating status }))
  arm depth false (sleeping next) d = ret (return d)
  arm depth fired (updating status) d =
      try_update store depth d.resource d.session status >>= λ resource. ret (
        again
          (record d { resource = resource; state = sleeping (some (flip d.session.user status)) }))

  -- `Future::poll` from pass `i` on; `none` means that the fuel ran out.
  unfoldable pub poll : ℕ → ℕ → (ℕ → Bool) → ℕ → Dummy → Option (Run Dummy)
  unfolding arm
  poll depth zero fired i d = none
  poll depth (suc fuel) fired i d = elim (arm depth (fired i) d.state d) [
    | ret (return d') ↦ some (ret d')
    | ret (again d') ↦ poll depth fuel fired (i + 1) d'
    | panicked ↦ some panicked
    | too_deep ↦ some too_deep
  ]
