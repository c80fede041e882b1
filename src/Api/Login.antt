-- ===== src/Api/Login.antt =====
-- Logging in over the API: bffhd/capnp/authenticationsystem.rs and bffhd/capnp/connection.rs.
pub mod Logs
use fabaccess_server.Prelude.{
  Bool, Option, none, some, List, [], ◌∷◌, if◌then◌else◌, Str, Result, ok, err, panic,
}
use fabaccess_server.Users.{User}
use fabaccess_server.Session.{SessionManager, SessionHandle, open_session}
use fabaccess_server.Authentication.Protocol.{
  SessionError, MessageSent, sent, not_sent, Progress, running, finished,
}

-- A SASL session of `rsasl`, run by one of the server's mechanisms: a step reads data and writes an
-- answer; `validation` takes the user out that was let in. `start` gives a session for the name of a mechanism, if there is one.
pub record Sasl : Type 1 where
  pub Session : Type 0
  pub start : Str → Option Session
  pub step : Session → Str → Session × Str × Result SessionError Progress
  pub validation : Session → Option User

pub data ErrorCode : Type 0 where
  aborted bad_mechanism invalid_credentials : ErrorCode

-- The answer to a step. A session is built for the user who is let in, with data where the mechanism sent some.
pub data Response : Type 0 where
  successful : SessionHandle → Option Str → Response
  challenge : Str → Response
  failed : ErrorCode → Response
  -- No field of the answer is set.
  empty : Response

module _ (sasl : Sasl) where
  pub data State : Type 0 where
    invalid_mechanism finished_state aborted_state : State
    running_state : sasl.Session → SessionManager → State

  -- `build_error`.
  unfoldable pub build_error : State → Response
  build_error (running_state session manager) = empty
  build_error invalid_mechanism = failed bad_mechanism
  build_error finished_state = failed aborted
  build_error aborted_state = failed aborted

  -- What a step of the mechanism leads to; `none` is a panic.
  unfoldable pub answer :
      SessionManager → sasl.Session × Str × Result SessionError Progress → Option (State × Response)
  unfolding build_error
  answer manager (session, out, ok (finished message_sent)) = elim (sasl.validation session) [
    | some user ↦ some (
      finished_state,
      successful (open_session manager user)
          (elim message_sent [ sent ↦ some out | not_sent ↦ none ]),
    )
    | none ↦ some (finished_state, failed invalid_credentials)
  ]
  answer manager (session, out, ok running) = some (running_state session manager, challenge out)
  answer manager (session, out, err _) = some (aborted_state, build_error aborted_state)
  answer manager (session, out, panic) = none

  -- `step`: the state is replaced first, whatever it is. `none` for the data is a message that
  -- cannot be read, on which the method returns early.
  unfoldable pub step : State → Option Str → Option (State × Option Response)
  unfolding answer
  step (running_state session manager) none = some (aborted_state, none)
  step (running_state session manager) (some data_) =
      elim (answer manager (sasl.step session data_)) [
        | none ↦ none
        | some (state, response) ↦ some (state, some response)
      ]
  step invalid_mechanism data_ = some (aborted_state, some (build_error aborted_state))
  step finished_state data_ = some (aborted_state, some (build_error aborted_state))
  step aborted_state data_ = some (aborted_state, some (build_error aborted_state))

  unfoldable pub abort : State → State
  abort state = aborted_state

  -- `create_session`; `parses` tells whether the name is one of a mechanism.
  unfoldable pub create_session : (Str → Bool) → SessionManager → Str → State
  create_session parses manager mechanism =
      if parses mechanism
      then elim (sasl.start mechanism) [
        | none ↦ invalid_mechanism
        | some session ↦ running_state session manager
      ]
      else invalid_mechanism
