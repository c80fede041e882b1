-- ===== src/Api/Login/Logs.antt =====
-- What a client can get out of a login.
use fabaccess_server.Prelude.{
  ◌≡◌, refl, ◌⊎◌, inl, inr, Bool, Bool-cases, false, Option, none, some, Str, Result, ok, err,
  panic,
}
use fabaccess_server.Users.{User}
use fabaccess_server.Session.{SessionManager, SessionHandle, open_session}
use fabaccess_server.Authentication.Protocol.{
  SessionError, MessageSent, Progress, running, finished,
}
use fabaccess_server.Api.Login.{
  Sasl, State, invalid_mechanism, finished_state, aborted_state, running_state, Response,
  successful, failed, aborted, bad_mechanism, build_error, answer, step, create_session,
}

module _ (sasl : Sasl) where
  -- The state that is over: no session of a mechanism is left in it.
  abbrev pub IsOver : State sasl → Type 0
  IsOver (running_state session manager) = ⊥
  IsOver _ = Unit {0}

  -- Why a step answers with a session.
  pub record IsGranted (state : State sasl) (data_ : Option Str) (handle : SessionHandle)
      : Type 0 where
    pub session : sasl.Session
    pub manager : SessionManager
    pub input : Str
    pub user : User
    pub message_sent : MessageSent
    pub was_running : state ≡ running_state session manager
    pub got : data_ ≡ some input
    pub done : (sasl.step session input).2 ≡ ok (finished message_sent)
    pub validated : sasl.validation (sasl.step session input).0 ≡ some user
    pub opened : handle ≡ open_session manager user

  abbrev with_response : Option (State sasl × Response) → Option (State sasl × Option Response)
  with_response none = none
  with_response (some (state, response)) = some (state, some response)

  -- A step of the API's authentication answers with a session only when it was running, got
  -- data, its mechanism finished on them, and the session is opened for the user whom the
  -- mechanism let in; it is finished then.
  pub step-successful :
      (state state' : State sasl) (data_ : Option Str) (handle : SessionHandle) (extra : Option Str)
      → step sasl state data_ ≡ some (state', some (successful handle extra))
      → IsGranted state data_ handle × (state' ≡ finished_state)
  unfolding step
  step-successful invalid_mechanism state' data_ handle extra h = cc
  step-successful finished_state state' data_ handle extra h = cc
  step-successful aborted_state state' data_ handle extra h = cc
  step-successful (running_state session manager) state' none handle extra h = cc
  step-successful (running_state session manager) state' (some input) handle extra h =
      granted (sasl.step session input).2 refl (sasl.validation (sasl.step session input).0) refl h
    where
      after : sasl.Session
      after = (sasl.step session input).0

      out : Str
      out = (sasl.step session input).1

      granted :
          (r : Result SessionError Progress)
          → (sasl.step session input).2 ≡ r
          → (v : Option User) → sasl.validation after ≡ v
          → with_response (answer sasl manager (after, out, r))
            ≡ some (state', some (successful handle extra))
          → IsGranted (running_state session manager) (some input) handle
            × (state' ≡ finished_state)
      granted (err e) d v w h = cc
      granted panic d v w h = cc
      granted (ok running) d v w h = cc
      granted (ok (finished how)) d none w h = cc (rw (w, answer) at h)
      granted (ok (finished how)) d (some user) w h = (
        record {
          session = session;
          manager = manager;
          input = input;
          user = user;
          message_sent = how;
          was_running = refl;
          got = refl;
          done = d;
          validated = w;
          opened = cc (rw (w, answer) at h);
        },
        cc (rw (w, answer) at h),
      )

  -- A step of an authentication that is over answers that it was aborted.
  pub step-IsOver :
      (state : State sasl) (data_ : Option Str)
      → IsOver state
      → step sasl state data_ ≡ some (aborted_state, some (failed aborted))
  unfolding step
  step-IsOver (running_state session manager) data_ over = elim over [ ]
  step-IsOver invalid_mechanism data_ over = refl
  step-IsOver finished_state data_ over = refl
  step-IsOver aborted_state data_ over = refl

  -- For a mechanism whose name does not parse or that does not start, the state that
  -- `create_session` makes stands for the error of a bad mechanism, but its first step answers
  -- that the authentication was aborted, whatever the data.
  pub step-create_session :
      (parses : Str → Bool) (manager : SessionManager) (mechanism : Str) (data_ : Option Str)
      → (parses mechanism ≡ false) ⊎ (sasl.start mechanism ≡ none)
      → (build_error sasl (create_session sasl parses manager mechanism) ≡ failed bad_mechanism)
        × (step sasl (create_session sasl parses manager mechanism) data_
            ≡ some (aborted_state, some (failed aborted)))
  unfolding create_session build_error
  step-create_session parses manager mechanism data_ (inl h) =
      rw h (refl, step-IsOver invalid_mechanism data_ tt)
  step-create_session parses manager mechanism data_ (inr h) =
      elim (Bool-cases (parses mechanism)) [
        | inl named ↦ rw (named, h, create_session) (refl, step-IsOver invalid_mechanism data_ tt)
        | inr unnamed ↦ rw unnamed (refl, step-IsOver invalid_mechanism data_ tt)
      ]
