-- ===== src/Initiators/Process.antt =====
-- The process initiator, bffhd/initiators/process.rs: lines that a child process writes set the state
-- of a resource. What the child does is a parameter.
pub mod Lines
pub mod Ends
pub mod Polls
use fabaccess_server.Prelude.{
  ℕ, zero, suc, ◌+◌, Bool, true, false, not, Option, none, some, List, [], ◌∷◌, ◌++◌, ◌==◌,
  if◌then◌else◌, length, take, drop, lookup, is_utf8, Str, codes,
}
use fabaccess_server.Resources.Machine.{Status}
use fabaccess_server.Utils.Linebuffer.{
  LineBuffer, new, deref, get_mut_write, advance_valid, consume,
}

-- `iter().position(|b| *b == b'\n')`.
unfoldable pub position : ℕ → List ℕ → Option ℕ
position sep [] = none
position sep (c ∷ s) =
    let rest = position sep s in
    if c == sep then some 0 else elim rest [ none ↦ none | some i ↦ some (suc i) ]

-- `str::trim` on a line of whitespace is empty, and `serde_json` reads a message from a line.
pub record Text : Type 0 where
  pub is_blank : Str → Bool
  pub message_from_str : Str → Option Status

-- The status that a line sets.
unfoldable pub process_line : Text → Str → Option Status
process_line text [] = none
process_line text (c ∷ line) =
    if is_utf8 (c ∷ line)
    then (if not (text.is_blank (c ∷ line)) then text.message_from_str (c ∷ line) else none)
    else none

abbrev pub also : Option Status → List Status → List Status
also none statuses = statuses
also (some status) statuses = status ∷ statuses

abbrev pub with_line : Str → Option (ℕ × List Str) → Option (ℕ × List Str)
with_line line none = none
with_line line (some (end, lines)) = some (end, line ∷ lines)

-- The loop that `try_process` and the log of the standard errors have in common: where it ends, and
-- the lines on the way. `none` means that the fuel ran out.
unfoldable pub line_loop : ℕ → ℕ → List ℕ → Option (ℕ × List Str)
unfolding position
line_loop zero end buffer = none
line_loop (suc fuel) end buffer =
    let skip = line_loop fuel (end + 1) buffer in
    elim (position b'\n' (drop end buffer)) [
      | none ↦ some (end, [])
      | some zero ↦ skip
      | some (suc idx) ↦
          with_line (take (suc idx) (drop end buffer)) (line_loop fuel (suc idx) buffer)
    ]

unfoldable pub statuses_of : Text → List Str → List Status
unfolding process_line
statuses_of text [] = []
statuses_of text (line ∷ lines) = also (process_line text line) (statuses_of text lines)

-- `try_process`: how much was processed, and the statuses that were set, the first one first.
unfoldable pub try_process : ℕ → Text → List ℕ → Option (ℕ × List Status)
unfolding line_loop statuses_of
try_process fuel text buffer = elim (line_loop fuel 0 buffer) [
  | none ↦ none
  | some (end, lines) ↦ some (end, statuses_of text lines)
]

-- What the child's state is, and what a read of one of its outputs gives.
pub data ChildStatus : Type 0 where
  exited check_failed running : ChildStatus

pub data Reading : Type 0 where
  pending failed : Reading
  bytes : Str → Reading

-- `waiting` is `Poll::Pending`, and `completed` is `Poll::Ready`.
pub record Process : Type 0 where
  pub attached : Bool
  pub buffer : LineBuffer
  pub err_buffer : LineBuffer
  pub stderr_closed : Bool

pub data Polled : Type 0 where
  completed waiting : Process → List Status → Polled
  panicked : Polled

pub data ReadEnd : Type 0 where
  blocked errored : LineBuffer → ReadEnd
  read_panicked : ReadEnd

-- The bytes that a read puts behind the valid ones.
unfoldable pub write_behind : Str → LineBuffer → LineBuffer
write_behind s b = record b {
  buffer = take b.valid b.buffer ++ s ++ drop (b.valid + length s) b.buffer;
}

module _ (reserve : ℕ → ℕ → ℕ) (rest : ℕ → List ℕ) where
  -- The loop that reads until a read would block; `none` means that the fuel ran out.
  unfoldable pub read_loop : ℕ → ℕ → (ℕ → Reading) → LineBuffer → Option ReadEnd
  unfolding write_behind
  read_loop zero i reads b = none
  read_loop (suc fuel) i reads b = elim (get_mut_write reserve rest 512 b) [
    | none ↦ some read_panicked
    | some (grown, part) ↦ elim (reads i) [
      | pending ↦ some (blocked grown)
      | failed ↦ some (errored grown)
      | bytes s ↦ read_loop fuel (i + 1) reads (advance_valid (length s) (write_behind s grown))
    ]
  ]

  -- The log of the child's errors: it looks for lines in the buffer of the output.
  unfoldable pub log_errors : ℕ → Process → List Status → Option Polled
  unfolding line_loop
  log_errors fuel p statuses = elim (deref p.buffer) [
    | none ↦ some panicked
    | some output ↦ elim (line_loop fuel 0 output) [
      | none ↦ none
      | some (consumed, _) ↦ elim (consume consumed p.err_buffer) [
        | none ↦ some panicked
        | some left ↦ some (waiting (record p { err_buffer = left }) statuses)
      ]
    ]
  ]

  -- The read of the child's errors, and the log of them.
  unfoldable pub poll_errors : ℕ → (ℕ → Reading) → Process → List Status → Option Polled
  unfolding read_loop log_errors
  poll_errors fuel errors p statuses =
      if not p.stderr_closed
      then elim (read_loop fuel 0 errors p.err_buffer) [
        | none ↦ none
        | some (blocked b) ↦ log_errors fuel (record p { err_buffer = b }) statuses
        | some (errored b) ↦
            log_errors fuel (record p { err_buffer = b; stderr_closed = true }) statuses
        | some read_panicked ↦ some panicked
      ]
      else log_errors fuel p statuses

  -- Lines of the output are processed, and taken out of the buffer.
  unfoldable pub poll_output : ℕ → Text → (ℕ → Reading) → Process → Option Polled
  unfolding try_process poll_errors
  poll_output fuel text errors p = elim (deref p.buffer) [
    | none ↦ some panicked
    | some output ↦ elim (try_process fuel text output) [
      | none ↦ none
      | some (processed, statuses) ↦ elim (consume processed p.buffer) [
        | none ↦ some panicked
        | some left ↦ poll_errors fuel errors (record p { buffer = left }) statuses
      ]
    ]
  ]

  -- `Future::poll`: the state that it leaves and the statuses that it set.
  unfoldable pub poll :
      ℕ → Text → ChildStatus → (ℕ → Reading) → (ℕ → Reading) → Process → Option Polled
  unfolding read_loop poll_output
  poll fuel text check_failed outputs errors p = some (completed p [])
  poll fuel text exited outputs errors p = some (completed p [])
  poll fuel text running outputs errors p =
      if p.attached
      then elim (read_loop fuel 0 outputs p.buffer) [
        | none ↦ none
        | some (blocked b) ↦ poll_output fuel text errors (record p { buffer = b })
        | some (errored b) ↦ some (completed (record p { buffer = b }) [])
        | some read_panicked ↦ some panicked
      ]
      else some (completed p [])

-- `Initiator::new`; `none` is a missing command or a child that could not be started.
unfoldable pub new_process :
    (Str → List Str)
    → (Str → List Str → Bool)
    → List (Str × Str)
    → Option (Str × List Str × Process)
new_process split_whitespace spawns params = elim (lookup params (codes "cmd")) [
  | none ↦ none
  | some cmd ↦
      let args : List Str = elim (lookup params (codes "args")) [
        | none ↦ []
        | some argv ↦ split_whitespace argv
      ] in
      if spawns cmd args
      then some (
        cmd,
        args,
        record { attached = true; buffer = new; err_buffer = new; stderr_closed = false },
      )
      else none
]
