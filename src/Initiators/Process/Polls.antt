-- ===== src/Initiators/Process/Polls.antt =====
-- What a poll of the process initiator does with the child's outputs, and where it never ends.
use fabaccess_server.Prelude.{
  ℕ, zero, suc, ◌+◌, ◌≤◌, ◌<◌, ◌≡◌, refl, sym, ap, ◌∙◌, inl, inr, Bool, Bool-cases, not, true,
  Option, Option-cases, none, some, List, [], ◌∷◌, ◌++◌, if◌then◌else◌, length, length-append,
  length-drop, take, drop, Str, arith,
}
use fabaccess_server.Resources.Machine.{Status}
use fabaccess_server.Utils.Linebuffer.{LineBuffer, deref, get_mut_write, advance_valid}
use fabaccess_server.Utils.Linebuffer.Contents.{
  deref-get_mut_write, deref-consume, deref_lem, deref_fits, length-take,
}
use fabaccess_server.Initiators.Process.{
  position, line_loop, Text, try_process, Reading, pending, bytes, Process, Polled, waiting,
  panicked, ReadEnd, errored, read_panicked, write_behind, blocked, running, read_loop, log_errors,
  poll_errors, poll_output, poll,
}
use fabaccess_server.Initiators.Process.Lines.{newline, IsUnbroken, line_loop_diverges}
use fabaccess_server.Initiators.Process.Ends.{line_loop_end, line_loop_le, line_loop_still}

some_eq : {A : Type 0} {a b : A} → some a ≡ some b → a ≡ b
some_eq h = cc

-- The buffer is as long as its valid bytes or longer.
abbrev pub IsFitting : LineBuffer → Type 0
IsFitting b = b.valid ≤ length b.buffer

module _ (reserve : ℕ → ℕ → ℕ) (rest : ℕ → List ℕ)
    (room : (len more : ℕ) → len + more ≤ reserve len more)
    (filled : (n : ℕ) → length (rest n) ≡ n) where
  grown :
      (b : LineBuffer)
      → IsFitting b
      → (c : LineBuffer) × (part : List ℕ) × (get_mut_write reserve rest 512 b ≡ some (c, part))
        × (deref c ≡ deref b)
        × IsFitting c
  grown b fits =
      let (c, part, got, enough, same, whole) =
        deref-get_mut_write reserve rest room filled 512 b fits in
      (c, part, got, same, deref_fits c (same ∙ deref_lem b fits))

  -- When every read gives zero bytes, as after the end of the file, the buffer is as long as
  -- its valid bytes or longer, and the allocator gives the capacity and the memory asked for,
  -- then the read loop of the initiator's poll ends on no fuel.
  pub read_loop_diverges :
      (fuel i : ℕ) (b : LineBuffer)
      → IsFitting b
      → read_loop reserve rest fuel i (λ _. bytes []) b ≡ none
  unfolding read_loop write_behind advance_valid
  read_loop_diverges zero i b fits = refl
  read_loop_diverges (suc fuel) i b fits =
      let (c, part, got, same, fits') = grown b fits in
      rw (got, read_loop) (read_loop_diverges fuel (i + 1) _ (still c fits'))
    where
      still :
          (c : LineBuffer)
          → IsFitting c
          → c.valid + 0 ≤ length (take c.valid c.buffer ++ [] ++ drop (c.valid + 0) c.buffer)
      still c fits = omega (
        arith,
        length-append (take c.valid c.buffer ++ []) (drop (c.valid + 0) c.buffer),
        length-append (take c.valid c.buffer) [],
        length-take c.valid c.buffer fits,
        length-drop (c.valid + 0) c.buffer,
      )

  poll_output_diverges :
      (fuel : ℕ) (text : Text) (errors : ℕ → Reading) (p : Process) (one two more : Str)
      → deref p.buffer ≡ some (one ++ newline ∷ (two ++ newline ∷ more))
      → IsUnbroken one
      → IsUnbroken two
      → 0 < length two
      → poll_output reserve rest fuel text errors p ≡ none
  unfolding poll_output
  poll_output_diverges fuel text errors p one two more lines h k some_two =
      rw (lines, poll_output)
        (rw (line_loop_diverges one two more h k fuel 0 some_two (omega arith), try_process))

  -- When the buffer of an attached, running child is as long as its valid bytes or longer and
  -- begins with a line and a line that is not empty, each with its newline, the output has
  -- nothing more to read, and the allocator gives the capacity and the memory asked for, then
  -- the initiator's poll ends on no fuel.
  pub poll_diverges :
      (fuel : ℕ) (text : Text) (errors : ℕ → Reading) (p : Process) (one two more : Str)
      → p.attached ≡ true
      → IsFitting p.buffer
      → deref p.buffer ≡ some (one ++ newline ∷ (two ++ newline ∷ more))
      → IsUnbroken one
      → IsUnbroken two
      → 0 < length two
      → poll reserve rest fuel text running (λ _. pending) errors p ≡ none
  unfolding poll
  poll_diverges zero text errors p one two more at fits lines h k some_two = rw at
  poll_diverges (suc fuel) text errors p one two more at fits lines h k some_two =
      let (c, part, got, same, fits') = grown p.buffer fits in
      rw (at, got, read_loop)
        (poll_output_diverges (suc fuel) text errors (record p { buffer = c }) one two more
          (same ∙ lines) h k some_two)

  -- The rest of a buffer that was processed has no newline, so nothing of the errors is consumed.
  log_errors_lem :
      (fuel : ℕ) (p : Process) (statuses : List Status) (output : Str)
      → IsFitting p.err_buffer
      → deref p.buffer ≡ some output
      → position newline output ≡ none
      → (left : LineBuffer) × (log_errors reserve rest (suc fuel) p statuses
          ≡ some (waiting (record p { err_buffer = left }) statuses))
        × (deref left ≡ deref p.err_buffer)
  unfolding log_errors
  log_errors_lem fuel p statuses output fits out clean =
      let (left, done, same, size) = deref-consume 0 p.err_buffer (omega arith) fits in
      (
        left,
        rw (out, log_errors) (rw (line_loop_still fuel output clean, done)),
        same ∙ sym (deref_lem p.err_buffer fits),
      )

  read_loop-pending :
      (fuel : ℕ) (b c : LineBuffer) (part : List ℕ)
      → get_mut_write reserve rest 512 b ≡ some (c, part)
      → read_loop reserve rest (suc fuel) 0 (λ _. pending) b ≡ some (blocked c)
  unfolding read_loop
  read_loop-pending fuel b c part got = rw (got, read_loop)

  poll_errors_lem :
      (fuel : ℕ) (p : Process) (statuses : List Status) (output : Str)
      → IsFitting p.err_buffer
      → deref p.buffer ≡ some output
      → position newline output ≡ none
      → (p' : Process) × (poll_errors reserve rest (suc fuel) (λ _. pending) p statuses
          ≡ some (waiting p' statuses))
        × (deref p'.buffer ≡ deref p.buffer)
        × (deref p'.err_buffer ≡ deref p.err_buffer)
  unfolding poll_errors
  poll_errors_lem fuel p statuses output fits out clean = elim (Bool-cases p.stderr_closed) [
    | inl closed ↦
        let (left, logged, same) = log_errors_lem fuel p statuses output fits out clean in
        (
          record p { err_buffer = left },
          ap (λ (b : Bool). if not b then reading else logs) closed ∙ logged,
          refl,
          same,
        )
    | inr open_ ↦
        let (c, part, got, same, fits') = grown p.err_buffer fits in
        let (left, logged, same') =
          log_errors_lem fuel (record p { err_buffer = c }) statuses output fits' out clean in
        (
          record p { err_buffer = left },
          ap (λ (b : Bool). if not b then reading else logs) open_
              ∙ ap read_end (read_loop-pending fuel p.err_buffer c part got)
              ∙ logged,
          refl,
          same' ∙ same,
        )
  ]
    where
      logs : Option Polled
      logs = log_errors reserve rest (suc fuel) p statuses

      read_end : Option ReadEnd → Option Polled
      read_end none = none
      read_end (some (blocked b)) =
          log_errors reserve rest (suc fuel) (record p { err_buffer = b }) statuses
      read_end (some (errored b)) =
          log_errors reserve rest (suc fuel) (record p { err_buffer = b; stderr_closed = true })
            statuses
      read_end (some read_panicked) = some panicked

      reading : Option Polled
      reading = read_end (read_loop reserve rest (suc fuel) 0 (λ _. pending) p.err_buffer)

  try_process-eq_some :
      (fuel : ℕ) (text : Text) (output : Str) {processed : ℕ} {statuses : List Status}
      → try_process fuel text output ≡ some (processed, statuses)
      → (lines : List Str) × (line_loop fuel 0 output ≡ some (processed, lines))
  unfolding try_process
  try_process-eq_some fuel text output h = elim (Option-cases (line_loop fuel 0 output)) [
    | inl out ↦ cc (rw (out, try_process) at h)
    | inr ((end, lines), e) ↦ (lines, e ∙ ap (λ n. some (n, lines)) (cc (rw (e, try_process) at h)))
  ]

  -- When the output's lines are processed on the fuel, both buffers are as long as their valid
  -- bytes or longer, the child's errors have nothing to read, and the allocator gives the
  -- capacity and the memory asked for: the rest of the poll ends as pending with the statuses
  -- of the lines, takes the processed bytes off the output's buffer, and takes nothing off the
  -- buffer of the errors, whatever is in it.
  pub poll_output_lem :
      (fuel : ℕ) (text : Text) (p : Process) (output : Str) (processed : ℕ) (statuses : List Status)
      → IsFitting p.buffer
      → IsFitting p.err_buffer
      → deref p.buffer ≡ some output
      → try_process fuel text output ≡ some (processed, statuses)
      → (p' : Process) × (poll_output reserve rest fuel text (λ _. pending) p
          ≡ some (waiting p' statuses))
        × (deref p'.buffer ≡ some (drop processed output))
        × (deref p'.err_buffer ≡ deref p.err_buffer)
  unfolding poll_output
  poll_output_lem zero text p output processed statuses fits err_fits out done = cc
  poll_output_lem (suc fuel) text p output processed statuses fits err_fits out done =
      let (lines, looped) = try_process-eq_some (suc fuel) text output done in
      let content : take p.buffer.valid p.buffer.buffer ≡ output =
        some_eq (sym (deref_lem p.buffer fits) ∙ out) in
      let size : length output ≡ p.buffer.valid =
        ap length (sym content) ∙ length-take p.buffer.valid p.buffer.buffer fits in
      let (left, consumed, kept, _) =
        deref-consume processed p.buffer
          (omega (arith, line_loop_le (suc fuel) 0 output processed lines (omega arith) looped))
          fits in
      let after = kept ∙ ap (λ (s : Str). some (drop processed s)) content in
      let (p', polled, same, err_same) =
        poll_errors_lem fuel (record p { buffer = left }) statuses (drop processed output) err_fits
          after (line_loop_end (suc fuel) 0 output processed lines looped) in
      (p', rw (out, poll_output) (rw (done) (rw (consumed) polled)), same ∙ after, err_same)
