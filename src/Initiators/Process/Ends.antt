-- ===== src/Initiators/Process/Ends.antt =====
-- Where the loop over the lines of a buffer ends.
use fabaccess_server.Prelude.{
  ℕ, zero, suc, ◌+◌, ◌≤◌, ◌<◌, ◌≡◌, refl, sym, ◌∙◌, inl, inr, Bool-cases, Option, none, some, List,
  [], ◌∷◌, ◌==◌, length, length-drop, take, drop, Str, arith,
}
use fabaccess_server.Initiators.Process.{position, with_line, line_loop}
use fabaccess_server.Initiators.Process.Lines.{
  newline, line_loop_stop, line_loop_skip, line_loop_process,
}

-- Where the loop ends there is no newline any more.
with_line-eq_some :
    (line : Str) (o : Option (ℕ × List Str)) {end : ℕ} {lines : List Str}
    → with_line line o ≡ some (end, lines)
    → (more : List Str) × (o ≡ some (end, more))
with_line-eq_some line none h = cc
with_line-eq_some line (some (e, more)) h = (more, cc)

line_loop-zero : (e : ℕ) (buffer : Str) → line_loop zero e buffer ≡ none
unfolding line_loop
line_loop-zero e buffer = refl

pub line_loop_end :
    (fuel e : ℕ) (buffer : Str) (end : ℕ) (lines : List Str)
    → line_loop fuel e buffer ≡ some (end, lines)
    → position newline (drop end buffer) ≡ none
line_loop_end zero e buffer end lines h = cc (line_loop-zero e buffer)
line_loop_end (suc fuel) e buffer end lines h =
    ends (position newline (drop e buffer)) refl
      (λ e' more h'. line_loop_end fuel e' buffer end more h')
  where
    ends :
        (o : Option ℕ)
        → position newline (drop e buffer) ≡ o
        → ((e' : ℕ) (more : List Str)
            → line_loop fuel e' buffer ≡ some (end, more)
            → position newline (drop end buffer) ≡ none)
        → position newline (drop end buffer) ≡ none
    ends none found ih =
        let same : e ≡ end = cc (line_loop_stop fuel e buffer found) in rw (← same) found
    ends (some zero) found ih = ih (e + 1) lines (sym (line_loop_skip fuel e buffer found) ∙ h)
    ends (some (suc idx)) found ih =
        let (more, h') =
          with_line-eq_some (take (suc idx) (drop e buffer)) (line_loop fuel (suc idx) buffer)
            (sym (line_loop_process fuel e buffer idx found) ∙ h) in
        ih (suc idx) more h'

position_lt : (s : Str) (i : ℕ) → position newline s ≡ some i → i < length s
unfolding position
position_lt [] i h = cc
position_lt (c ∷ s) i h = elim (Bool-cases (c == newline)) [
  | inl at ↦ let first : i ≡ 0 = cc (rw (at) at h) in omega arith
  | inr other ↦ behind (λ j e. position_lt s j e) (position newline s) refl (rw (other) at h)
]
  where
    behind :
        ((j : ℕ) → position newline s ≡ some j → j < length s)
        → (o : Option ℕ) → position newline s ≡ o
        → elim o [ none ↦ none | some j ↦ some (suc j) ] ≡ some i
        → i < suc (length s)
    behind ih none e h = cc
    behind ih (some j) e h = let next : i ≡ suc j = cc in omega (arith, ih j e)

-- The loop stays in the buffer.
pub line_loop_le :
    (fuel e : ℕ) (buffer : Str) (end : ℕ) (lines : List Str)
    → e ≤ length buffer
    → line_loop fuel e buffer ≡ some (end, lines)
    → end ≤ length buffer
line_loop_le zero e buffer end lines le h = absurd (cc (line_loop-zero e buffer))
line_loop_le (suc fuel) e buffer end lines le h =
    ends (position newline (drop e buffer)) refl
      (λ e' more le' h'. line_loop_le fuel e' buffer end more le' h')
  where
    ends :
        (o : Option ℕ)
        → position newline (drop e buffer) ≡ o
        → ((e' : ℕ) (more : List Str)
            → e' ≤ length buffer
            → line_loop fuel e' buffer ≡ some (end, more)
            → end ≤ length buffer)
        → end ≤ length buffer
    ends none found ih = let same : e ≡ end = cc (line_loop_stop fuel e buffer found) in omega arith
    ends (some zero) found ih =
        ih (e + 1) lines (omega (arith, position_lt (drop e buffer) 0 found, length-drop e buffer))
          (sym (line_loop_skip fuel e buffer found) ∙ h)
    ends (some (suc idx)) found ih =
        let (more, h') =
          with_line-eq_some (take (suc idx) (drop e buffer)) (line_loop fuel (suc idx) buffer)
            (sym (line_loop_process fuel e buffer idx found) ∙ h) in
        ih (suc idx) more
          (omega (arith, position_lt (drop e buffer) (suc idx) found, length-drop e buffer)) h'

-- With no newline in sight the loop ends where it began.
pub line_loop_still :
    (fuel : ℕ) (buffer : Str)
    → position newline buffer ≡ none
    → line_loop (suc fuel) 0 buffer ≡ some (0, [])
line_loop_still fuel buffer p = line_loop_stop fuel 0 buffer p
