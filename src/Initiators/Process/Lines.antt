-- ===== src/Initiators/Process/Lines.antt =====
-- The loop over the lines of a child process: one line is processed, two are too many.
use fabaccess_server.Prelude.{
  ℕ, zero, suc, ◌+◌, ◌-◌, ◌≤◌, ◌<◌, ◌≡◌, ◌⊎◌, inl, inr, refl, ap, ◌∙◌, false, Bool-cases, none,
  some, [], ◌∷◌, ◌++◌, ◌==◌, leb, length, take, take-append_length, drop, All, Str, arith,
}
use fabaccess_server.Initiators.Process.{position, line_loop, with_line}

abbrev pub newline : ℕ
newline = b'\n'

-- A piece of a line.
abbrev pub IsUnbroken : Str → Type 0
IsUnbroken = All (λ c. (c == newline) ≡ false)

position-unbroken : (line : Str) → IsUnbroken line → position newline line ≡ none
unfolding position
position-unbroken [] h = refl
position-unbroken (c ∷ line) (n, h) = rw (n, position-unbroken line h)

position-append :
    (line rest : Str)
    → IsUnbroken line
    → position newline (line ++ newline ∷ rest) ≡ some (length line)
unfolding position
position-append [] rest h = refl
position-append (c ∷ line) rest (n, h) = rw (n, position-append line rest h)

drop-IsUnbroken : (e : ℕ) (line : Str) → IsUnbroken line → IsUnbroken (drop e line)
drop-IsUnbroken zero line h = h
drop-IsUnbroken (suc e) [] h = tt
drop-IsUnbroken (suc e) (c ∷ line) (n, h) = drop-IsUnbroken e line h

-- What stands between two places of a first part and a rest.
drop-append-le : (e : ℕ) (xs ys : Str) → e ≤ length xs → drop e (xs ++ ys) ≡ drop e xs ++ ys
drop-append-le zero xs ys h = refl
drop-append-le (suc e) [] ys h = absurd (omega arith)
drop-append-le (suc e) (x ∷ xs) ys h = drop-append-le e xs ys (omega arith)

drop-append-ge : (e : ℕ) (xs ys : Str) → length xs ≤ e → drop e (xs ++ ys) ≡ drop (e - length xs) ys
drop-append-ge zero [] ys h = refl
drop-append-ge zero (x ∷ xs) ys h = absurd (omega arith)
drop-append-ge (suc e) [] ys h =
    let same : suc e ≡ suc e - 0 = omega arith in ap (λ n. drop n ys) same
drop-append-ge (suc e) (x ∷ xs) ys h =
    drop-append-ge e xs ys (omega arith) ∙ ap (λ n. drop n ys) (omega arith)

length-drop_le : (e : ℕ) (xs : Str) → length (drop e xs) ≡ length xs - e
length-drop_le zero xs = omega arith
length-drop_le (suc e) [] = omega arith
length-drop_le (suc e) (x ∷ xs) = omega (arith, length-drop_le e xs)

-- From a place in a line, the newline is as far as the line is long.
position-drop :
    (e : ℕ) (line rest : Str)
    → IsUnbroken line
    → e ≤ length line
    → position newline (drop e (line ++ newline ∷ rest)) ≡ some (length line - e)
position-drop e line rest h le =
    ap (position newline) (drop-append-le e line (newline ∷ rest) le)
    ∙ position-append (drop e line) rest (drop-IsUnbroken e line h)
    ∙ ap some (length-drop_le e line)

module _ (fuel end : ℕ) (buffer : Str) where
  pub line_loop_stop :
      position newline (drop end buffer) ≡ none → line_loop (suc fuel) end buffer ≡ some (end, [])
  unfolding line_loop
  line_loop_stop h = rw (line_loop, h)

  pub line_loop_skip :
      position newline (drop end buffer) ≡ some 0
      → line_loop (suc fuel) end buffer ≡ line_loop fuel (end + 1) buffer
  unfolding line_loop
  line_loop_skip h = rw (line_loop, h)

  pub line_loop_process :
      (idx : ℕ)
      → position newline (drop end buffer) ≡ some (suc idx)
      → line_loop (suc fuel) end buffer
        ≡ with_line (take (suc idx) (drop end buffer)) (line_loop fuel (suc idx) buffer)
  unfolding line_loop
  line_loop_process idx h = rw (line_loop, h)

module _ (one two rest : Str) (h : IsUnbroken one) (k2 : IsUnbroken two) where
  abbrev two_lines : Str
  two_lines = one ++ newline ∷ (two ++ newline ∷ rest)

  position-two_lines :
      (e : ℕ)
      → e < length one + 1 + length two
      → (i : ℕ) × (position newline (drop e two_lines) ≡ some i)
        × (((i ≡ 0) × (e ≡ length one)) ⊎ ((0 < i) × (i ≤ length one + length two)))
  position-two_lines e lt = elim (Bool-cases (leb e (length one))) [
    | inl before ↦
        let le : e ≤ length one = ground arith in
        (
          length one - e,
          position-drop e one (two ++ newline ∷ rest) h le,
          elim (Bool-cases (e == length one)) [
            | inl at ↦ inl (ground arith, ground arith)
            | inr short ↦ inr (ground arith, ground arith)
          ],
        )
    | inr behind ↦
        let gt : length one < e = ground arith in
        let k : ℕ = e - length one - 1 in
        let places : e - length one ≡ suc k = omega arith in
        (
          length two - k,
          ap (position newline) (
                drop-append-ge e one (newline ∷ (two ++ newline ∷ rest)) (omega arith)
                ∙ ap (λ n. drop n (newline ∷ (two ++ newline ∷ rest))) places)
              ∙ position-drop k two rest k2 (omega arith),
          inr (omega arith, omega arith),
        )
  ]

  -- The loop goes from the end of the first line to the place of its length, and back.
  pub line_loop_diverges :
      (fuel e : ℕ)
      → 0 < length two
      → e < length one + 1 + length two
      → line_loop fuel e two_lines ≡ none
  line_loop_diverges zero e some_two lt = unfold line_loop in refl
  line_loop_diverges (suc fuel) e some_two lt =
      let (i, found, far) = position-two_lines e lt in
      next (λ e' lt'. line_loop_diverges fuel e' some_two lt') i found far
    where
      next :
          ((e' : ℕ) → e' < length one + 1 + length two → line_loop fuel e' two_lines ≡ none)
          → (i : ℕ) → position newline (drop e two_lines) ≡ some i
          → ((i ≡ 0) × (e ≡ length one)) ⊎ ((0 < i) × (i ≤ length one + length two))
          → line_loop (suc fuel) e two_lines ≡ none
      next ih zero found (inl (_, at)) =
          line_loop_skip fuel e two_lines found ∙ ih (e + 1) (omega arith)
      next ih zero found (inr (pos, le)) = absurd (omega arith)
      next ih (suc i) found (inl (no_i, at)) = absurd (omega arith)
      next ih (suc i) found (inr (pos, le)) =
          line_loop_process fuel e two_lines i found ∙ rw (ih (suc i) (omega arith))

-- A single line is found, and the loop ends behind it.
pub line_loop-line :
    (fuel : ℕ) (one rest : Str)
    → IsUnbroken one
    → IsUnbroken rest
    → 0 < length one
    → line_loop (suc (suc (suc fuel))) 0 (one ++ newline ∷ rest) ≡ some (length one + 1, one ∷ [])
line_loop-line fuel [] rest h k some_one = absurd (omega arith)
line_loop-line fuel (c ∷ one) rest h k some_one =
    line_loop_process (suc (suc fuel)) 0 buffer (length one) (position-append (c ∷ one) rest h)
    ∙ ap (λ (l : Str). with_line l (line_loop (suc (suc fuel)) (length (c ∷ one)) buffer))
        (take-append_length (c ∷ one) (newline ∷ rest))
    ∙ ap (with_line (c ∷ one)) (
        line_loop_skip (suc fuel) (length (c ∷ one)) buffer
          (position-drop (length (c ∷ one)) (c ∷ one) rest h (omega arith) ∙ ap some (omega arith))
        ∙ line_loop_stop fuel (length (c ∷ one) + 1) buffer (
            ap (position newline) (
              drop-append-ge (length (c ∷ one) + 1) (c ∷ one) (newline ∷ rest) (omega arith)
              ∙ ap (λ n. drop n (newline ∷ rest)) behind)
            ∙ position-unbroken rest k))
  where
    buffer : Str
    buffer = (c ∷ one) ++ newline ∷ rest

    behind : length (c ∷ one) + 1 - length (c ∷ one) ≡ 1
    behind = omega arith
