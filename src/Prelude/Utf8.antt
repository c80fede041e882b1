-- ===== src/Prelude/Utf8.antt =====
-- `std::str::from_utf8`: which bytes are UTF-8.
use Prim.Native.Nat.{ℕ}
use mathlib.Core.Bool.{Bool, true, false, ◌&&◌}
use mathlib.Core.Option.{Option, none, some}
use mathlib.Core.List.{List, [], ◌∷◌}
use fabaccess_server.Prelude.Tests.{if◌then◌else◌, leb, ltb}
use fabaccess_server.Prelude.Results.{Str}

abbrev in_range : ℕ × ℕ → ℕ → Bool
in_range (lo, hi) b = leb lo b && leb b hi

abbrev continuation : ℕ × ℕ
continuation = (0x80, 0xbf)

-- The bytes that may follow a first byte; none where it is no first byte.
abbrev lead : ℕ → Option (List (ℕ × ℕ))
lead b =
    if ltb b 0x80
    then some []
    else if in_range (0xc2, 0xdf) b
    then some (continuation ∷ [])
    else if in_range (0xe0, 0xe0) b
    then some ((0xa0, 0xbf) ∷ continuation ∷ [])
    else if in_range (0xed, 0xed) b
    then some ((0x80, 0x9f) ∷ continuation ∷ [])
    else if in_range (0xe1, 0xef) b
    then some (continuation ∷ continuation ∷ [])
    else if in_range (0xf0, 0xf0) b
    then some ((0x90, 0xbf) ∷ continuation ∷ continuation ∷ [])
    else if in_range (0xf1, 0xf3) b
    then some (continuation ∷ continuation ∷ continuation ∷ [])
    else if in_range (0xf4, 0xf4) b
    then some ((0x80, 0x8f) ∷ continuation ∷ continuation ∷ [])
    else none

-- The first byte of a character that still has these to come.
unfoldable pub accepts : List (ℕ × ℕ) → Str → Bool
accepts [] [] = true
accepts (r ∷ rs) [] = false
accepts (r ∷ rs) (b ∷ s) = let rest = accepts rs s in if in_range r b then rest else false
accepts [] (b ∷ s) = elim (lead b) [ none ↦ false | some rs ↦ accepts rs s ]

abbrev pub is_utf8 : Str → Bool
is_utf8 = accepts []
