-- ===== src/Utils/Linebuffer.antt =====
-- Bytes read from a child process, until a line is complete: bffhd/utils/linebuffer.rs.
-- `reserve` is the capacity that the allocator gives for a length and what is to be added; `rest` is
-- what the memory behind the buffer holds.
pub mod Contents
use fabaccess_server.Prelude.{
  ℕ, ◌+◌, ◌-◌, ◌≤◌, Bool, Option, none, some, List, [], ◌++◌, ltb, leb, if◌then◌else◌, length, take,
  drop,
}

pub record LineBuffer : Type 0 where
  pub buffer : List ℕ
  pub valid : ℕ

unfoldable pub new : LineBuffer
new = record { buffer = []; valid = 0 }

abbrev pub holds_valid : LineBuffer → Bool
holds_valid b = leb b.valid (length b.buffer)

-- `Deref`: the valid bytes; `none` is the panic of a slice beyond the buffer.
unfoldable pub deref : LineBuffer → Option (List ℕ)
deref b = if holds_valid b then some (take b.valid b.buffer) else none

-- `resize`: the length becomes the capacity, whatever is in memory.
unfoldable pub resize : ℕ → (ℕ → List ℕ) → LineBuffer → LineBuffer
resize capacity rest b = record b { buffer = b.buffer ++ rest (capacity - length b.buffer) }

-- `get_mut_write`: the buffer, and the part of it to write to; `none` is the panic of the
-- subtraction, or of the slice.
unfoldable pub get_mut_write :
    (ℕ → ℕ → ℕ) → (ℕ → List ℕ) → ℕ → LineBuffer → Option (LineBuffer × List ℕ)
unfolding resize
get_mut_write reserve rest atleast b =
    let avail = length b.buffer - b.valid in
    let grown =
      if ltb avail atleast
      then resize (reserve (length b.buffer) (atleast - avail)) rest b
      else b in
    if holds_valid b then some (grown, drop b.valid grown.buffer) else none

unfoldable pub advance_valid : ℕ → LineBuffer → LineBuffer
advance_valid amount b = record b { valid = b.valid + amount }

-- `copy_within(from..to, 0)`.
unfoldable pub copy_to_front : ℕ → ℕ → List ℕ → List ℕ
copy_to_front from to bytes = drop from (take to bytes) ++ drop (to - from) bytes

-- `consume`; `none` is the panic of its assertion, or of a copy from beyond the buffer.
unfoldable pub consume : ℕ → LineBuffer → Option LineBuffer
unfolding copy_to_front
consume amount b =
    let moved =
      if holds_valid b
      then some
          (record { buffer = copy_to_front amount b.valid b.buffer; valid = b.valid - amount })
      else none in
    if leb amount b.valid
    then (if ltb amount b.valid
        then moved
        else some (record { buffer = b.buffer; valid = b.valid - amount }))
    else none
