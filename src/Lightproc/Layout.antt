-- ===== src/Lightproc/Layout.antt =====
-- The memory of a process, runtime/lightproc/src/layout_helpers.rs, proc_layout.rs and the layout
-- part of raw_proc.rs. A `usize` has 64 bits; `none` is the panic of an `unwrap`.
pub mod Padding
pub mod Extend
pub mod Multiples
pub mod Fields
use fabaccess_server.Prelude.{
  ℕ, zero, suc, ◌+◌, ◌-◌, ◌*◌, ◌%◌, ◌^◌, ltb, leb, ◌==◌, bit_and, Bool, true, false, not, ◌&&◌,
  Option, none, some, if◌then◌else◌,
}
use Prim.Native.Nat.{max}

infixl 5 ◌>>=◌
abbrev pub ◌>>=◌ : {A B : Type 0} → Option A → (A → Option B) → Option B
none >>= f = none
some a >>= f = f a

-- `Layout` of `std::alloc`.
pub record Layout : Type 0 where
  pub size : ℕ
  pub align : ℕ

unfoldable pub wrapping_add : ℕ → ℕ → ℕ
wrapping_add a b = (a + b) % 2 ^ 64

unfoldable pub wrapping_sub : ℕ → ℕ → ℕ
wrapping_sub a b = (a + (2 ^ 64 - b)) % 2 ^ 64

-- The complement of a word.
unfoldable pub complement : ℕ → ℕ
complement a = 2 ^ 64 - 1 - a

unfoldable pub checked_add : ℕ → ℕ → Option ℕ
checked_add a b = if ltb (a + b) (2 ^ 64) then some (a + b) else none

unfoldable pub is_power_of_two : ℕ → Bool
is_power_of_two n = not (n == 0) && bit_and n (n - 1) == 0

-- The size, padded to the alignment, fits an `isize`.
unfoldable pub from_size_align : ℕ → ℕ → Option Layout
from_size_align n a =
    if is_power_of_two a && leb (n + a) (2 ^ 63)
    then some (record { size = n; align = a })
    else none

unfoldable pub padding_needed_for : Layout → ℕ → ℕ
padding_needed_for layout a =
    let len_rounded_up =
      bit_and (wrapping_sub (wrapping_add layout.size a) 1) (complement (wrapping_sub a 1)) in
    wrapping_sub len_rounded_up layout.size

unfoldable pub extend : Layout → Layout → Option (Layout × ℕ)
extend layout next = do
  offset ← checked_add layout.size (padding_needed_for layout next.align)
  new_size ← checked_add offset next.size
  extended ← from_size_align new_size (max layout.align next.align)
  some (extended, offset)

pub record ProcLayout : Type 0 where
  pub layout : Layout
  pub offset_schedule : ℕ
  pub offset_future : ℕ
  pub offset_output : ℕ

-- The layout of the future and the output, of which one is stored at a time.
unfoldable pub layout_union : Layout → Layout → Layout
layout_union future output = record {
  size = max future.size output.size;
  align = max future.align output.align;
}

-- From the layouts of the process data, the schedule function, the future and its output.
unfoldable pub proc_layout : Layout → Layout → Layout → Layout → Option ProcLayout
proc_layout pdata schedule future output = do
  (with_schedule, offset_schedule) ← extend pdata schedule
  (whole, offset_union) ← extend with_schedule (layout_union future output)
  some (record {
    layout = whole;
    offset_schedule = offset_schedule;
    offset_future = offset_union;
    offset_output = offset_union;
  })

-- `RawProc`, with addresses for its pointers.
pub record RawProc : Type 0 where
  pub pdata : ℕ
  pub schedule : ℕ
  pub future : ℕ
  pub output : ℕ

unfoldable pub from_ptr : ProcLayout → ℕ → RawProc
from_ptr l p = record {
  pdata = p;
  schedule = p + l.offset_schedule;
  future = p + l.offset_future;
  output = p + l.offset_output;
}
