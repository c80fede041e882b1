-- ===== src/Utils/Varint.antt =====
-- Integers of variable length, bffhd/utils/varint.rs: seven bits to a byte, highest group first.
pub mod Groups
pub mod RoundTrip
use fabaccess_server.Prelude.{
  ℕ, zero, suc, ◌+◌, ◌-◌, ◌*◌, ◌/◌, ◌%◌, ◌^◌, Option, none, some, List, [], ◌∷◌, ltb, if◌then◌else◌,
  set, drop, replicate, length, bit_and, bit_or,
}
use mathlib.Core.List.{reverse}

-- The array of `N` bytes and where the number starts in it.
pub record VarUint : Type 0 where
  pub offset : ℕ
  pub bytes : List ℕ

unfoldable pub default : ℕ → VarUint
default n = record { offset = n; bytes = replicate n 0 }

unfoldable pub as_bytes : VarUint → List ℕ
as_bytes v = drop v.offset v.bytes

-- `convert_from`: from the last index down; `none` is the panic of an index below zero.
unfoldable pub from_loop : ℕ → ℕ → List ℕ → ℕ → Option VarUint
from_loop num more bytes zero =
    if ltb 0x7f num
    then none
    else some (record { offset = 0; bytes = set bytes 0 (bit_or num more) })
from_loop num more bytes (suc idx) =
    let rest =
      from_loop (num / 2 ^ 7) 0x80 (set bytes (suc idx) (bit_or (bit_and num 0x7f) more)) idx in
    if ltb 0x7f num
    then rest
    else some (record { offset = suc idx; bytes = set bytes (suc idx) (bit_or num more) })

-- `From<T> for VarUInt<N>`; an array of no bytes has no last index.
unfoldable pub from : ℕ → ℕ → Option VarUint
unfolding from_loop
from zero num = none
from (suc idx) num = from_loop num 0 (default (suc idx)).bytes idx

-- `convert_into` at `w` bits, over the bytes from the last one on; `none` is the panic of a shift
-- by the width or more.
unfoldable pub into_loop : ℕ → ℕ → ℕ → List ℕ → Option ℕ
into_loop w out shift [] = some out
into_loop w out shift (byte ∷ bytes) =
    let val = bit_and byte 0x7f in
    let rest = into_loop w (bit_or out (val * 2 ^ shift % 2 ^ w)) (shift + 7) bytes in
    if ltb shift w then rest else none

unfoldable pub into : ℕ → VarUint → Option ℕ
unfolding into_loop
into w v = into_loop w 0 0 (reverse (as_bytes v))

-- The types that `impl_convert_from_to!` makes, by their bits and their bytes.
pub data Width : Type 0 where
  u8 u16 u32 u64 u128 : Width

abbrev pub bits : Width → ℕ
bits u8 = 8
bits u16 = 16
bits u32 = 32
bits u64 = 64
bits u128 = 128

abbrev pub capacity : Width → ℕ
capacity u8 = 2
capacity u16 = 3
capacity u32 = 5
capacity u64 = 10
capacity u128 = 19
