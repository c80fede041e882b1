-- ===== src/Lightproc/State/Word.antt =====
-- The operations on the 64-bit word act on the flags and the count apart, within the bounds of each.
use fabaccess_server.Prelude.{ℕ, ◌+◌, ◌-◌, ◌*◌, ◌/◌, ◌%◌, ◌^◌, ◌<◌, ◌≤◌, ◌≡◌, ap, ◌∙◌, arith}
use fabaccess_server.Prelude.Bits.{bit_or_high, bit_and_high}
use fabaccess_server.Lightproc.State.{
  StateFlags, bits, from_bits_unchecked, union, intersection, State, new, set_refcount, into_u64,
  from_u64, fetch_or, fetch_and, fetch_add, fetch_sub,
}
use fabaccess_server.Lightproc.State.Flags.{
  bits-lt, from_bits_unchecked-bits, bit_or-bits, bit_and-bits,
}

-- A state whose count fits 32 bits comes back from its word.
pub from_u64-into_u64 : (s : State) → s.refcount < 2 ^ 32 → from_u64 (into_u64 s) ≡ s
unfolding from_u64 into_u64
from_u64-into_u64 s h =
    let high : (s.refcount + bits s.flags * 2 ^ 32) / 2 ^ 32 ≡ bits s.flags = omega arith in
    let low : (s.refcount + bits s.flags * 2 ^ 32) % 2 ^ 32 ≡ s.refcount = omega arith in
    λ i. record {
      flags = (ap from_bits_unchecked high ∙ from_bits_unchecked-bits s.flags) i;
      refcount = low i;
    }

-- Setting flags in the word sets them in the state, and leaves the count alone.
pub fetch_or-into_u64 :
    (val : StateFlags) (s : State)
    → s.refcount < 2 ^ 32
    → fetch_or val (into_u64 s) ≡ into_u64 (new (union s.flags val) s.refcount)
unfolding fetch_or into_u64
fetch_or-into_u64 val s h =
    bit_or_high 32 s.refcount (bits s.flags) (bits val) h
    ∙ ap (λ (n : ℕ). s.refcount + n * 2 ^ 32) (bit_or-bits s.flags val)

-- Masking flags in the word masks them in the state, and leaves the count alone.
pub fetch_and-into_u64 :
    (val : StateFlags) (s : State)
    → s.refcount < 2 ^ 32
    → fetch_and val (into_u64 s) ≡ into_u64 (new (intersection s.flags val) s.refcount)
unfolding fetch_and into_u64
fetch_and-into_u64 val s h =
    bit_and_high 32 s.refcount (bits s.flags) (bits val) h
    ∙ ap (λ (n : ℕ). s.refcount + n * 2 ^ 32) (bit_and-bits s.flags val)

-- Adding to the word adds to the count while that fits 32 bits.
pub fetch_add-into_u64 :
    (n : ℕ) (s : State)
    → s.refcount + n < 2 ^ 32
    → fetch_add n (into_u64 s) ≡ into_u64 (set_refcount s (s.refcount + n))
unfolding fetch_add into_u64
fetch_add-into_u64 n s h = omega (arith, bits-lt s.flags)

-- Subtracting from the word subtracts from the count while that does not fall below zero.
pub fetch_sub-into_u64 :
    (n : ℕ) (s : State)
    → n ≤ s.refcount
    → s.refcount < 2 ^ 32
    → fetch_sub n (into_u64 s) ≡ into_u64 (set_refcount s (s.refcount - n))
unfolding fetch_sub into_u64
fetch_sub-into_u64 n s h fits = omega (arith, bits-lt s.flags)

-- A decrement of a state with the count zero and some flag set gives the count 2^32 - 1, and the
-- flags of the flag word less one.
pub fetch_sub_borrows :
    (f : StateFlags)
    → 0 < bits f
    → from_u64 (fetch_sub 1 (into_u64 (new f 0)))
      ≡ new (from_bits_unchecked (bits f - 1)) (2 ^ 32 - 1)
unfolding fetch_sub into_u64 from_u64
fetch_sub_borrows f h =
    let word = (0 + bits f * 2 ^ 32 + 2 ^ 64 - 1) % 2 ^ 64 in
    let high : word / 2 ^ 32 ≡ bits f - 1 = omega (arith, bits-lt f) in
    let low : word % 2 ^ 32 ≡ 2 ^ 32 - 1 = omega (arith, bits-lt f) in
    λ i. record { flags = from_bits_unchecked (high i); refcount = low i }
