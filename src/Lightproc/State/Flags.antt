-- ===== src/Lightproc/State/Flags.antt =====
-- Flag sets as numbers: the bit operations are those of the sets.
use fabaccess_server.Prelude.{
  ℕ, ◌+◌, ◌*◌, ◌/◌, ◌%◌, ◌<◌, ◌≤◌, ◌≡◌, refl, Bool, true, false, ◌||◌, ◌&&◌, ◌==◌, bit_and, bit_or,
  arith,
}
use fabaccess_server.Prelude.Bits.{bit_or_pair, bit_and_pair}
use fabaccess_server.Lightproc.State.{
  StateFlags, digit, bits, from_bits_unchecked, union, intersection,
}

digit_or :
    (b c : Bool) (x y : ℕ)
    → bit_or (digit b + 2 * x) (digit c + 2 * y) ≡ digit (b || c) + 2 * bit_or x y
digit_or true c x y = ground (arith, bit_or_pair 1 (digit c) x y)
digit_or false c x y = ground (arith, bit_or_pair 0 (digit c) x y)

digit_and :
    (b c : Bool) (x y : ℕ)
    → bit_and (digit b + 2 * x) (digit c + 2 * y) ≡ digit (b && c) + 2 * bit_and x y
digit_and true c x y = ground (arith, bit_and_pair 1 (digit c) x y)
digit_and false c x y = ground (arith, bit_and_pair 0 (digit c) x y)

last_or : (b c : Bool) → bit_or (digit b) (digit c) ≡ digit (b || c)
last_or true true = refl
last_or true false = refl
last_or false true = refl
last_or false false = refl

last_and : (b c : Bool) → bit_and (digit b) (digit c) ≡ digit (b && c)
last_and true true = refl
last_and true false = refl
last_and false true = refl
last_and false false = refl

pub bit_or-bits : (f g : StateFlags) → bit_or (bits f) (bits g) ≡ bits (union f g)
unfolding bits
bit_or-bits f g = simp (digit_or, last_or)

pub bit_and-bits : (f g : StateFlags) → bit_and (bits f) (bits g) ≡ bits (intersection f g)
unfolding bits
bit_and-bits f g = simp (digit_and, last_and)

digit-le : (b : Bool) → digit b ≤ 1
digit-le true = omega arith
digit-le false = omega arith

digit_test : (b : Bool) (n : ℕ) → n ≡ digit b → (n == 1) ≡ b
digit_test true n e = rw e
digit_test false n e = rw e

module _ (f : StateFlags) where
  open f use {scheduled, running, completed, closed, handle, awaiter, locked}

  digits_le : record {
    a : digit scheduled ≤ 1;
    b : digit running ≤ 1;
    c : digit completed ≤ 1;
    d : digit closed ≤ 1;
    e : digit handle ≤ 1;
    g : digit awaiter ≤ 1;
    h : digit locked ≤ 1;
  }
  digits_le = record {
    a = digit-le scheduled;
    b = digit-le running;
    c = digit-le completed;
    d = digit-le closed;
    e = digit-le handle;
    g = digit-le awaiter;
    h = digit-le locked;
  }

  pub bits-lt : bits f < 128
  unfolding bits
  bits-lt = omega (arith, digits_le)

  -- The seven flags come back from their bits.
  pub from_bits_unchecked-bits : from_bits_unchecked (bits f) ≡ f
  unfolding from_bits_unchecked bits
  from_bits_unchecked-bits = λ i. record {
    scheduled = digit_test scheduled (bits f % 2) (omega (arith, digits_le)) i;
    running = digit_test running (bits f / 2 % 2) (omega (arith, digits_le)) i;
    completed = digit_test completed (bits f / 4 % 2) (omega (arith, digits_le)) i;
    closed = digit_test closed (bits f / 8 % 2) (omega (arith, digits_le)) i;
    handle = digit_test handle (bits f / 16 % 2) (omega (arith, digits_le)) i;
    awaiter = digit_test awaiter (bits f / 32 % 2) (omega (arith, digits_le)) i;
    locked = digit_test locked (bits f / 64 % 2) (omega (arith, digits_le)) i;
  }
