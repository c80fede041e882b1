-- ===== src/Prelude/Bits.antt =====
-- The masks and shifts of the code as arithmetic.
use Prim.Native.Nat.{
  ℕ, zero, suc, ◌+◌, ◌-◌, ◌*◌, ◌/◌, ◌%◌, ◌^◌, ◌≤◌, ◌<◌, min, max, bit_and, bit_or, digits,
  bit_and-bitwise, bit_or-bitwise,
}
use mathlib.Core.Path.{◌≡◌, refl, ap, ap₂, ◌∙◌}
use native.Mathlib.Nat.{pow-suc, one-le-pow}
use native.Mathlib.Omega.{arith}

-- More fuel than the first number changes nothing in the recursion behind the bit operations.
module _ (f : ℕ → ℕ) (g : ℕ → ℕ → ℕ) where
  digits_spare : (n a b : ℕ) → a ≤ n → digits f g (suc n) a b ≡ digits f g n a b
  digits_spare zero zero b h = refl
  digits_spare (suc n) zero b h = refl
  digits_spare zero (suc a) b h = absurd (omega arith)
  digits_spare (suc n) (suc a) b h =
      let rest = digits_spare n (suc a / 2) (b / 2) (omega arith) in omega (arith, rest)

  digits_add : (k n a b : ℕ) → a ≤ n → digits f g (k + n) a b ≡ digits f g n a b
  digits_add zero n a b h = ap (λ (m : ℕ). digits f g m a b) (omega arith)
  digits_add (suc k) n a b h =
      let next : suc k + n ≡ suc (k + n) = omega arith in
      ap (λ (m : ℕ). digits f g m a b) next
      ∙ (digits_spare (k + n) a b (omega arith) ∙ digits_add k n a b h)

  -- The rest of a number takes half of the fuel.
  digits_half : (a b : ℕ) → digits f g a (suc a / 2) b ≡ digits f g (suc a / 2) (suc a / 2) b
  digits_half a b =
      let spare : a ≡ a - suc a / 2 + suc a / 2 = omega arith in
      ap (λ (n : ℕ). digits f g n (suc a / 2) b) spare
      ∙ digits_add (a - suc a / 2) (suc a / 2) (suc a / 2) b (omega arith)

left_zero : (b : ℕ) → (bit_and 0 b ≡ 0) × (bit_or 0 b ≡ b)
left_zero b = (bit_and-bitwise 0 b, bit_or-bitwise 0 b)

-- A bit operation, lowest digit first.
bit_or_digit : (a b : ℕ) → bit_or a b ≡ bit_or (a / 2) (b / 2) * 2 + max (a % 2) (b % 2)
bit_or_digit zero b =
    let (_, whole) = left_zero b in let (_, rest) = left_zero (b / 2) in omega (arith, whole, rest)
bit_or_digit (suc a) b =
    let whole = bit_or-bitwise (suc a) b in
    let rest = bit_or-bitwise (suc a / 2) (b / 2) in
    let half = digits_half (λ n. n) max a (b / 2) in omega (arith, whole, rest, half)

bit_and_digit : (a b : ℕ) → bit_and a b ≡ bit_and (a / 2) (b / 2) * 2 + min (a % 2) (b % 2)
bit_and_digit zero b =
    let (whole, _) = left_zero b in let (rest, _) = left_zero (b / 2) in omega (arith, whole, rest)
bit_and_digit (suc a) b =
    let whole = bit_and-bitwise (suc a) b in
    let rest = bit_and-bitwise (suc a / 2) (b / 2) in
    let half = digits_half (λ n. 0) min a (b / 2) in omega (arith, whole, rest, half)

lt-pow : (a : ℕ) → a < 2 ^ a
lt-pow zero = omega arith
lt-pow (suc a) = omega (arith, lt-pow a, pow-suc 2 a)

no_digits : (k a : ℕ) → a < 2 ^ k → bit_and a 0 ≡ 0
no_digits zero a h = let none_left : a ≡ 0 = omega arith in rw none_left
no_digits (suc k) a h =
    let rest = no_digits k (a / 2) (omega (arith, pow-suc 2 k)) in
    omega (arith, bit_and_digit a 0, rest)

pub bit_and-zero : (a : ℕ) → bit_and a 0 ≡ 0
bit_and-zero a = no_digits a a (lt-pow a)

twice_pow : (q k : ℕ) → q * 2 ^ suc k ≡ 2 * (q * 2 ^ k)
twice_pow q k = omega (arith, ap (λ (t : ℕ). q * t) (pow-suc 2 k))

-- A mask of ones keeps the lowest digits.
low_one : (a : ℕ) → bit_and a 1 ≡ a % 2
low_one a = omega (arith, bit_and_digit a 1, bit_and-zero (a / 2))

low_two : (a : ℕ) → bit_and a 3 ≡ a % 4
low_two a = omega (arith, bit_and_digit a 3, low_one (a / 2))

low_three : (a : ℕ) → bit_and a 7 ≡ a % 8
low_three a = omega (arith, bit_and_digit a 7, low_two (a / 2))

low_four : (a : ℕ) → bit_and a 15 ≡ a % 16
low_four a = omega (arith, bit_and_digit a 15, low_three (a / 2))

low_five : (a : ℕ) → bit_and a 31 ≡ a % 32
low_five a = omega (arith, bit_and_digit a 31, low_four (a / 2))

low_six : (a : ℕ) → bit_and a 63 ≡ a % 64
low_six a = omega (arith, bit_and_digit a 63, low_five (a / 2))

pub bit_and-0x7f : (a : ℕ) → bit_and a 0x7f ≡ a % 128
bit_and-0x7f a = omega (arith, bit_and_digit a 127, low_six (a / 2))

-- Fields that share no digit add up.
pub bit_or_disjoint : (k a q : ℕ) → a < 2 ^ k → bit_or a (q * 2 ^ k) ≡ a + q * 2 ^ k
bit_or_disjoint zero zero q h = omega (arith, (left_zero (q * 2 ^ 0)).1)
bit_or_disjoint zero (suc a) q h = absurd (omega arith)
bit_or_disjoint (suc k) a q h = ground (
  arith,
  bit_or_digit a (q * 2 ^ suc k),
  twice_pow q k,
  twice_pow 1 k,
  bit_or_disjoint k (a / 2) q (omega (arith, twice_pow 1 k)),
)

pub bit_or-zero : (a : ℕ) → bit_or a 0 ≡ a
bit_or-zero a =
    let nothing : 0 ≡ 0 * 2 ^ a = omega arith in
    ap (λ (n : ℕ). bit_or a n) nothing ∙ bit_or_disjoint a a 0 (lt-pow a) ∙ omega arith

-- The lowest digit apart from the others.
pub bit_or_pair :
    (b c x y : ℕ) → b < 2 → c < 2 → bit_or (b + 2 * x) (c + 2 * y) ≡ max b c + 2 * bit_or x y
bit_or_pair b c x y hb hc =
    let halves : ((b + 2 * x) / 2 ≡ x) × ((c + 2 * y) / 2 ≡ y) = (omega arith, omega arith) in
    bit_or_digit (b + 2 * x) (c + 2 * y) ∙ rw (halves.0, halves.1) (omega arith)

pub bit_and_pair :
    (b c x y : ℕ) → b < 2 → c < 2 → bit_and (b + 2 * x) (c + 2 * y) ≡ min b c + 2 * bit_and x y
bit_and_pair b c x y hb hc =
    let halves : ((b + 2 * x) / 2 ≡ x) × ((c + 2 * y) / 2 ≡ y) = (omega arith, omega arith) in
    bit_and_digit (b + 2 * x) (c + 2 * y) ∙ rw (halves.0, halves.1) (omega arith)

pow_twice : (k : ℕ) → 2 ^ suc k ≡ 2 * 2 ^ k
pow_twice k = omega (arith, pow-suc 2 k)

-- An operation with a word whose low part is all zeros, or all ones, acts on the high part.
pub bit_or_high :
    (k r f v : ℕ) → r < 2 ^ k → bit_or (r + f * 2 ^ k) (v * 2 ^ k) ≡ r + bit_or f v * 2 ^ k
bit_or_high zero zero f v h =
    let bare : 0 + f * 2 ^ 0 ≡ f = omega arith in
    let word : v * 2 ^ 0 ≡ v = omega arith in ap₂ bit_or bare word ∙ omega arith
bit_or_high zero (suc r) f v h = absurd (omega arith)
bit_or_high (suc k) r f v h =
    let low : r + f * 2 ^ suc k ≡ r % 2 + 2 * (r / 2 + f * 2 ^ k) = omega (arith, twice_pow f k) in
    let shifted : v * 2 ^ suc k ≡ 0 + 2 * (v * 2 ^ k) = omega (arith, twice_pow v k) in
    rw (low, shifted)
      (bit_or_pair (r % 2) 0 (r / 2 + f * 2 ^ k) (v * 2 ^ k) (omega arith) (omega arith)
        ∙ omega (
          arith,
          bit_or_high k (r / 2) f v (omega (arith, pow_twice k)),
          twice_pow (bit_or f v) k,
        ))

pub bit_and_high :
    (k r f v : ℕ)
    → r < 2 ^ k
    → bit_and (r + f * 2 ^ k) (2 ^ k - 1 + v * 2 ^ k) ≡ r + bit_and f v * 2 ^ k
bit_and_high zero zero f v h =
    let bare : 0 + f * 2 ^ 0 ≡ f = omega arith in
    let word : 2 ^ 0 - 1 + v * 2 ^ 0 ≡ v = omega arith in ap₂ bit_and bare word ∙ omega arith
bit_and_high zero (suc r) f v h = absurd (omega arith)
bit_and_high (suc k) r f v h =
    let low : r + f * 2 ^ suc k ≡ r % 2 + 2 * (r / 2 + f * 2 ^ k) = omega (arith, twice_pow f k) in
    let mask : 2 ^ suc k - 1 + v * 2 ^ suc k ≡ 1 + 2 * (2 ^ k - 1 + v * 2 ^ k) =
      omega (arith, twice_pow v k, pow_twice k, one-le-pow k 2) in
    rw (low, mask)
      (bit_and_pair (r % 2) 1 (r / 2 + f * 2 ^ k) (2 ^ k - 1 + v * 2 ^ k) (omega arith)
          (omega arith)
        ∙ omega (
          arith,
          bit_and_high k (r / 2) f v (omega (arith, pow_twice k)),
          twice_pow (bit_and f v) k,
        ))

-- A mask of low ones keeps the low part, and a mask with low zeros clears it.
pub bit_and_low : (k r q : ℕ) → r < 2 ^ k → bit_and (r + q * 2 ^ k) (2 ^ k - 1) ≡ r
bit_and_low zero zero q h =
    let none_left : 2 ^ 0 - 1 ≡ 0 = omega arith in rw none_left (bit_and-zero (0 + q * 2 ^ 0))
bit_and_low zero (suc r) q h = absurd (omega arith)
bit_and_low (suc k) r q h =
    let low : r + q * 2 ^ suc k ≡ r % 2 + 2 * (r / 2 + q * 2 ^ k) = omega (arith, twice_pow q k) in
    let mask : 2 ^ suc k - 1 ≡ 1 + 2 * (2 ^ k - 1) = omega (arith, pow_twice k, one-le-pow k 2) in
    rw (low, mask)
      (bit_and_pair (r % 2) 1 (r / 2 + q * 2 ^ k) (2 ^ k - 1) (omega arith) (omega arith)
        ∙ omega (arith, bit_and_low k (r / 2) q (omega (arith, pow_twice k))))

pub bit_and_clear :
    (k r q v : ℕ) → r < 2 ^ k → bit_and (r + q * 2 ^ k) (v * 2 ^ k) ≡ bit_and q v * 2 ^ k
bit_and_clear zero zero q v h =
    let bare : 0 + q * 2 ^ 0 ≡ q = omega arith in
    let word : v * 2 ^ 0 ≡ v = omega arith in ap₂ bit_and bare word ∙ omega arith
bit_and_clear zero (suc r) q v h = absurd (omega arith)
bit_and_clear (suc k) r q v h =
    let low : r + q * 2 ^ suc k ≡ r % 2 + 2 * (r / 2 + q * 2 ^ k) = omega (arith, twice_pow q k) in
    let shifted : v * 2 ^ suc k ≡ 0 + 2 * (v * 2 ^ k) = omega (arith, twice_pow v k) in
    rw (low, shifted)
      (bit_and_pair (r % 2) 0 (r / 2 + q * 2 ^ k) (v * 2 ^ k) (omega arith) (omega arith)
        ∙ omega (
          arith,
          bit_and_clear k (r / 2) q v (omega (arith, pow_twice k)),
          twice_pow (bit_and q v) k,
        ))

pub pow_add : (m k : ℕ) → 2 ^ (m + k) ≡ 2 ^ m * 2 ^ k
pow_add m zero =
    let same : m + 0 ≡ m = omega arith in
    let single : 2 ^ m * 1 ≡ 2 ^ m = omega arith in rw (same, single) refl
pow_add m (suc k) =
    let one_more : m + suc k ≡ suc (m + k) = omega arith in
    rw one_more (omega (arith, pow_twice (m + k), pow_add m k, twice_pow (2 ^ m) k))
