-- ===== src/Lightproc/Layout/Extend.antt =====
-- Extending a layout by a field.
use fabaccess_server.Prelude.{
  ℕ, ◌+◌, ◌-◌, ◌*◌, ◌^◌, ◌≤◌, ◌<◌, ◌≡◌, sym, ap, subst, ◌∙◌, bit_and, arith, true, leb,
  if◌then◌else◌, none, some, ◌⊎◌, inl, inr,
}
use Prim.Native.Nat.{max}
use fabaccess_server.Prelude.Bits.{bit_and_low}
use native.Mathlib.Nat.{pow-le-pow_right}
use fabaccess_server.Lightproc.Layout.{
  Layout, checked_add, is_power_of_two, from_size_align, padding_needed_for, extend, ◌>>=◌,
}
use fabaccess_server.Lightproc.Layout.Padding.{
  round_up, round_up_lem, pow_pos, padding_needed_for_lem,
}

-- A power of two up to 2 ^ 63.
pub record IsPower (a : ℕ) : Type 0 where
  pub exponent : ℕ
  pub rest : ℕ
  pub sum : exponent + rest ≡ 63
  pub power : a ≡ 2 ^ exponent

powers : (e : ℕ) → 0 < 2 → e ≤ 63 → 2 ^ e ≤ 2 ^ 63
powers e two h = pow-le-pow_right two h

pub IsPower-bounds : (a : ℕ) → IsPower a → (0 < a) × (a ≤ 2 ^ 63)
IsPower-bounds a p =
    let up = powers p.exponent (omega arith) (omega arith) in rw p.power (pow_pos p.exponent, up)

-- What `std` promises of a layout.
pub record IsLayout (l : Layout) : Type 0 where
  pub is_power : IsPower l.align
  pub fits : l.size + l.align ≤ 2 ^ 63

power_test : (k : ℕ) → is_power_of_two (2 ^ k) ≡ true
unfolding is_power_of_two
power_test k =
    let single : 2 ^ k ≡ 0 + 1 * 2 ^ k = omega arith in
    let none_left : bit_and (2 ^ k) (2 ^ k - 1) ≡ 0 =
      ap (λ (a : ℕ). bit_and a (2 ^ k - 1)) single ∙ bit_and_low k 0 1 (pow_pos k) in
    ground (arith, none_left, pow_pos k)

pub is_power_of_two-IsPower : (a : ℕ) → IsPower a → is_power_of_two a ≡ true
is_power_of_two-IsPower a p = ap is_power_of_two p.power ∙ power_test p.exponent

max_is : (a b : ℕ) → (max a b ≡ a) ⊎ (max a b ≡ b)
max_is a b = grind arith

pub max-IsPower : (a b : ℕ) → IsPower a → IsPower b → IsPower (max a b)
max-IsPower a b p q = elim (max_is a b) [
  | inl h ↦ subst IsPower (sym h) p
  | inr h ↦ subst IsPower (sym h) q
]

checked_add-some : (a b : ℕ) → a + b < 2 ^ 64 → checked_add a b ≡ some (a + b)
unfolding checked_add
checked_add-some a b h = ground arith

checked_add-none : (a b : ℕ) → 2 ^ 64 ≤ a + b → checked_add a b ≡ none
unfolding checked_add
checked_add-none a b h = ground arith

padding_lem :
    (l next : Layout)
    → IsLayout l
    → IsPower next.align
    → padding_needed_for l next.align ≡ round_up l.size next.align - l.size
padding_lem l next v w =
    let (_, bounded) = IsPower-bounds next.align w in
    rw w.power (
      padding_needed_for_lem w.exponent (w.rest + 1) l (omega arith)
        (omega (arith, bounded, w.power)))

offset_lem :
    (l next : Layout)
    → IsLayout l
    → IsPower next.align
    → checked_add l.size (padding_needed_for l next.align) ≡ some (round_up l.size next.align)
offset_lem l next v w =
    let (some_bytes, bounded) = IsPower-bounds next.align w in
    let up = round_up_lem l.size next.align some_bytes in
    rw (padding_lem l next v w) (
      checked_add-some l.size (round_up l.size next.align - l.size) (omega arith)
      ∙ ap some (omega arith))

-- The last two tests of `extend`.
size_lem :
    (offset n a : ℕ)
    → is_power_of_two a ≡ true
    → (◌>>=◌ {B = Layout × ℕ} (checked_add offset n) (λ new_size.
        ◌>>=◌ {B = Layout × ℕ} (from_size_align new_size a) (λ extended. some (extended, offset))))
      ≡ (if leb (offset + n + a) (2 ^ 63)
          then some (record { size = offset + n; align = a }, offset)
          else none)
unfolding checked_add from_size_align
size_lem offset n a h = ground (arith, h)

-- For a valid layout and a next one whose alignment is a power of two, `extend` with its masks,
-- wrapping and checked sums places the next one at the first multiple of its alignment where the
-- two together, padded, fit 2^63 bytes, and panics exactly where they do not.
pub extend_lem :
    (l next : Layout)
    → IsLayout l
    → IsPower next.align
    → extend l next ≡ (
        let offset = round_up l.size next.align in
        if leb (offset + next.size + max l.align next.align) (2 ^ 63)
        then some (record { size = offset + next.size; align = max l.align next.align }, offset)
        else none)
unfolding extend
extend_lem l next v w =
    let tested =
      is_power_of_two-IsPower (max l.align next.align)
        (max-IsPower l.align next.align v.is_power w) in
    let whole = size_lem (round_up l.size next.align) next.size (max l.align next.align) tested in
    rw (offset_lem l next v w) whole
