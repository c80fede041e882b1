-- ===== src/Lightproc/Layout/Padding.antt =====
-- Padding up to an alignment.
use fabaccess_server.Prelude.{
  ℕ, zero, suc, ◌+◌, ◌-◌, ◌*◌, ◌/◌, ◌%◌, ◌^◌, ◌≤◌, ◌<◌, ◌≡◌, ap, ap₂, ◌∙◌, bit_and, arith,
}
use fabaccess_server.Prelude.Bits.{bit_and_low, bit_and_clear, pow_add}
use fabaccess_server.Lightproc.Layout.{
  Layout, wrapping_add, wrapping_sub, complement, padding_needed_for,
}
use native.Mathlib.Nat.{one-le-pow, mod-lt, div-add-mod', div-lt_iff_lt-mul, suc-mul}

-- The next multiple of an alignment.
unfoldable pub round_up : ℕ → ℕ → ℕ
round_up n a = (n + a - 1) / a * a

pub round_up_lem : (n a : ℕ) → 0 < a → (n ≤ round_up n a) × (round_up n a < n + a)
unfolding round_up
round_up_lem n a h =
    let parts = div-add-mod' (n + a - 1) a in
    let small = mod-lt (n + a - 1) h in (omega arith, omega arith)

pub pow_pos : (k : ℕ) → 0 < 2 ^ k
pow_pos k = omega (arith, one-le-pow k 2)

less_one : (u v : ℕ) → 0 < u → (u - 1) * v ≡ u * v - v
less_one zero v h = absurd (omega arith)
less_one (suc u) v h =
    let bare : suc u - 1 ≡ u = omega arith in
    let grown : suc u * v ≡ u * v + v = suc-mul u v in rw (bare, grown) (omega arith)

-- Clearing the low bits of a word.
masked :
    (k m x : ℕ) → k + m ≡ 64 → x < 2 ^ 64 → bit_and x (2 ^ 64 - 1 - (2 ^ k - 1)) ≡ x / 2 ^ k * 2 ^ k
masked k m x h fits =
    let sum : 64 ≡ m + k = omega arith in
    let whole : 2 ^ 64 ≡ 2 ^ m * 2 ^ k = ap (λ (n : ℕ). 2 ^ n) sum ∙ pow_add m k in
    let mask : 2 ^ 64 - 1 - (2 ^ k - 1) ≡ (2 ^ m - 1) * 2 ^ k =
      omega (arith, whole, pow_pos k, less_one (2 ^ m) (2 ^ k) (pow_pos m)) in
    let parts : x ≡ x % 2 ^ k + x / 2 ^ k * 2 ^ k = omega (arith, div-add-mod' x (2 ^ k)) in
    let few : x / 2 ^ k < 2 ^ m = (div-lt_iff_lt-mul (pow_pos k)).1 (omega (arith, whole)) in
    let same : bit_and (x / 2 ^ k) (2 ^ m - 1) ≡ x / 2 ^ k =
      ap (λ (q : ℕ). bit_and q (2 ^ m - 1)) (omega arith) ∙ bit_and_low m (x / 2 ^ k) 0 few in
    ap₂ bit_and parts mask
    ∙ (bit_and_clear k (x % 2 ^ k) (x / 2 ^ k) (2 ^ m - 1) (mod-lt x (pow_pos k))
        ∙ ap (λ (q : ℕ). q * 2 ^ k) same)

unwrapped : (s a : ℕ) → 0 < a → s + a ≤ 2 ^ 64 → wrapping_sub (wrapping_add s a) 1 ≡ s + a - 1
unfolding wrapping_sub wrapping_add
unwrapped s a h fits = omega arith

rest_of : (n s : ℕ) → s ≤ n → n < 2 ^ 64 → wrapping_sub n s ≡ n - s
unfolding wrapping_sub
rest_of n s h fits = omega arith

pub padding_needed_for_lem :
    (k m : ℕ) (layout : Layout)
    → k + m ≡ 64
    → layout.size + 2 ^ k ≤ 2 ^ 64
    → padding_needed_for layout (2 ^ k) ≡ round_up layout.size (2 ^ k) - layout.size
unfolding padding_needed_for complement round_up wrapping_sub
padding_needed_for_lem k m layout h fits =
    let before = unwrapped layout.size (2 ^ k) (pow_pos k) fits in
    let mask : wrapping_sub (2 ^ k) 1 ≡ 2 ^ k - 1 = omega (arith, pow_pos k) in
    let rounded = masked k m (layout.size + 2 ^ k - 1) h (omega (arith, pow_pos k)) in
    let inner : bit_and (wrapping_sub (wrapping_add layout.size (2 ^ k)) 1)
          (complement (wrapping_sub (2 ^ k) 1))
        ≡ round_up layout.size (2 ^ k) =
      ap₂ bit_and before (ap complement mask) ∙ rounded in
    ap (λ (n : ℕ). wrapping_sub n layout.size) inner
    ∙ rest_of (round_up layout.size (2 ^ k)) layout.size
        (round_up_lem layout.size (2 ^ k) (pow_pos k)).0
        (omega (arith, (round_up_lem layout.size (2 ^ k) (pow_pos k)).1))
