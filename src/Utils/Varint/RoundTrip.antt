-- ===== src/Utils/Varint/RoundTrip.antt =====
-- A number comes back from its bytes, and takes as few of them as it can.
use fabaccess_server.Prelude.{
  ℕ, zero, suc, ◌+◌, ◌*◌, ◌/◌, ◌%◌, ◌^◌, ◌<◌, ◌≤◌, ◌≡◌, ◌↔◌, refl, sym, ap, ◌∙◌, inl, inr, true,
  false, some, List, [], ◌∷◌, ltb, Bool-cases, length, length-append, arith,
}
use fabaccess_server.Prelude.Bits.{bit_and-0x7f, bit_or_disjoint}
use mathlib.Core.List.{reverse, reverse-append, reverse-reverse}
use native.Mathlib.Nat.{pow-suc, one-le-pow, mod-eq_of_lt}
use native.Mathlib.Numerals.{towards_suc}
use fabaccess_server.Utils.Varint.{
  VarUint, as_bytes, from, into_loop, into, Width, u8, u16, u32, u64, u128, bits, capacity,
}
use fabaccess_server.Utils.Varint.Groups.{groups, from-groups}

-- The number that groups stand for, lowest first.
value : List ℕ → ℕ
value [] = 0
value (byte ∷ bytes) = byte % 128 + value bytes * 128

abbrev IsMarkOf : ℕ → Type 0
IsMarkOf more = more % 128 ≡ 0

value-groups :
    (k num more : ℕ) → num < 128 ^ suc k → IsMarkOf more → value (groups k num more) ≡ num
unfolding value groups
value-groups zero num more h m = omega arith
value-groups (suc k) num more h m = elim (Bool-cases (ltb 127 num)) [
  | inl big ↦
      rw big
        (omega (arith, value-groups k (num / 128) 128 (omega (arith, pow-suc 128 (suc k))) refl))
  | inr small ↦ rw small (omega (arith, not_big num small))
]
  where
    not_big : (num : ℕ) → ltb 127 num ≡ false → num < 128
    not_big num h = ground arith

length-groups : (k num more : ℕ) → length (groups k num more) ≤ suc k
unfolding groups
length-groups zero num more = omega arith
length-groups (suc k) num more = ground (arith, length-groups k (num / 128) 128)

pow_seven : (s : ℕ) → 2 ^ (s + 7) ≡ 128 * 2 ^ s
pow_seven s = simp towards_suc (omega arith)

-- One round puts a group into the digits from `shift` on.
group_fits : (g v p w : ℕ) → (g + v * 128) * p < w → (g * p < w) × (v * (128 * p) < w)
group_fits g v p w h = omega arith

group_below : (out g p : ℕ) → out < p → g < 128 → out + g * p < 128 * p
group_below out g p h lt = grind arith

group_sum : (out g v p : ℕ) → out + g * p + v * (128 * p) ≡ out + (g + v * 128) * p
group_sum out g v p = omega arith

into_loop-value :
    (w : ℕ) (bytes : List ℕ) (out shift : ℕ)
    → out < 2 ^ shift
    → value bytes * 2 ^ shift < 2 ^ w
    → shift + 7 * length bytes < w + 7
    → into_loop w out shift bytes ≡ some (out + value bytes * 2 ^ shift)
unfolding into_loop value
into_loop-value w [] out shift fits total room = ap some (omega arith)
into_loop-value w (byte ∷ bytes) out shift fits total room =
    let g = byte % 128 in
    let p = 2 ^ shift in
    let (small, rest_fits) = group_fits g (value bytes) p (2 ^ w) total in
    let below : ltb shift w ≡ true = ground arith in
    let kept : g * p % 2 ^ w ≡ g * p = mod-eq_of_lt small in
    rw (below, bit_and-0x7f byte, kept, bit_or_disjoint shift out g fits)
      (into_loop-value w bytes (out + g * p) (shift + 7)
          (rw (pow_seven shift) (group_below out g p fits (omega arith)))
          (rw (pow_seven shift) rest_fits) (omega arith)
        ∙ ap some (rw (pow_seven shift) (group_sum out g (value bytes) p)))

-- An array that holds every number of `w` bits, and is no longer than the shifts allow.
abbrev IsWide : ℕ → ℕ → Type 0
IsWide w idx = (2 ^ w ≤ 128 ^ suc idx) × (7 * idx < w)

round_trip :
    (w idx num : ℕ)
    → IsWide w idx
    → num < 2 ^ w
    → (v : VarUint) × (from (suc idx) num ≡ some v)
      × (into w v ≡ some num)
      × (as_bytes v ≡ reverse (groups idx num 0))
unfolding into
round_trip w idx num (holds, room) h =
    let (v, e, f) = from-groups idx num (omega arith) in
    let back : reverse (as_bytes v) ≡ groups idx num 0 =
      ap reverse f ∙ reverse-reverse (groups idx num 0) in
    let num_of : value (groups idx num 0) ≡ num = value-groups idx num 0 (omega arith) refl in
    (
      v,
      e,
      rw back (
          into_loop-value w (groups idx num 0) 0 0 (omega arith) (rw num_of (omega arith))
            (omega (arith, length-groups idx num 0))
          ∙ ap some (omega (arith, num_of))),
      f,
    )

width-IsWide : (t : Width) → (idx : ℕ) × (capacity t ≡ suc idx) × IsWide (bits t) idx
width-IsWide u8 = (1, refl, (omega arith, omega arith))
width-IsWide u16 = (2, refl, (omega arith, omega arith))
width-IsWide u32 = (4, refl, (omega arith, omega arith))
width-IsWide u64 = (9, refl, (omega arith, omega arith))
width-IsWide u128 = (18, refl, (omega arith, omega arith))

-- At each of the five widths, every number below 2^bits encodes without a panic, and decodes to
-- itself without one.
pub into-from :
    (t : Width) (num : ℕ)
    → num < 2 ^ bits t
    → (v : VarUint) × (from (capacity t) num ≡ some v) × (into (bits t) v ≡ some num)
into-from t num h =
    let (idx, cap, wide) = width-IsWide t in
    let (v, e, f, _) = round_trip (bits t) idx num wide h in (v, rw cap e, f)

length-reverse : (xs : List ℕ) → length (reverse xs) ≡ length xs
length-reverse [] = refl
length-reverse (x ∷ xs) = omega (
  arith,
  ap (length {A = ℕ}) (reverse-append (x ∷ []) xs),
  length-append (reverse xs) (x ∷ []),
  length-reverse xs,
)

small_fits : (k num : ℕ) → num < 128 → num < 128 ^ suc k
small_fits k num h = omega (arith, pow-suc 128 k, one-le-pow k 128)

groups_pos : (idx num more : ℕ) → 1 ≤ length (groups idx num more)
unfolding groups
groups_pos zero num more = omega arith
groups_pos (suc idx) num more = ground arith

-- Short groups stand for a small number, and a small number has short groups.
groups_small :
    (idx num more k : ℕ)
    → num < 128 ^ suc idx
    → length (groups idx num more) ≤ suc k
    → num < 128 ^ suc k
unfolding groups
groups_small zero num more k h le = small_fits k num (omega arith)
groups_small (suc idx) num more zero h le = elim (Bool-cases (ltb 127 num)) [
  | inl big ↦ absurd (omega (arith, rw big at le, groups_pos idx (num / 128) 128))
  | inr small ↦ small_fits 0 num (ground arith)
]
groups_small (suc idx) num more (suc k) h le = elim (Bool-cases (ltb 127 num)) [
  | inl big ↦
      let shorter : suc (length (groups idx (num / 128) 128)) ≤ suc (suc k) = rw big at le in
      let fits : num / 128 < 128 ^ suc idx = omega (arith, pow-suc 128 (suc idx)) in
      omega (arith, pow-suc 128 (suc k), groups_small idx (num / 128) 128 k fits (omega arith))
  | inr small ↦ small_fits (suc k) num (ground arith)
]

groups_short : (idx num more k : ℕ) → num < 128 ^ suc k → length (groups idx num more) ≤ suc k
unfolding groups
groups_short zero num more k h = omega arith
groups_short (suc idx) num more zero h = ground arith
groups_short (suc idx) num more (suc k) h =
    let next = groups_short idx (num / 128) 128 k (omega (arith, pow-suc 128 (suc k))) in
    ground arith

-- The encoding of a number below 2^bits has at most n bytes exactly if the number is below 128^n,
-- for every n from one on.
pub length-from :
    (t : Width) (num k : ℕ) (v : VarUint)
    → num < 2 ^ bits t
    → from (capacity t) num ≡ some v
    → (length (as_bytes v) ≤ suc k) ↔ (num < 128 ^ suc k)
length-from t num k v h e =
    let (idx, cap, wide) = width-IsWide t in
    let (v', e', f, shape) = round_trip (bits t) idx num wide h in
    let same : v ≡ v' = some_eq (sym e ∙ rw cap e') in
    let len : length (as_bytes v) ≡ length (groups idx num 0) =
      rw (same, shape) (length-reverse (groups idx num 0)) in
    (
      λ short. groups_small idx num 0 k (omega arith) (omega arith),
      λ small. omega (arith, len, groups_short idx num 0 k small),
    )
  where
    some_eq : {a b : VarUint} → some a ≡ some b → a ≡ b
    some_eq e = cc
