-- ===== src/Utils/Varint/Groups.antt =====
-- The bytes that `from` writes, as groups of seven bits, lowest first.
use fabaccess_server.Prelude.{
  ℕ, zero, suc, ◌+◌, ◌/◌, ◌%◌, ◌^◌, ◌<◌, ◌≡◌, ◌⊎◌, refl, sym, ap, ◌∙◌, inl, inr, false, some, List,
  [], ◌∷◌, ◌++◌, ltb, if◌then◌else◌, Bool-cases, set, drop, replicate, length, bit_and, bit_or,
  append_assoc, append-nil, arith,
}
use fabaccess_server.Prelude.Bits.{bit_and-0x7f, bit_or_disjoint, bit_or-zero}
use mathlib.Core.List.{reverse, reverse-append}
use native.Mathlib.Nat.{pow-suc}
use fabaccess_server.Utils.Varint.{VarUint, default, as_bytes, from_loop, from}

-- Lowest group first; `k` groups may follow.
unfoldable pub groups : ℕ → ℕ → ℕ → List ℕ
groups zero num more = (num + more) ∷ []
groups (suc k) num more =
    let rest = groups k (num / 128) 128 in
    if ltb 127 num then (num % 128 + more) ∷ rest else (num + more) ∷ []

abbrev pub IsMark : ℕ → Type 0
IsMark more = (more ≡ 0) ⊎ (more ≡ 128)

marked : (g more : ℕ) → g < 128 → IsMark more → bit_or g more ≡ g + more
marked g more h (inl e) = rw e (bit_or-zero g ∙ omega arith)
marked g more h (inr e) = rw e (bit_or_disjoint 7 g 1 (omega arith))

drop-set : (xs : List ℕ) (i v : ℕ) → i < length xs → drop i (set xs i v) ≡ v ∷ drop (suc i) xs
drop-set [] i v h = absurd (omega arith)
drop-set (x ∷ xs) zero v h = refl
drop-set (x ∷ xs) (suc i) v h = drop-set xs i v (omega arith)

length-set : (xs : List ℕ) (i v : ℕ) → length (set xs i v) ≡ length xs
length-set [] i v = refl
length-set (x ∷ xs) zero v = refl
length-set (x ∷ xs) (suc i) v = omega (arith, length-set xs i v)

first_group :
    (bytes : List ℕ) (idx num more : ℕ)
    → idx < length bytes
    → num < 128
    → IsMark more
    → drop idx (set bytes idx (bit_or num more)) ≡ (num + more) ∷ drop (suc idx) bytes
first_group bytes idx num more h small mark =
    rw (marked num more small mark) (drop-set bytes idx (num + more) h)

inner_group :
    (bytes : List ℕ) (idx num more : ℕ)
    → idx < length bytes
    → IsMark more
    → drop idx (set bytes idx (bit_or (bit_and num 0x7f) more))
      ≡ (num % 128 + more) ∷ drop (suc idx) bytes
inner_group bytes idx num more h mark =
    rw (bit_and-0x7f num, marked (num % 128) more (omega arith) mark)
      (drop-set bytes idx (num % 128 + more) h)

reverse_shift : (x : ℕ) (g d : List ℕ) → reverse (x ∷ g) ++ d ≡ reverse g ++ (x ∷ d)
reverse_shift x g d =
    ap (λ t. t ++ d) (reverse-append (x ∷ []) g) ∙ append_assoc (reverse g) (x ∷ []) d

not_big : (num : ℕ) → ltb 127 num ≡ false → num < 128
not_big num h = ground arith

fits_next : (idx num : ℕ) → num < 128 ^ suc (suc idx) → num / 128 < 128 ^ suc idx
fits_next idx num h = omega (arith, pow-suc 128 (suc idx))

-- What `from_loop` leaves behind `offset`.
pub from_loop-groups :
    (idx num more : ℕ) (bytes : List ℕ)
    → idx < length bytes
    → num < 128 ^ suc idx
    → IsMark more
    → (v : VarUint) × (from_loop num more bytes idx ≡ some v)
      × (as_bytes v ≡ reverse (groups idx num more) ++ drop (suc idx) bytes)
unfolding from_loop as_bytes groups
from_loop-groups zero num more bytes h fits mark =
    let small : ltb 127 num ≡ false = ground arith in
    (
      record { offset = 0; bytes = set bytes 0 (bit_or num more) },
      rw small,
      first_group bytes 0 num more h (omega arith) mark,
    )
from_loop-groups (suc idx) num more bytes h fits mark = elim (Bool-cases (ltb 127 num)) [
  | inl big ↦
      let next = set bytes (suc idx) (bit_or (bit_and num 0x7f) more) in
      let (v, e, f) =
        from_loop-groups idx (num / 128) 128 next
          (omega (arith, length-set bytes (suc idx) (bit_or (bit_and num 0x7f) more)))
          (fits_next idx num fits) (inr refl) in
      (
        v,
        rw big e,
        f
            ∙ ap (λ d. reverse (groups idx (num / 128) 128) ++ d)
                (inner_group bytes (suc idx) num more h mark)
            ∙ rw big (
                sym (
                  reverse_shift (num % 128 + more) (groups idx (num / 128) 128)
                    (drop (suc (suc idx)) bytes))),
      )
  | inr small ↦ (
    record { offset = suc idx; bytes = set bytes (suc idx) (bit_or num more) },
    rw small,
    rw small (first_group bytes (suc idx) num more h (not_big num small) mark),
  )
]

drop_all : (n : ℕ) → drop n (replicate {A = ℕ} n 0) ≡ []
drop_all zero = refl
drop_all (suc n) = drop_all n

length_zeros : (n : ℕ) → length (replicate {A = ℕ} n 0) ≡ n
length_zeros zero = refl
length_zeros (suc n) = omega (arith, length_zeros n)

-- `from` does not panic on a number that fits, and its bytes are the groups, highest first.
pub from-groups :
    (idx num : ℕ)
    → num < 128 ^ suc idx
    → (v : VarUint) × (from (suc idx) num ≡ some v) × (as_bytes v ≡ reverse (groups idx num 0))
unfolding from default
from-groups idx num fits =
    let zeros : List ℕ = replicate (suc idx) 0 in
    let (v, e, f) =
      from_loop-groups idx num 0 zeros (omega (arith, length_zeros (suc idx))) fits (inl refl) in
    (v, e, f ∙ ap (λ d. reverse (groups idx num 0) ++ d) (drop_all (suc idx)) ∙ append-nil _)
