-- ===== src/Lightproc/Layout/Multiples.antt =====
-- Alignments that others cover.
use fabaccess_server.Prelude.{
  ℕ, ◌+◌, ◌-◌, ◌*◌, ◌^◌, ◌≤◌, ◌<◌, ◌≡◌, sym, ap, subst, ◌∙◌, arith, ◌⊎◌, inl, inr,
}
use Prim.Native.Nat.{max}
use native.Mathlib.Nat.{mul_assoc, add-mul, pow-le-pow_right, max_comm, max-eq_left, max-eq_right}
use fabaccess_server.Prelude.Bits.{pow_add}
use fabaccess_server.Lightproc.Layout.Extend.{IsPower}

-- An alignment that another one covers.
abbrev pub IsMultiple : ℕ → ℕ → Type 0
IsMultiple a n = (q : ℕ) × (n ≡ q * a)

pub IsMultiple-trans : (a b n : ℕ) → IsMultiple a b → IsMultiple b n → IsMultiple a n
IsMultiple-trans a b n (q, h) (r, k) = (r * q, k ∙ rw h (sym (mul_assoc r q a)))

pub IsMultiple-add : (a m n : ℕ) → IsMultiple a m → IsMultiple a n → IsMultiple a (m + n)
IsMultiple-add a m n (q, h) (r, k) = (q + r, rw (h, k) (sym (add-mul q r a)))

powers : (e f : ℕ) → 0 < 2 → e ≤ f → 2 ^ e ≤ 2 ^ f
powers e f two h = pow-le-pow_right two h

split : (e f : ℕ) → (e ≤ f) ⊎ (f ≤ e)
split e f = grind arith

powers-IsMultiple : (e f : ℕ) → IsMultiple (2 ^ e) (max (2 ^ e) (2 ^ f))
powers-IsMultiple e f = elim (split e f) [
  | inl h ↦ (
    2 ^ (f - e),
    max-eq_right (powers e f (omega arith) h)
        ∙ (ap (λ (n : ℕ). 2 ^ n) (omega arith) ∙ pow_add (f - e) e),
  )
  | inr h ↦ (1, max-eq_left (powers f e (omega arith) h) ∙ omega arith)
]

pub max_left : (a b : ℕ) → IsPower a → IsPower b → IsMultiple a (max a b)
max_left a b p q = rw (p.power, q.power) (powers-IsMultiple p.exponent q.exponent)

pub max_right : (a b : ℕ) → IsPower a → IsPower b → IsMultiple b (max a b)
max_right a b p q = subst (IsMultiple b) (max_comm b a) (max_left b a q p)
