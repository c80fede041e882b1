-- ===== src/Executor/Worker/Fences.antt =====
-- Which of the other workers is selected.
use fabaccess_server.Prelude.{
  ℕ, suc, ◌≡◌, ◌≤◌, refl, inl, inr, leb, Bool-cases, Option, none, some, List, [], ◌∷◌,
  if◌then◌else◌, length, All, arith,
}
use fabaccess_server.Executor.Worker.{fence_at, select_fence}

module _ {Task : Type 0} where
  abbrev pub AllEmpty : List (List Task) → Type 0
  AllEmpty = All (λ (fence : List Task). fence ≡ [])

  -- No fence is longer than this.
  abbrev pub AtMost : ℕ → List (List Task) → Type 0
  AtMost n = All (λ (fence : List Task). length fence ≤ n)

  AtMost-le : (m n : ℕ) (fences : List (List Task)) → m ≤ n → AtMost m fences → AtMost n fences
  AtMost-le m n [] le a = tt
  AtMost-le m n (fence ∷ fences) le (a, b) = (omega (arith, a), AtMost-le m n fences le b)

  pub AtMost-zero : (fences : List (List Task)) → AtMost 0 fences → AllEmpty fences
  AtMost-zero [] a = tt
  AtMost-zero ([] ∷ fences) (a, b) = (refl, AtMost-zero fences b)
  AtMost-zero ((x ∷ fence) ∷ fences) (a, b) = absurd (omega (arith, a))

  -- The selected fence is one of the longest.
  abbrev pub IsLongest : List (List Task) → Option ℕ → Type 0
  IsLongest fences none = fences ≡ []
  IsLongest fences (some j) = AtMost (length (fence_at Task j fences)) fences

  pub select_fence-IsLongest :
      (fences : List (List Task)) → IsLongest fences (select_fence Task fences)
  unfolding select_fence
  select_fence-IsLongest [] = refl
  select_fence-IsLongest (fence ∷ fences) =
      goes (select_fence Task fences) (select_fence-IsLongest fences)
    where
      goes :
          (o : Option ℕ)
          → IsLongest fences o
          → IsLongest (fence ∷ fences) (elim o [
            | none ↦ some 0
            | some j ↦
                if leb (length fence) (length (fence_at Task j fences))
                then some (suc j)
                else some 0
          ])
      goes none e = (omega arith, rw e tt)
      goes (some j) a = elim (Bool-cases (leb (length fence) (length (fence_at Task j fences)))) [
        | inl le ↦ rw le (ground arith, a)
        | inr gt ↦ rw gt (
          omega arith,
          AtMost-le (length (fence_at Task j fences)) (length fence) fences (ground arith) a,
        )
      ]
