-- ===== src/Prelude/Maps.antt =====
-- Maps by association lists; the first entry of a key counts.
use mathlib.Core.Path.{◌≡◌, refl}
use mathlib.Core.Bool.{false}
use mathlib.Core.Option.{Option, none, some}
use mathlib.Core.List.{List, [], ◌∷◌}
use mathlib.Core.Logic.{inl, inr}
use fabaccess_server.Prelude.Tests.{if◌then◌else◌, Bool-cases, str_eq, str_eq_sound, str_eq_refl}
use fabaccess_server.Prelude.Results.{Str}

module _ {ℓ} {V : Type ℓ} where
  abbrev pub lookup : List (Str × V) → Str → Option V
  lookup [] j = none
  lookup ((k, v) ∷ m) j = if str_eq k j then some v else lookup m j

  abbrev pub erase : Str → List (Str × V) → List (Str × V)
  erase k [] = []
  erase k ((j, v) ∷ m) = let rest = erase k m in if str_eq k j then rest else (j, v) ∷ rest

  abbrev pub insert_key : Str → V → List (Str × V) → List (Str × V)
  insert_key k v m = (k, v) ∷ erase k m

  pub lookup-erase :
      (k j : Str) (m : List (Str × V))
      → lookup (erase k m) j ≡ (if str_eq k j then none else lookup m j)
  lookup-erase k j [] = elim (Bool-cases (str_eq k j)) [ inl e ↦ rw e | inr e ↦ rw e ]
  lookup-erase k j ((i, v) ∷ m) = elim (Bool-cases (str_eq k i)) [
    | inl same ↦
        rw (same, lookup-erase k j m)
          (elim (Bool-cases (str_eq k j)) [
            | inl e ↦ rw e
            | inr e ↦ rw (e, ← str_eq_sound k i same, e)
          ])
    | inr other ↦ rw other (elim (Bool-cases (str_eq i j)) [
      | inl e ↦ let apart : str_eq k j ≡ false = rw (str_eq_sound i j e) at other in rw (e, apart)
      | inr e ↦ rw (e, lookup-erase k j m)
    ])
  ]

  pub lookup-insert_key :
      (k j : Str) (v : V) (m : List (Str × V))
      → lookup (insert_key k v m) j ≡ (if str_eq k j then some v else lookup m j)
  lookup-insert_key k j v m = elim (Bool-cases (str_eq k j)) [
    | inl e ↦ rw e
    | inr e ↦ rw (e, lookup-erase k j m, e)
  ]

-- Every key stands once.
abbrev pub IsDistinct {ℓ} : {V : Type ℓ} → List (Str × V) → Type ℓ
IsDistinct [] = Unit
IsDistinct ((k, _) ∷ m) = (lookup m k ≡ none) × IsDistinct m

abbrev pub map_values {ℓ κ} : {V : Type ℓ} {W : Type κ} → (V → W) → List (Str × V) → List (Str × W)
map_values f [] = []
map_values f ((k, v) ∷ m) = (k, f v) ∷ map_values f m

abbrev pub map_option {ℓ κ} : {V : Type ℓ} {W : Type κ} → (V → W) → Option V → Option W
map_option f none = none
map_option f (some v) = some (f v)

pub lookup-map_values {ℓ κ} :
    {V : Type ℓ} {W : Type κ} (f : V → W) (m : List (Str × V)) (j : Str)
    → lookup (map_values f m) j ≡ map_option f (lookup m j)
lookup-map_values f [] j = refl
lookup-map_values f ((k, v) ∷ m) j = elim (Bool-cases (str_eq k j)) [
  | inl e ↦ rw e
  | inr e ↦ rw (e, lookup-map_values f m j)
]

pub map_values-IsDistinct {ℓ κ} :
    {V : Type ℓ} {W : Type κ} (f : V → W) (m : List (Str × V))
    → IsDistinct m
    → IsDistinct (map_values f m)
map_values-IsDistinct f [] d = tt
map_values-IsDistinct f ((k, v) ∷ m) d =
    (rw (lookup-map_values f m k, d.0), map_values-IsDistinct f m d.1)

module _ {ℓ} {V : Type ℓ} where
  pub erase-IsDistinct : (k : Str) (m : List (Str × V)) → IsDistinct m → IsDistinct (erase k m)
  erase-IsDistinct k [] d = tt
  erase-IsDistinct k ((j, v) ∷ m) (h, d) = elim (Bool-cases (str_eq k j)) [
    | inl e ↦ rw e (erase-IsDistinct k m d)
    | inr e ↦ rw e (rw (lookup-erase k j m, e) h, erase-IsDistinct k m d)
  ]

  pub insert_key-IsDistinct :
      (k : Str) (v : V) (m : List (Str × V)) → IsDistinct m → IsDistinct (insert_key k v m)
  insert_key-IsDistinct k v m d =
      (rw (lookup-erase k k m, str_eq_refl k) refl, erase-IsDistinct k m d)
