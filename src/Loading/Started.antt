-- ===== src/Loading/Started.antt =====
-- A module is started exactly where it is configured, connected and loadable.
use fabaccess_server.Prelude.{
  ◌≡◌, refl, ap, ◌∙◌, Bool-cases, inl, inr, if◌then◌else◌, Option, none, some, List, [], ◌∷◌,
  str_eq, str_eq_sound, Str, lookup, erase, lookup-erase, IsDistinct,
}
use fabaccess_server.Loading.{or_then, cons_found, connect, load_loop, load}

lookup-cons_found :
    {A : Type 0} (name j : Str) (o : Option A) (rest : List (Str × A))
    → lookup rest name ≡ none
    → lookup (cons_found name o rest) j ≡ (if str_eq name j then o else lookup rest j)
lookup-cons_found name j (some a) rest h = refl
lookup-cons_found name j none rest h = elim (Bool-cases (str_eq name j)) [
  | inl e ↦ rw (e, ← str_eq_sound name j e) h
  | inr e ↦ rw e
]

module _ {R M D : Type 0} (get_by_id : Str → Option R) (load_single : Str → M → R → Option D) where
  lookup-connect :
      (connections : List (Str × Str)) (j : Str)
      → IsDistinct connections
      → lookup (connect get_by_id load_single connections) j
        ≡ or_then (lookup connections j) get_by_id
  unfolding connect
  lookup-connect [] j d = refl
  lookup-connect ((name, id) ∷ connections) j d =
      lookup-cons_found name j (get_by_id id) (connect get_by_id load_single connections)
        (lookup-connect connections name d.1 ∙ rw (d.0))
      ∙ elim (Bool-cases (str_eq name j)) [
        | inl e ↦ rw e
        | inr e ↦ rw (e, lookup-connect connections j d.1)
      ]

  -- What is started of a module, with these resources left.
  abbrev started : List (Str × R) → Option M → Str → Option D
  started resources config name =
      or_then config (λ c. or_then (lookup resources name) (load_single name c))

  lookup-load_loop :
      (configs : List (Str × M)) (resources : List (Str × R)) (j : Str)
      → IsDistinct configs
      → lookup (load_loop get_by_id load_single resources configs) j
        ≡ started resources (lookup configs j) j
  unfolding load_loop
  lookup-load_loop [] resources j d = refl
  lookup-load_loop ((name, config) ∷ configs) resources j d =
      at (lookup resources name) refl (λ left i. lookup-load_loop configs left i d.1)
    where
      at :
          (o : Option R)
          → lookup resources name ≡ o
          → ((left : List (Str × R)) (i : Str)
              → lookup (load_loop get_by_id load_single left configs) i
                ≡ started left (lookup configs i) i)
          → lookup
              (elim o [
                | none ↦ load_loop get_by_id load_single resources configs
                | some r ↦
                    cons_found name
                      (load_single name config r)
                      (load_loop get_by_id load_single (erase name resources) configs)
              ])
              j
            ≡ started resources (if str_eq name j then some config else lookup configs j) j
      at none e ih = elim (Bool-cases (str_eq name j)) [
        | inl same ↦
            let at_name = str_eq_sound name j same in ih resources j ∙ rw (same, ← at_name, d.0, e)
        | inr other ↦ ih resources j ∙ rw other
      ]
      at (some r) e ih =
          lookup-cons_found name j (load_single name config r) _
            (ih (erase name resources) name ∙ rw (d.0))
          ∙ elim (Bool-cases (str_eq name j)) [
            | inl same ↦ let at_name = str_eq_sound name j same in rw (same, ← at_name, e)
            | inr other ↦
                let left : lookup (erase name resources) j ≡ lookup resources j =
                  lookup-erase name j resources ∙ rw other in
                rw (other, ih (erase name resources) j)
                  (ap
                    (λ (o : Option R).
                      or_then (lookup configs j) (λ c. or_then o (load_single j c)))
                    left)
          ]

  -- With no name twice among the connections or the modules of the configuration, what is
  -- started under a name is what the lookups give one after the other: the module configured
  -- under that name, the resource connected to it, if there is one of its id, and what
  -- `load_single` makes of both.
  pub lookup-load :
      (connections : List (Str × Str)) (configs : List (Str × M)) (j : Str)
      → IsDistinct connections
      → IsDistinct configs
      → lookup (load get_by_id load_single connections configs) j
        ≡ or_then (lookup configs j) (λ config.
          or_then
            (lookup connections j)
            (λ id. or_then (get_by_id id) (λ r. load_single j config r)))
  unfolding load
  lookup-load connections configs j distinct distinct' =
      lookup-load_loop configs (connect get_by_id load_single connections) j distinct'
      ∙ rw (lookup-connect connections j distinct) (both (lookup configs j) (lookup connections j))
    where
      both :
          (c : Option M) (i : Option Str)
          → or_then c (λ config. or_then (or_then i get_by_id) (load_single j config))
            ≡ or_then c
                (λ config. or_then i (λ id. or_then (get_by_id id) (λ r. load_single j config r)))
      both none i = refl
      both (some config) none = refl
      both (some config) (some id) = refl
