-- ===== src/Resources/Search/Lookup.antt =====
-- What the index finds, by id and by URN.
use fabaccess_server.Prelude.{
  ℕ, ◌≡◌, ◌≢◌, ◌↔◌, refl, subst, ap, ◌∙◌, false, none, some, List, [], ◌∷◌, ◌++◌, ◌==◌, All,
  Bool-cases, Option-cases, inl, inr, str_eq, str_eq_refl, str_eq_sound, Str, codes,
}
use fabaccess_server.Resources.Search.{
  split, drop_empty_end, split_terminator, urn_id, get_by_id, get_by_urn, Index, find_id, new_loop,
  new_index,
}

-- No byte of the text is a colon.
abbrev pub HasNoColon : Str → Type 0
HasNoColon = All (λ c. (c == b':') ≡ false)

split_whole : (s : Str) → HasNoColon s → split b':' s ≡ s ∷ []
unfolding split
split_whole [] h = refl
split_whole (c ∷ s) h = rw (h.0, split_whole s h.1)

abbrev pub urn_of : Str → Str
urn_of id = codes "urn:fabaccess:resource:" ++ id

urn_parts :
    (c : ℕ) (id : Str)
    → HasNoColon (c ∷ id)
    → split_terminator b':' (urn_of (c ∷ id))
      ≡ codes "urn" ∷ codes "fabaccess" ∷ codes "resource" ∷ (c ∷ id) ∷ []
urn_parts c id h =
    let parts : split b':' (urn_of (c ∷ id))
        ≡ codes "urn" ∷ codes "fabaccess" ∷ codes "resource" ∷ (c ∷ id) ∷ [] =
      unfold split in rw (h.0, split_whole id h.1) in
    ap drop_empty_end parts ∙ (unfold drop_empty_end in refl)

urn_id-urn_of :
    (id : Str) → id ≢ [] → HasNoColon id → urn_id (split_terminator b':' (urn_of id)) ≡ some id
urn_id-urn_of [] ne h = absurd (ne refl)
urn_id-urn_of (c ∷ id) ne h = ap urn_id (urn_parts c id h) ∙ (unfold urn_id str_eq in refl)

module _ {A : Type 0} (id_of : A → Str) where
  -- For an id that is not empty and has no colon, the lookup of "urn:fabaccess:resource:"
  -- followed by the id is the lookup of the id.
  pub get_by_urn_lem :
      (index : Index id_of) (id : Str)
      → id ≢ []
      → HasNoColon id
      → get_by_urn id_of index (urn_of id) ≡ get_by_id id_of index id
  unfolding get_by_urn
  get_by_urn_lem index id ne h = ap (find_id id_of index) (urn_id-urn_of id ne h)

  -- What an index finds, a longer one that `new_loop` makes of it finds as well.
  new_loop_keeps :
      (rs : List A) (index final : Index id_of) (id : Str) (r : A)
      → new_loop id_of index rs ≡ some final
      → get_by_id id_of index id ≡ some r
      → get_by_id id_of final id ≡ some r
  unfolding new_loop
  new_loop_keeps [] index final id r e f =
      subst (λ ix. get_by_id id_of ix id ≡ some r) (some_eq e) f
    where
      some_eq : {x y : Index id_of} → some x ≡ some y → x ≡ y
      some_eq q = cc
  new_loop_keeps (s ∷ rs) index final id r e f =
      elim (Option-cases (get_by_id id_of index (id_of s))) [
        | inl new ↦
            new_loop_keeps rs ((id_of s, s) ∷ index) final id r (rw (new, new_loop) at e)
              (elim (Bool-cases (str_eq (id_of s) id)) [
                | inl same ↦ let q : id_of s ≡ id = str_eq_sound (id_of s) id same in cc
                | inr other ↦ unfold get_by_id in rw other f
              ])
        | inr (old, there) ↦ cc (rw (there, new_loop) at e)
      ]

  new_loop_finds :
      (rs : List A) (index final : Index id_of)
      → new_loop id_of index rs ≡ some final
      → All (λ r. get_by_id id_of final (id_of r) ≡ some r) rs
  unfolding new_loop
  new_loop_finds [] index final e = tt
  new_loop_finds (r ∷ rs) index final e = elim (Option-cases (get_by_id id_of index (id_of r))) [
    | inl new ↦
        let rest : new_loop id_of ((id_of r, r) ∷ index) rs ≡ some final =
          rw (new, new_loop) at e in
        (
          new_loop_keeps rs ((id_of r, r) ∷ index) final (id_of r) r rest
              (unfold get_by_id in rw (str_eq_refl (id_of r))),
          new_loop_finds rs ((id_of r, r) ∷ index) final rest,
        )
    | inr (old, there) ↦ cc (rw (there, new_loop) at e)
  ]

  -- In an index that was built from some resources, each of them is found by its id.
  pub new_index-get_by_id :
      (rs : List A) (index : Index id_of)
      → new_index id_of rs ≡ some index
      → All (λ r. get_by_id id_of index (id_of r) ≡ some r) rs
  new_index-get_by_id rs index e = new_loop_finds rs [] index e

  -- No two resources share an id.
  abbrev pub IsDistinct : List A → Type 0
  IsDistinct [] = Unit {0}
  IsDistinct (r ∷ rs) = All (λ s. str_eq (id_of r) (id_of s) ≡ false) rs × IsDistinct rs

  -- An index has no resource's id.
  abbrev IsFresh : Index id_of → List A → Type 0
  IsFresh index = All (λ s. get_by_id id_of index (id_of s) ≡ none)

  -- An index with one more entry has no id of these exactly if the entry has none and the rest.
  IsFresh-split :
      (r : A) (index : Index id_of) (rs : List A)
      → IsFresh ((id_of r, r) ∷ index) rs
      → IsFresh index rs × All (λ s. str_eq (id_of r) (id_of s) ≡ false) rs
  unfolding get_by_id
  IsFresh-split r index [] f = (tt, tt)
  IsFresh-split r index (s ∷ rs) f =
      let (old, apart) = IsFresh-split r index rs f.1 in
      elim (Bool-cases (str_eq (id_of r) (id_of s))) [
        | inl same ↦ cc (rw (same, get_by_id) at (f.0))
        | inr other ↦ ((rw (other, get_by_id) at (f.0), old), (other, apart))
      ]

  IsFresh-join :
      (r : A) (index : Index id_of) (rs : List A)
      → IsFresh index rs
      → All (λ s. str_eq (id_of r) (id_of s) ≡ false) rs
      → IsFresh ((id_of r, r) ∷ index) rs
  unfolding get_by_id
  IsFresh-join r index [] f d = tt
  IsFresh-join r index (s ∷ rs) f d = (rw d.0 (f.0), IsFresh-join r index rs f.1 d.1)

  nothing-IsFresh : (rs : List A) → IsFresh [] rs
  unfolding get_by_id
  nothing-IsFresh [] = tt
  nothing-IsFresh (r ∷ rs) = (refl, nothing-IsFresh rs)

  -- The index of some resources is built, without the panic of its assertion, exactly when no
  -- two of them share an id.
  pub new_index_iff :
      (rs : List A) → ((index : Index id_of) × (new_index id_of rs ≡ some index)) ↔ IsDistinct rs
  unfolding new_loop
  new_index_iff rs =
      (λ (index, e). (apart rs [] index e).1, λ d. built rs [] (nothing-IsFresh rs) d)
    where
      apart :
          (rs : List A) (index final : Index id_of)
          → new_loop id_of index rs ≡ some final
          → IsFresh index rs × IsDistinct rs
      apart [] index final e = (tt, tt)
      apart (r ∷ rs) index final e = elim (Option-cases (get_by_id id_of index (id_of r))) [
        | inl new ↦
            let (f, d) = apart rs ((id_of r, r) ∷ index) final (rw (new, new_loop) at e) in
            let (old, other) = IsFresh-split r index rs f in ((new, old), (other, d))
        | inr (old, there) ↦ cc (rw (there, new_loop) at e)
      ]

      built :
          (rs : List A) (index : Index id_of)
          → IsFresh index rs
          → IsDistinct rs
          → (final : Index id_of) × (new_loop id_of index rs ≡ some final)
      built [] index f d = (index, refl)
      built (r ∷ rs) index f d =
          let (final, e) = built rs ((id_of r, r) ∷ index) (IsFresh-join r index rs f.1 d.0) d.1 in
          (final, rw (f.0, new_loop) e)
