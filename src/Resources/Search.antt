-- ===== src/Resources/Search.antt =====
-- The index of all resources: bffhd/resources/search.rs. A resource is a value of any type with an id.
pub mod Lookup
use fabaccess_server.Prelude.{
  ℕ, Bool, true, false, Option, none, some, List, [], ◌∷◌, ◌==◌, ◌&&◌, if◌then◌else◌, str_eq, Str,
  codes,
}

-- `str::split` at one byte.
abbrev push_front : ℕ → List Str → List Str
push_front c [] = (c ∷ []) ∷ []
push_front c (seg ∷ segs) = (c ∷ seg) ∷ segs

unfoldable pub split : ℕ → Str → List Str
split sep [] = [] ∷ []
split sep (c ∷ s) = if c == sep then [] ∷ split sep s else push_front c (split sep s)

-- `str::split_terminator` leaves out a last part that is empty.
unfoldable pub drop_empty_end : List Str → List Str
drop_empty_end [] = []
drop_empty_end ([] ∷ []) = []
drop_empty_end (seg ∷ segs) = seg ∷ drop_empty_end segs

abbrev pub split_terminator : ℕ → Str → List Str
split_terminator sep s = drop_empty_end (split sep s)

-- The id in the parts of a URN; parts behind it are not looked at.
unfoldable pub urn_id : List Str → Option Str
urn_id (urn ∷ fabaccess ∷ resource ∷ id ∷ _) =
    if str_eq urn (codes "urn")
      && (str_eq fabaccess (codes "fabaccess") && str_eq resource (codes "resource"))
    then some id
    else none
urn_id _ = none

module _ {A : Type 0} (id_of : A → Str) where
  -- `HashMap<String, Resource>`, with at most one entry for a key.
  abbrev pub Index : Type 0
  Index = List (Str × A)

  unfoldable pub get_by_id : Index → Str → Option A
  get_by_id [] id = none
  get_by_id ((key, r) ∷ index) id = if str_eq key id then some r else get_by_id index id

  -- An URN without an id finds nothing.
  abbrev pub find_id : Index → Option Str → Option A
  find_id index none = none
  find_id index (some id) = get_by_id index id

  unfoldable pub get_by_urn : Index → Str → Option A
  get_by_urn index urn = find_id index (urn_id (split_terminator b':' urn))

  -- The loop of `Inner::new`; `none` is the panic of the assertion on an id that is there already.
  unfoldable pub new_loop : Index → List A → Option Index
  new_loop index [] = some index
  new_loop index (r ∷ rs) =
      let rest = new_loop ((id_of r, r) ∷ index) rs in
      elim (get_by_id index (id_of r)) [ none ↦ rest | some _ ↦ none ]

  abbrev pub new_index : List A → Option Index
  new_index = new_loop []
