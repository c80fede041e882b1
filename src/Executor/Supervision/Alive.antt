-- ===== src/Executor/Supervision/Alive.antt =====
-- Groups that stay alive.
use fabaccess_server.Prelude.{
  ℕ, ◌+◌, ◌%◌, ◌^◌, ◌<◌, ◌==◌, ==_refl, ==_iff, ◌≡◌, ◌↔◌, ◌⊎◌, inl, inr, sym, ap, subst, ◌∙◌, false,
  Bool-cases, Option, none, some, Option-cases, arith,
}
use fabaccess_server.Loading.{or_then}
use fabaccess_server.Executor.Supervision.{
  GroupId, id_to_idx, idx_to_id, get_or, clone_of, GroupInner, SupervisionRegistry, get, store,
  set_current, clone_group, clone_current, new_group_inner, new_group,
}

-- The group exists.
abbrev pub IsOpen : SupervisionRegistry → Option GroupId → Type 0
IsOpen reg none = Unit
IsOpen reg (some id) = (group : GroupInner) × (get reg id ≡ some group)

-- Every group has a reference and its parent exists, and so does the thread's group.
pub record IsAlive (reg : SupervisionRegistry) : Type 0 where
  pub counted :
      (idx : ℕ) (group : GroupInner)
      → reg.groups idx ≡ some group
      → (0 < group.ref_count) × IsOpen reg group.parent
  pub current_open : IsOpen reg reg.current

-- No count is at its limit.
abbrev pub IsRoomy : SupervisionRegistry → Type 0
IsRoomy reg =
    (idx : ℕ) (group : GroupInner) → reg.groups idx ≡ some group → group.ref_count + 1 < 2 ^ 64

store-IsOpen :
    (reg : SupervisionRegistry) (idx : ℕ) (group : GroupInner) (o : Option GroupId)
    → IsOpen reg o
    → IsOpen (store idx group reg) o
unfolding get
store-IsOpen reg idx group none h = tt
store-IsOpen reg idx group (some id) (old, h) = elim (Bool-cases (id_to_idx id == idx)) [
  | inl e ↦ (group, rw e)
  | inr e ↦ (old, rw e h)
]

some_injective : {A : Type 0} (a b : A) → some a ≡ some b → a ≡ b
some_injective a b h = cc

store-IsAlive :
    (reg : SupervisionRegistry) (idx : ℕ) (group : GroupInner)
    → IsAlive reg
    → 0 < group.ref_count
    → IsOpen reg group.parent
    → IsAlive (store idx group reg)
store-IsAlive reg idx group alive positive open_parent = record {
  counted = λ j g h. elim (Bool-cases (j == idx)) [
    | inl e ↦
        let same : some group ≡ some g = rw e at h in
        subst (λ (g' : GroupInner). (0 < g'.ref_count) × IsOpen (store idx group reg) g'.parent)
          (some_injective group g same)
          (positive, store-IsOpen reg idx group group.parent open_parent)
    | inr e ↦
        let old : reg.groups j ≡ some g = rw e at h in
        let (more, parent) = alive.counted j g old in
        (more, store-IsOpen reg idx group g.parent parent)
  ];
  current_open = store-IsOpen reg idx group reg.current alive.current_open;
}

stored :
    (idx : ℕ) (group : GroupInner) (reg : SupervisionRegistry)
    → (store idx group reg).groups idx ≡ some group
stored idx group reg = rw (==_refl idx)

-- A group with one reference more.
abbrev pub grown : GroupInner → GroupInner
grown group = record group { ref_count = (group.ref_count + 1) % 2 ^ 64 }

clone_group_lem :
    (reg : SupervisionRegistry) (id : GroupId) (group : GroupInner)
    → IsAlive reg
    → IsRoomy reg
    → get reg id ≡ some group
    → (clone_group id reg ≡ some (id, store (id_to_idx id) (grown group) reg))
      × IsAlive (store (id_to_idx id) (grown group) reg)
unfolding clone_group get
clone_group_lem reg id group alive roomy h =
    let (positive, parent) = alive.counted (id_to_idx id) group h in
    let some_room = roomy (id_to_idx id) group h in
    let tested : (group.ref_count == 0) ≡ false = ground arith in
    (rw (h, tested), store-IsAlive reg (id_to_idx id) (grown group) alive (omega arith) parent)

idx_to_id_lem : (idx : ℕ) → idx + 1 < 2 ^ 64 → idx_to_id idx ≡ some (idx + 1)
unfolding idx_to_id
idx_to_id_lem idx h =
    let whole : (idx + 1) % 2 ^ 64 ≡ idx + 1 = omega arith in
    let tested : (idx + 1 == 0) ≡ false = ground arith in rw (whole, tested)

id_to_idx_lem : (idx : ℕ) → idx + 1 < 2 ^ 64 → id_to_idx (idx + 1) ≡ idx
unfolding id_to_idx
id_to_idx_lem idx h = omega arith

-- An index is free in the second registry where it is in the first.
abbrev pub KeepsFree : SupervisionRegistry → SupervisionRegistry → Type 0
KeepsFree reg after = (idx : ℕ) → reg.groups idx ≡ none → after.groups idx ≡ none

-- The pool gives an index that no group has, as long as no more of them are taken than here.
abbrev pub HasRoom : (SupervisionRegistry → Option ℕ) → SupervisionRegistry → Type 0
HasRoom allocate reg =
    (after : SupervisionRegistry)
    → KeepsFree reg after
    → (idx : ℕ) × (allocate after ≡ some idx) × (after.groups idx ≡ none) × (idx + 1 < 2 ^ 64)

store-KeepsFree :
    (reg : SupervisionRegistry) (idx : ℕ) (old group : GroupInner)
    → reg.groups idx ≡ some old
    → KeepsFree reg (store idx group reg)
store-KeepsFree reg idx old group h j free = elim (Bool-cases (j == idx)) [
  | inl e ↦ absurd (
      let same : reg.groups j ≡ some old =
        subst (λ (i : ℕ). reg.groups i ≡ some old) (sym ((==_iff j idx).0 e)) h in
      cc)
  | inr e ↦ rw e free
]

abbrev pub new_inner : Option GroupId → GroupInner
new_inner parent = record { parent = parent; ref_count = 1 }

module _ (allocate : SupervisionRegistry → Option ℕ) where
  new_group_inner_lem :
      (parent : Option GroupId) (first reg : SupervisionRegistry)
      → HasRoom allocate first
      → KeepsFree first reg
      → IsAlive reg
      → IsOpen reg parent
      → (id : GroupId) × (reg' : SupervisionRegistry) × (new_group_inner allocate parent reg
          ≡ some (id, reg'))
        × IsAlive reg'
        × (get reg' id ≡ some (new_inner parent))
        × ((old : GroupId) (g : GroupInner) → get reg old ≡ some g → get reg' old ≡ some g)
  unfolding new_group_inner get
  new_group_inner_lem parent first reg room keeps alive open_parent =
      let (idx, allocated, unused, fits) = room reg keeps in
      (
        idx + 1,
        store idx (new_inner parent) reg,
        rw (allocated, idx_to_id_lem idx fits),
        store-IsAlive reg idx (new_inner parent) alive (omega arith) open_parent,
        rw (id_to_idx_lem idx fits, ==_refl idx),
        λ old g h. elim (Bool-cases (id_to_idx old == idx)) [
          | inl e ↦ absurd (
              let same : id_to_idx old ≡ idx = (==_iff (id_to_idx old) idx).0 e in
              let none_there : reg.groups (id_to_idx old) ≡ none =
                subst (λ (j : ℕ). reg.groups j ≡ none) (sym same) unused in
              cc)
          | inr e ↦ rw e h
        ],
      )

  -- From what the clone of the thread's group gives.
  new_group_from :
      (reg after : SupervisionRegistry) (o : Option GroupId)
      → clone_current reg ≡ some (o, after)
      → new_group allocate reg ≡ new_group_inner allocate o after
  unfolding new_group
  new_group_from reg after o h =
      ap
        (λ (c : Option (Option GroupId × SupervisionRegistry)).
          or_then c (λ cloned. new_group_inner allocate cloned.0 cloned.1))
        h

  -- In a registry in which every group has a reference and an existing parent, the thread's
  -- group exists and no count is at its limit, and where the pool has room, `new_group` does
  -- not panic: it makes a group with one reference below the thread's group, adds one reference
  -- to that one, and the same holds of the registry afterwards.
  pub new_group-IsAlive :
      (reg : SupervisionRegistry)
      → HasRoom allocate reg
      → IsAlive reg
      → IsRoomy reg
      → (id : GroupId) × (reg' : SupervisionRegistry) × (new_group allocate reg ≡ some (id, reg'))
        × IsAlive reg'
        × (get reg' id ≡ some (new_inner reg.current))
        × ((parent : GroupId) (group : GroupInner)
            → reg.current ≡ some parent
            → get reg parent ≡ some group
            → get reg' parent ≡ some (grown group))
  unfolding clone_current get
  new_group-IsAlive reg room alive roomy = elim (Option-cases reg.current) [
    | inl alone ↦
        let (id, reg', made, alive', same, kept) =
          new_group_inner_lem none reg reg room (λ idx free. free) alive tt in
        let cloned : clone_current reg ≡ some (none, reg) =
          ap (λ (o : Option GroupId). clone_of o reg) alone in
        (
          id,
          reg',
          new_group_from reg reg none cloned ∙ made,
          alive',
          same ∙ ap (λ (o : Option GroupId). some (new_inner o)) (sym alone),
          λ parent group h. absurd cc,
        )
    | inr (current, h) ↦
        let (group, there) = subst (IsOpen reg) h alive.current_open in
        let (one, alive_after) = clone_group_lem reg current group alive roomy there in
        let after = store (id_to_idx current) (grown group) reg in
        let cloned : clone_current reg ≡ some (some current, after) =
          ap (λ (o : Option GroupId). clone_of o reg) h
          ∙ ap
              (λ (c : Option (GroupId × SupervisionRegistry)).
                or_then c (λ p. some (some p.0, p.1)))
              one in
        let (id, reg', made, alive', same, kept) =
          new_group_inner_lem (some current) reg after room
            (store-KeepsFree reg (id_to_idx current) group (grown group) there) alive_after
            (store-IsOpen reg (id_to_idx current) (grown group) (some current) (group, there)) in
        (
          id,
          reg',
          new_group_from reg after (some current) cloned ∙ made,
          alive',
          same ∙ ap (λ (o : Option GroupId). some (new_inner o)) (sym h),
          λ parent g e there'.
              let at : current ≡ parent = some_injective current parent (sym h ∙ e) in
              let at_group : group ≡ g =
                some_injective group g (sym there ∙ (ap (get reg) at ∙ there')) in
              subst (λ (p : GroupId). get reg' p ≡ some (grown g)) at
                (kept current (grown group) (stored (id_to_idx current) (grown group) reg)
                  ∙ ap (λ (g' : GroupInner). some (grown g')) at_group),
        )
  ]

-- The group of a thread stays the first one that it was given.
pub set_current-first :
    (id : GroupId) (reg : SupervisionRegistry)
    → ((set_current id reg).current ≡ some id) ↔ ((reg.current ≡ none) ⊎ (reg.current ≡ some id))
unfolding set_current
set_current-first id reg = elim (Option-cases reg.current) [
  | inl e ↦ (λ h. inl e, λ h. ap (λ (o : Option GroupId). (get_or o id reg).current) e)
  | inr (old, e) ↦
      let same : (set_current id reg).current ≡ reg.current =
        ap (λ (o : Option GroupId). (get_or o id reg).current) e in
      (λ h. inr (sym same ∙ h), λ h. elim h [ inl alone ↦ absurd cc | inr own ↦ same ∙ own ])
]
