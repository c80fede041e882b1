-- ===== src/Examples/Groups.antt =====
-- A root group and a group below it, runtime/executor/src/supervision.rs.
use fabaccess_server.Prelude.{
  ℕ, ◌+◌, ◌<◌, ◌^◌, ◌≡◌, refl, sym, subst, Option, none, some, Bool-cases, ◌==◌, inl, inr,
  if◌then◌else◌, arith,
}
use fabaccess_server.Executor.Supervision.{
  GroupId, GroupInner, SupervisionRegistry, id_to_idx, get, new_group,
}
use fabaccess_server.Executor.Supervision.Alive.{
  IsAlive, IsRoomy, HasRoom, IsOpen, grown, new_inner, new_group-IsAlive,
}

-- A pool with room for two groups, of which the first is the root.
abbrev root : SupervisionRegistry
root = record {
  groups = λ idx. if idx == 0 then some (record { parent = none; ref_count = 1 }) else none;
  current = some 1;
}

at_zero :
    (idx : ℕ) (group : GroupInner)
    → root.groups idx ≡ some group
    → group ≡ record { parent = none; ref_count = 1 }
at_zero idx group h = elim (Bool-cases (idx == 0)) [
  | inl e ↦ let same : some (record { parent = none; ref_count = 1 }) ≡ some group = rw e at h in cc
  | inr e ↦ let no : none ≡ some group = rw e at h in cc
]

root-IsAlive : IsAlive root
unfolding get id_to_idx
root-IsAlive = record {
  counted = λ idx group h.
      subst (λ (g : GroupInner). (0 < g.ref_count) × IsOpen root g.parent)
        (sym (at_zero idx group h)) (omega arith, tt);
  current_open = (record { parent = none; ref_count = 1 }, refl);
}

root-IsRoomy : IsRoomy root
root-IsRoomy idx group h =
    subst (λ (g : GroupInner). g.ref_count + 1 < 2 ^ 64) (sym (at_zero idx group h)) (omega arith)

-- The second slot is given out.
abbrev second : SupervisionRegistry → Option ℕ
second reg = some 1

second-HasRoom : HasRoom second root
second-HasRoom after keeps = (1, refl, keeps 1 refl, omega arith)

new_group-IsAlive_example :
    (id : GroupId) × (reg' : SupervisionRegistry) × (new_group second root ≡ some (id, reg'))
    × IsAlive reg'
    × (get reg' id ≡ some (new_inner (some 1)))
    × ((parent : GroupId) (group : GroupInner)
        → some 1 ≡ some parent
        → get root parent ≡ some group
        → get reg' parent ≡ some (grown group))
new_group-IsAlive_example = new_group-IsAlive second root second-HasRoom root-IsAlive root-IsRoomy
