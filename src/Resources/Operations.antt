-- ===== src/Resources/Operations.antt =====
-- The operations of a resource: bffhd/resources/mod.rs.
pub mod Consistency
pub mod Update
pub mod Owner
use fabaccess_server.Prelude.{
  ℕ, Bool, true, false, Option, none, some, List, ◌∷◌, ◌||◌, if◌then◌else◌, str_eq, Str,
}
use fabaccess_server.Authorization.Permissions.{Permission}
use fabaccess_server.Session.{SessionHandle, has_perm}
use fabaccess_server.Resources.Machine.{
  UserRef, Status, free, disabled, in_use, to_check, blocked, reserved, MachineState, free_state,
  status_user,
}
use fabaccess_server.Resources.Store.{StateDb}

pub record PrivilegesBuf : Type 0 where
  pub disclose : Permission
  pub read : Permission
  pub write : Permission
  pub manage : Permission

-- The outcome of an operation: a value, a panic (`expect` on a missing state), or a permission
-- check whose recursion is deeper than the fuel.
pub data Run (A : Type 0) : Type 0 where
  ret : A → Run A
  panicked : Run A
  too_deep : Run A

infixl 5 ◌>>=◌
abbrev pub ◌>>=◌ : {A B : Type 0} → Run A → (A → Run B) → Run B
ret a >>= f = f a
panicked >>= f = panicked
too_deep >>= f = too_deep

abbrev pub expect : {A : Type 0} → Option A → Run A
expect none = panicked
expect (some a) = ret a

abbrev pub checked : Option Bool → Run Bool
checked none = too_deep
checked (some b) = ret b

-- `||` and `&&` with a right side that may not be evaluated.
abbrev pub or_else : Run Bool → Run Bool → Run Bool
or_else (ret true) k = ret true
or_else (ret false) k = k
or_else panicked k = panicked
or_else too_deep k = too_deep

abbrev pub and_then : Run Bool → Run Bool → Run Bool
and_then (ret true) k = k
and_then (ret false) k = ret false
and_then panicked k = panicked
and_then too_deep k = too_deep

-- The arms of `try_update` for a writer.
pub writer_may : UserRef → Status → Status → Bool
writer_may user free (in_use who) = str_eq who user
writer_may user free (reserved whom) = str_eq user whom
writer_may user (in_use who) free = str_eq who user
writer_may user (in_use who) (to_check _) = str_eq who user
writer_may user (reserved whom) free = str_eq whom user
writer_may user (reserved whom) (in_use who) = if str_eq whom user then str_eq who whom else false
writer_may user _ _ = false

-- The arms of `try_update` for everybody.
pub anybody_may : UserRef → Status → Status → Bool
anybody_may user (in_use who) free = str_eq who user
anybody_may user (in_use who) (to_check _) = str_eq who user
anybody_may user (reserved whom) free = str_eq whom user
anybody_may user _ _ = false

module _ (store : StateDb) where
  open store use {Db, get, put}

  -- One resource with the database and the audit log that it writes to. `signal` is the value of
  -- its `Mutable`.
  pub record Resource : Type 0 where
    pub id : Str
    pub privs : PrivilegesBuf
    pub db : Db
    pub signal : MachineState
    pub audit : List (Str × MachineState)

  -- `Inner::new`: the stored state, or a free one that is stored.
  pub new : Str → PrivilegesBuf → Db → List (Str × MachineState) → Resource
  new id privs db audit = elim (get db id) [
    | some previous ↦ record { id = id; privs = privs; db = db; signal = previous; audit = audit }
    | none ↦ record {
      id = id;
      privs = privs;
      db = put db id (free_state none);
      signal = free_state none;
      audit = audit;
    }
  ]

  unfoldable pub get_state : Resource → Run MachineState
  get_state r = expect (get r.db r.id)

  abbrev pub get_state_ref : Resource → MachineState
  get_state_ref r = r.signal

  unfoldable pub set_state : Resource → MachineState → Resource
  set_state r state = record r {
    db = put r.db r.id state;
    audit = (r.id, state) ∷ r.audit;
    signal = state;
  }

  pub get_current_user : Resource → Option UserRef
  get_current_user r = status_user (get_state_ref r).state

  unfoldable pub get_previous_user : Resource → Option UserRef
  get_previous_user r = (get_state_ref r).previous

  pub set_status : Resource → Status → Run Resource
  set_status r new = do
    old ← get_state r
    ret (set_state r (record { state = new; previous = old.previous }))

  -- The condition of `try_update`, in its order of evaluation.
  pub may_update : ℕ → Resource → SessionHandle → Status → Status → Run Bool
  may_update fuel r session old new =
      let user = session.user in
      or_else (checked (has_perm fuel session r.privs.manage)) (
        or_else
          (and_then (checked (has_perm fuel session r.privs.write)) (ret (writer_may user old new)))
          (ret (anybody_may user old new)))

  pub try_update : ℕ → Resource → SessionHandle → Status → Run Resource
  try_update fuel r session new = do
    old ← get_state r
    may ← may_update fuel r session old.state new
    if may then set_status r new else ret r

  pub give_back : Resource → SessionHandle → Run Resource
  give_back r session = do
    s ← get_state r
    elim s.state [
      | in_use user ↦
          if str_eq user session.user
          then ret (set_state r (free_state (some session.user)))
          else ret r
      | _ ↦ ret r
    ]

  unfoldable pub force_set : Resource → Status → Run Resource
  force_set = set_status

  unfoldable pub is_owned_by : Resource → UserRef → Run Bool
  is_owned_by r owner = do
    s ← get_state r
    elim s.state [
      | free ↦ ret false
      | disabled ↦ ret false
      | in_use user ↦ ret (str_eq user owner)
      | to_check user ↦ ret (str_eq user owner)
      | blocked user ↦ ret (str_eq user owner)
      | reserved user ↦ ret (str_eq user owner)
    ]

  unfoldable pub visible : ℕ → Resource → SessionHandle → Run Bool
  visible fuel r session =
      or_else (checked (has_perm fuel session r.privs.disclose)) (is_owned_by r session.user)
