-- ===== src/Database/Accounts/Roundtrip.antt =====
-- What is read back from the user database.
use fabaccess_server.Prelude.{
  ◌≡◌, refl, ap, subst, ◌∙◌, false, Bool-cases, Option, none, some, List, [], ◌∷◌, Str,
  if◌then◌else◌, str_eq, str_eq_sound, ◌⊎◌, inl, inr, insert_key, lookup, lookup-insert_key,
  insert_key-IsDistinct, Result, IsDistinct, map_option, ok, >>=-eq_ok,
}
use fabaccess_server.Users.{UserData, User}
use fabaccess_server.Database.{
  LmdbError, Lmdb, LmdbLaws, ArchivedValue, as_slice, aligned_adapter, query, get, get_all, answer,
  has_error,
}
use fabaccess_server.Database.Typed.{
  aligned_laws, query-eq_ok, delete_key_lem, get_all_lem, get-begin_rw, get-committed, written,
}
use fabaccess_server.Database.Accounts.{
  Rkyv, expect, user_get, user_put, user_delete, collect, user_get_all,
}

expect-eq_ok : {A : Type 0} (o : Option A) (a : A) → expect o ≡ ok a → o ≡ some a
expect-eq_ok none a h = cc
expect-eq_ok (some b) a h = cc

ok_injective : {A : Type 0} (a b : A) → ◌≡◌ {A = Result LmdbError A} (ok a) (ok b) → a ≡ b
ok_injective a b h = cc

module _ (lmdb : Lmdb) (laws : LmdbLaws lmdb) (db : lmdb.Database) (rkyv : Rkyv User) where
  open lmdb use {Environment, Transaction, begin_ro_txn, begin_rw_txn, commit, iter_start}
  open rkyv use {serialize_value, deserialize, deserialize-serialize_value}

  reads :
      (env : Environment) (ro : Transaction) (key : Str)
      → begin_ro_txn env ≡ inr ro
      → user_get lmdb db rkyv env key ≡ get lmdb aligned_adapter ro db key
  unfolding user_get
  reads env ro key h = rw h

  -- After a user was put into the user database without an error, and where reads can begin
  -- before and after, a value is found under the name that rkyv reads back as this user, and
  -- under every other name what was found there before.
  pub user_put-user_get :
      (env env' : Environment) (ro ro' : Transaction) (uid : Str) (user : User)
      → begin_ro_txn env ≡ inr ro
      → user_put lmdb db rkyv env uid user ≡ ok env'
      → begin_ro_txn env' ≡ inr ro'
      → (value : ArchivedValue) × (deserialize (as_slice value) ≡ user)
        × ((other : Str)
            → user_get lmdb db rkyv env' other
              ≡ (if str_eq uid other then ok (some value) else user_get lmdb db rkyv env other))
  unfolding user_put
  user_put-user_get env env' ro ro' uid user h put_ok h' =
      let (v, serialized, more) = >>=-eq_ok (expect (serialize_value user)) _ put_ok in
      let (txn, begun, more') = >>=-eq_ok (query (begin_rw_txn env)) _ more in
      let (txn', stored, committed) = >>=-eq_ok _ (λ t. query (commit t)) more' in
      let value : ArchivedValue = record { bytes = v } in
      (
        value,
        deserialize-serialize_value user v (expect-eq_ok _ v serialized),
        λ other.
            rw (reads env' ro' other h', reads env ro other h)
              (written lmdb laws aligned_adapter aligned_laws env env' ro ro' txn txn' db uid other
                value h begun stored committed h'),
      )

  pub user_delete-user_get :
      (env env' : Environment) (ro ro' : Transaction) (uid other : Str)
      → begin_ro_txn env ≡ inr ro
      → user_delete lmdb db rkyv env uid ≡ ok env'
      → begin_ro_txn env' ≡ inr ro'
      → user_get lmdb db rkyv env' other
        ≡ (if str_eq uid other then ok none else user_get lmdb db rkyv env other)
  unfolding user_delete
  user_delete-user_get env env' ro ro' uid other h deleted h' =
      let (txn, begun, more) = >>=-eq_ok (query (begin_rw_txn env)) _ deleted in
      let (txn', gone, committed) = >>=-eq_ok _ (λ t. query (commit t)) more in
      let before =
        get-begin_rw lmdb laws aligned_adapter aligned_laws env ro txn db other h
          (query-eq_ok _ txn begun) in
      let after =
        get-committed lmdb laws aligned_adapter aligned_laws env' txn' ro' db other committed h' in
      let read = delete_key_lem lmdb laws aligned_adapter aligned_laws txn txn' db uid other gone in
      rw (reads env' ro' other h', reads env ro other h)
        (after ∙ (read ∙ ap (λ r. if str_eq uid other then ok none else r) before))

  userdata_of : ArchivedValue → UserData
  userdata_of value = (deserialize (as_slice value)).userdata

  as_map :
      (o : Option ArchivedValue)
      → elim o as (λ x. Option UserData) [ none ↦ none | some v ↦ some (userdata_of v) ]
        ≡ map_option userdata_of o
  as_map none = refl
  as_map (some v) = refl

  lookup-collect :
      (users : List (Str × ArchivedValue)) (out : List (Str × UserData)) (uid : Str)
      → IsDistinct users
      → lookup (collect lmdb db rkyv out users) uid
        ≡ elim (lookup users uid) [ none ↦ lookup out uid | some v ↦ some (userdata_of v) ]
  unfolding collect userdata_of
  lookup-collect [] out uid d = refl
  lookup-collect ((key, value) ∷ users) out uid d =
      let inserted = lookup-insert_key key uid (userdata_of value) out in
      let rest = lookup-collect users (insert_key key (userdata_of value) out) uid d.1 in
      elim (Bool-cases (str_eq key uid)) [
        | inl e ↦
            let alone : lookup users uid ≡ none =
              subst (λ k. lookup users k ≡ none) (str_eq_sound key uid e) d.0 in
            rw (e, rest, alone, e)
        | inr e ↦
            let same : lookup (insert_key key (userdata_of value) out) uid ≡ lookup out uid =
              inserted ∙ ap (λ b. if b then some (userdata_of value) else lookup out uid) e in
            rw e (
              rest
              ∙ ap
                  (λ (o : Option UserData). elim (lookup users uid) as (λ x. Option UserData) [
                    | none ↦ o
                    | some v ↦ some (userdata_of v)
                  ])
                  same)
      ]

  pub collect-IsDistinct :
      (users : List (Str × ArchivedValue)) (out : List (Str × UserData))
      → IsDistinct out
      → IsDistinct (collect lmdb db rkyv out users)
  unfolding collect
  collect-IsDistinct [] out d = d
  collect-IsDistinct ((key, value) ∷ users) out d =
      collect-IsDistinct users _
        (insert_key-IsDistinct key (deserialize (as_slice value)).userdata out d)

  pub user_get_all-IsDistinct :
      (env : Environment) (users : List (Str × UserData))
      → user_get_all lmdb db rkyv env ≡ ok users
      → IsDistinct users
  unfolding user_get_all
  user_get_all-IsDistinct env users h =
      let (txn, begun, more) = >>=-eq_ok (query (begin_ro_txn env)) _ h in
      let (items, all, same) =
        >>=-eq_ok (get_all lmdb aligned_adapter txn db) (λ us. ok (collect lmdb db rkyv [] us))
          more in
      subst IsDistinct (ok_injective _ users same) (collect-IsDistinct items [] tt)

  looked :
      (users : List (Str × ArchivedValue)) (uid : Str)
      → IsDistinct users
      → lookup (collect lmdb db rkyv [] users) uid ≡ map_option userdata_of (lookup users uid)
  looked users uid d = lookup-collect users [] uid d ∙ as_map (lookup users uid)

  -- Where a read begins and the cursor meets no error, the map of all users has under each name
  -- the data of the user that a lookup of this name finds, and nothing where it finds none,
  -- which for the empty name is LMDB's error that it is no key.
  pub user_get_all-user_get :
      (env : Environment) (ro : Transaction) (entries : List (LmdbError ⊎ (Str × Str)))
      → begin_ro_txn env ≡ inr ro
      → iter_start ro db ≡ inr entries
      → has_error entries ≡ false
      → (users : List (Str × UserData)) × (user_get_all lmdb db rkyv env ≡ ok users)
        × ((uid : Str)
            → (o : Option ArchivedValue) × (user_get lmdb db rkyv env uid ≡ answer uid o)
              × (lookup users uid ≡ map_option (λ v. (deserialize (as_slice v)).userdata) o))
  unfolding user_get_all userdata_of
  user_get_all-user_get env ro entries h h' clean =
      let (items, all, distinct, found) =
        get_all_lem lmdb laws aligned_adapter aligned_laws ro db entries h' clean in
      (
        collect lmdb db rkyv [] items,
        rw (h, all),
        λ uid. (lookup items uid, rw (reads env ro uid h) (found uid), looked items uid distinct),
      )
