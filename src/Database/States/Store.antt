-- ===== src/Database/States/Store.antt =====
-- The state database as the store of a resource.
use fabaccess_server.Prelude.{
  ◌≡◌, ap, ◌∙◌, Bool-cases, Option, none, some, Str, if◌then◌else◌, str_eq, str_eq_refl, inl, inr,
  map_option, Result, ok, err, panic, >>=-eq_ok,
}
use fabaccess_server.Resources.Machine.{MachineState}
use fabaccess_server.Resources.Store.{StateDb}
use fabaccess_server.Database.{
  LmdbError, Lmdb, LmdbLaws, ArchivedValue, as_slice, aligned_adapter, query, get, put,
}
use fabaccess_server.Database.Typed.{aligned_laws, written}
use fabaccess_server.Database.States.{state_get, state_put}

-- rkyv's archive of a state, and the access to it.
pub record Archive : Type 0 where
  pub serialize : MachineState → Str
  pub archived_root : Str → MachineState
  pub archived_root-serialize : (s : MachineState) → archived_root (serialize s) ≡ s

-- LMDB on a disk and a map that have room: nothing fails.
pub record IsReliable (lmdb : Lmdb) : Type 0 where
  pub begin_ro :
      (env : lmdb.Environment) → (txn : lmdb.Transaction) × (lmdb.begin_ro_txn env ≡ inr txn)
  pub begin_rw :
      (env : lmdb.Environment) → (txn : lmdb.Transaction) × (lmdb.begin_rw_txn env ≡ inr txn)
  pub committed : (txn : lmdb.Transaction) → (env : lmdb.Environment) × (lmdb.commit txn ≡ inr env)
  pub stored :
      (txn : lmdb.Transaction) (db : lmdb.Database) (key : Str) (value : ArchivedValue)
      → (txn' : lmdb.Transaction) × (put lmdb aligned_adapter txn db key value ≡ ok txn')

module _ (lmdb : Lmdb) (laws : LmdbLaws lmdb) (db : lmdb.Database) where
  open lmdb use {Environment, Transaction, begin_ro_txn, begin_rw_txn, commit}

  reads :
      (env : Environment) (ro : Transaction) (key : Str)
      → begin_ro_txn env ≡ inr ro
      → state_get lmdb db env key ≡ get lmdb aligned_adapter ro db key
  unfolding state_get
  reads env ro key h = rw h

  -- A write of a state is read back, and touches no other key.
  pub state_put-state_get :
      (env env' : Environment) (ro ro' : Transaction) (key other : Str) (value : ArchivedValue)
      → begin_ro_txn env ≡ inr ro
      → state_put lmdb db env key value ≡ ok env'
      → begin_ro_txn env' ≡ inr ro'
      → state_get lmdb db env' other
        ≡ (if str_eq key other then ok (some value) else state_get lmdb db env other)
  unfolding state_put
  state_put-state_get env env' ro ro' key other value h put_ok h' =
      let (txn, begun, more) = >>=-eq_ok (query (begin_rw_txn env)) _ put_ok in
      let (txn', stored, committed) = >>=-eq_ok _ (λ t. query (commit t)) more in
      rw (reads env' ro' other h', reads env ro other h)
        (written lmdb laws aligned_adapter aligned_laws env env' ro ro' txn txn' db key other value
          h begun stored committed h')

  module _ (reliable : IsReliable lmdb) (archive : Archive) where
    open archive use {serialize, archived_root, archived_root-serialize}

    abbrev pub value_of : Result LmdbError (Option ArchivedValue) → Option MachineState
    value_of (ok o) = map_option (λ v. archived_root (as_slice v)) o
    value_of (err e) = none
    value_of panic = none

    abbrev pub env_of : Environment → Result LmdbError Environment → Environment
    env_of env (ok env') = env'
    env_of env (err e) = env
    env_of env panic = env

    -- The archive of a state.
    abbrev pub packed : MachineState → ArchivedValue
    packed s = record { bytes = serialize s }

    put_succeeds :
        (env : Environment) (key : Str) (s : MachineState)
        → (env' : Environment) × (state_put lmdb db env key (packed s) ≡ ok env')
    unfolding state_put
    put_succeeds env key s =
        let (txn, begun) = reliable.begin_rw env in
        let (txn', stored) = reliable.stored txn db key (packed s) in
        let (env', committed) = reliable.committed txn' in (env', rw (begun, stored, committed))

    pub after_put :
        (env : Environment) (key other : Str) (s : MachineState)
        → value_of (state_get lmdb db (env_of env (state_put lmdb db env key (packed s))) other)
          ≡ (if str_eq key other then some s else value_of (state_get lmdb db env other))
    after_put env key other s =
        let (env', put_ok) = put_succeeds env key s in
        let (ro, h) = reliable.begin_ro env in
        let (ro', h') = reliable.begin_ro env' in
        let read = state_put-state_get env env' ro ro' key other (packed s) h put_ok h' in
        elim (Bool-cases (str_eq key other)) [
          | inl e ↦
              let same = rw e at read in rw (e, put_ok, same) (ap some (archived_root-serialize s))
          | inr e ↦ let same = rw e at read in rw (e, put_ok, same)
        ]

    -- What the resources need of a store.
    unfoldable pub store : StateDb
    store = record {
      Db = Environment;
      get = λ env key. value_of (state_get lmdb db env key);
      put = λ env key s. env_of env (state_put lmdb db env key (packed s));
      get-put = λ env key s.
          after_put env key key s
          ∙ ap (λ b. if b then some s else value_of (state_get lmdb db env key)) (str_eq_refl key);
      get-put_other = λ env key other s h.
          after_put env key other s
          ∙ ap (λ b. if b then some s else value_of (state_get lmdb db env other)) h;
    }
