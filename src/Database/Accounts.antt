-- ===== src/Database/Accounts.antt =====
-- The user database, bffhd/users/db.rs. rkyv, which writes and reads a user, is a parameter.
pub mod Roundtrip
use fabaccess_server.Prelude.{
  ◌≡◌, Option, none, some, List, [], ◌∷◌, Str, insert_key, Result, ok, err, panic, ◌>>=◌,
}
use fabaccess_server.Users.{UserData, User}
use fabaccess_server.Database.{
  LmdbError, Lmdb, ArchivedValue, as_slice, aligned_adapter, query, get, put, delete_key, clear,
  get_all,
}

-- `none` is an error of the serializer.
pub record Rkyv (A : Type 0) : Type 0 where
  pub serialize_value : A → Option Str
  pub deserialize : Str → A
  pub deserialize-serialize_value :
      (a : A) (bytes : Str) → serialize_value a ≡ some bytes → deserialize bytes ≡ a

-- `expect` panics on an error.
abbrev pub expect : {A : Type 0} → Option A → Result LmdbError A
expect none = panic
expect (some a) = ok a

module _ (lmdb : Lmdb) (db : lmdb.Database) (rkyv : Rkyv User) where
  open lmdb use {Environment, Transaction, begin_ro_txn, begin_rw_txn, commit}
  open rkyv use {serialize_value, deserialize}

  unfoldable pub user_get : Environment → Str → Result LmdbError (Option ArchivedValue)
  user_get env uid = do txn ← query (begin_ro_txn env); get lmdb aligned_adapter txn db uid

  -- The environment is as before where it fails.
  unfoldable pub user_put : Environment → Str → User → Result LmdbError Environment
  user_put env uid user = do
    v ← expect (serialize_value user)
    txn ← query (begin_rw_txn env)
    txn' ← put lmdb aligned_adapter txn db uid (record { bytes = v })
    query (commit txn')

  unfoldable pub put_txn : Transaction → Str → User → Result LmdbError Transaction
  put_txn txn uid user = do
    v ← expect (serialize_value user)
    put lmdb aligned_adapter txn db uid (record { bytes = v })

  unfoldable pub user_delete : Environment → Str → Result LmdbError Environment
  user_delete env uid = do
    txn ← query (begin_rw_txn env)
    txn' ← delete_key lmdb txn db uid
    query (commit txn')

  unfoldable pub clear_txn : Transaction → Result LmdbError Transaction
  clear_txn txn = clear lmdb txn db

  -- The loop of `get_all`.
  unfoldable pub collect :
      List (Str × UserData) → List (Str × ArchivedValue) → List (Str × UserData)
  collect out [] = out
  collect out ((uid, user) ∷ users) =
      collect (insert_key uid (deserialize (as_slice user)).userdata out) users

  unfoldable pub user_get_all : Environment → Result LmdbError (List (Str × UserData))
  unfolding collect
  user_get_all env = do
    txn ← query (begin_ro_txn env)
    users ← get_all lmdb aligned_adapter txn db
    ok (collect [] users)
