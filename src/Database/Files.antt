-- ===== src/Database/Files.antt =====
-- Users files, `load_file` and `dump_file` of bffhd/users/mod.rs, on the user database with LMDB's errors. argon2 and
-- the TOML library are parameters.
pub mod Loop
pub mod Loads
pub mod Dumps
use fabaccess_server.Prelude.{
  Bool, not, ◌&&◌, if◌then◌else◌, Option, none, some, List, [], ◌∷◌, Str, Result, ok, err, panic,
  ◌>>=◌,
}
use fabaccess_server.Users.{UserData, User}
use fabaccess_server.Users.Database.{Argon2, prepare}
use fabaccess_server.Database.{LmdbError, Lmdb, query}
use fabaccess_server.Database.Accounts.{Rkyv, put_txn, clear_txn, user_get_all}

-- What the path given to `load_file` leads to.
pub data File : Type 0 where
  directory unreadable : File
  text : Str → File

pub data LoadError : Type 0 where
  is_directory io_error toml_error : LoadError
  db_error : LmdbError → LoadError

pub data DumpError : Type 0 where
  file_exists : DumpError
  read_error : LmdbError → DumpError

-- `?` in `load_file` on a result of the database.
abbrev pub convert : {A : Type 0} → Result LmdbError A → Result LoadError A
convert (ok a) = ok a
convert (err e) = err (db_error e)
convert panic = panic

-- `?` in `dump_file` on the users, and what is written of them.
abbrev pub written :
    (List (Str × UserData) → Str) → Result LmdbError (List (Str × UserData)) → Result DumpError Str
written to_toml (ok users) = ok (to_toml users)
written to_toml (err e) = err (read_error e)
written to_toml panic = panic

-- A user of the file as it is stored; the salt is drawn for each.
unfoldable pub file_user : Argon2 → (Str → Str) → Str → UserData → User
file_user argon2 salt uid userdata = record {
  id = uid;
  userdata = prepare argon2 (salt uid) userdata;
}

module _ (lmdb : Lmdb) (db : lmdb.Database) (rkyv : Rkyv User) (argon2 : Argon2)
    (salt : Str → Str) where
  open lmdb use {Environment, Transaction, begin_rw_txn, commit}

  -- The loop over the file's users; a user who cannot be put is passed over with a warning.
  unfoldable pub load_loop : Transaction → List (Str × UserData) → Result LmdbError Transaction
  load_loop txn [] = ok txn
  load_loop txn ((uid, userdata) ∷ users) =
      elim (put_txn lmdb db rkyv txn uid (file_user argon2 salt uid userdata)) [
        | ok txn' ↦ load_loop txn' users
        | err e ↦ load_loop txn users
        | panic ↦ panic
      ]

  -- The environment is as before where it fails.
  unfoldable pub store_users : Environment → List (Str × UserData) → Result LmdbError Environment
  unfolding load_loop
  store_users env users = do
    txn ← query (begin_rw_txn env)
    cleared ← clear_txn lmdb db rkyv txn
    filled ← load_loop cleared users
    query (commit filled)

  unfoldable pub load_file :
      (Str → Option (List (Str × UserData))) → Environment → File → Result LoadError Environment
  unfolding store_users
  load_file from_toml env directory = err is_directory
  load_file from_toml env unreadable = err io_error
  load_file from_toml env (text contents) = elim (from_toml contents) [
    | none ↦ err toml_error
    | some users ↦ convert (store_users env users)
  ]

  -- The text of the file; the files themselves can be written.
  unfoldable pub dump_file :
      (List (Str × UserData) → Str) → Bool → Bool → Environment → Result DumpError Str
  dump_file to_toml exists force env =
      if exists && not force
      then err file_exists
      else written to_toml (user_get_all lmdb db rkyv env)
