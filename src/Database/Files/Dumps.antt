-- ===== src/Database/Files/Dumps.antt =====
-- A dumped users file loads again.
use fabaccess_server.Prelude.{
  ◌≡◌, refl, subst, false, Option, some, List, Str, inr, Result, ok, err, panic,
}
use fabaccess_server.Users.{UserData, User}
use fabaccess_server.Users.Database.{Argon2}
use fabaccess_server.Database.{LmdbError, Lmdb, LmdbLaws}
use fabaccess_server.Database.Accounts.{Rkyv, user_get_all}
use fabaccess_server.Database.Accounts.Roundtrip.{user_get_all-IsDistinct}
use fabaccess_server.Database.Files.{text, written, dump_file, load_file}
use fabaccess_server.Database.Files.Loads.{Outcome, load_file-Outcome}

module _ (lmdb : Lmdb) (laws : LmdbLaws lmdb) (db : lmdb.Database) (rkyv : Rkyv User)
    (argon2 : Argon2) (salt : Str → Str) where
  open lmdb use {Environment, Transaction, begin_ro_txn, begin_rw_txn, commit, clear_db}

  -- A users file that was dumped loads as the users that `get_all` gave, where TOML reads what it
  -- wrote.
  pub load_file-dump_file :
      (to_toml : List (Str × UserData) → Str) (from_toml : Str → Option (List (Str × UserData)))
      (env other : Environment) (contents : Str)
      → ((users : List (Str × UserData)) → from_toml (to_toml users) ≡ some users)
      → ((env' : Environment) → (ro : Transaction) × (begin_ro_txn env' ≡ inr ro))
      → dump_file lmdb db rkyv argon2 salt to_toml false false env ≡ ok contents
      → (users : List (Str × UserData)) × (user_get_all lmdb db rkyv env ≡ ok users)
        × Outcome lmdb laws db rkyv argon2 salt users other
            (load_file lmdb db rkyv argon2 salt from_toml other (text contents))
  unfolding dump_file
  load_file-dump_file to_toml from_toml env other contents back reads dumped =
      goes (user_get_all lmdb db rkyv env) refl dumped
    where
      goes :
          (r : Result LmdbError (List (Str × UserData)))
          → user_get_all lmdb db rkyv env ≡ r
          → written to_toml r ≡ ok contents
          → (users : List (Str × UserData)) × (user_get_all lmdb db rkyv env ≡ ok users)
            × Outcome lmdb laws db rkyv argon2 salt users other
                (load_file lmdb db rkyv argon2 salt from_toml other (text contents))
      goes (ok users) h w =
          let same : to_toml users ≡ contents = cc in
          (
            users,
            h,
            load_file-Outcome lmdb laws db rkyv argon2 salt from_toml other contents users reads
                (subst (λ (c : Str). from_toml c ≡ some users) same (back users))
                (user_get_all-IsDistinct lmdb laws db rkyv env users h),
          )
      goes (err e) h w = cc
      goes panic h w = cc
