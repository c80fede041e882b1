-- ===== src/Database/Files/Loads.antt =====
-- What a users file loads as.
use fabaccess_server.Prelude.{
  ◌≡◌, refl, ap, ◌∙◌, Option, none, some, List, Str, ◌⊎◌, inl, inr, lookup, IsDistinct, Result, ok,
  err, panic, ◌>>=◌,
}
use fabaccess_server.Users.{UserData, User}
use fabaccess_server.Users.Database.{Argon2}
use fabaccess_server.Database.{
  LmdbError, Lmdb, LmdbLaws, ArchivedValue, as_slice, aligned_adapter, query, answer,
}
use fabaccess_server.Database.Typed.{aligned_laws, clear_lem, get-committed}
use fabaccess_server.Database.Accounts.{Rkyv, user_get, clear_txn}
use fabaccess_server.Database.Files.{
  text, LoadError, db_error, file_user, convert, load_loop, store_users, load_file,
}
use fabaccess_server.Database.Files.Loop.{
  read_at, IsSkipped, Fills, HasUnwritable, Looped, load_loop-Looped,
}

module _ (lmdb : Lmdb) (laws : LmdbLaws lmdb) (db : lmdb.Database) (rkyv : Rkyv User)
    (argon2 : Argon2) (salt : Str → Str) where
  open lmdb use {Environment, Transaction, begin_ro_txn, begin_rw_txn, commit, clear_db}

  -- What is read of a name after the file was loaded.
  abbrev pub Loads : Environment → Str → Option UserData → Type 0
  Loads env uid none = user_get lmdb db rkyv env uid ≡ answer uid none
  Loads env uid (some userdata) =
      ((value : ArchivedValue) × (user_get lmdb db rkyv env uid ≡ ok (some value))
        × (rkyv.deserialize (as_slice value) ≡ file_user argon2 salt uid userdata))
      ⊎ ((user_get lmdb db rkyv env uid ≡ answer uid none)
          × IsSkipped lmdb laws db rkyv argon2 salt uid userdata)

  -- How the load of some users ends.
  abbrev pub Outcome : List (Str × UserData) → Environment → Result LoadError Environment → Type 0
  Outcome users env (ok env') = (uid : Str) → Loads env' uid (lookup users uid)
  Outcome users env (err (db_error e)) =
      (begin_rw_txn env ≡ inl e)
      ⊎ (((txn : Transaction) × (clear_db txn db ≡ inl e))
          ⊎ ((txn : Transaction) × (commit txn ≡ inl e)))
  Outcome users env (err _) = ⊥
  Outcome users env panic = HasUnwritable lmdb laws db rkyv argon2 salt users

  loads_from :
      (uid : Str) (o : Option UserData) (env : Environment)
      (before after : Result LmdbError (Option ArchivedValue))
      → before ≡ answer uid none
      → user_get lmdb db rkyv env uid ≡ after
      → Fills lmdb laws db rkyv argon2 salt uid o before after
      → Loads env uid o
  loads_from uid none env before after b a same = a ∙ (same ∙ b)
  loads_from uid (some userdata) env before after b a (inl (value, there, back)) =
      inl (value, a ∙ there, back)
  loads_from uid (some userdata) env before after b a (inr (same, skipped)) =
      inr (a ∙ (same ∙ b), skipped)

  after_commit :
      (users : List (Str × UserData)) (env : Environment) (cleared filled : Transaction)
      (c : LmdbError ⊎ Environment)
      → ((env' : Environment) → (ro : Transaction) × (begin_ro_txn env' ≡ inr ro))
      → ((uid : Str) → read_at lmdb laws db rkyv argon2 salt cleared uid ≡ answer uid none)
      → Looped lmdb laws db rkyv argon2 salt users cleared (ok filled)
      → commit filled ≡ c
      → Outcome users env (convert (query c))
  unfolding user_get
  after_commit users env cleared filled (inl e) reads empty l h = inr (inr (filled, h))
  after_commit users env cleared filled (inr env') reads empty l h = λ uid.
      let (ro, begun) = reads env' in
      loads_from uid (lookup users uid) env' (read_at lmdb laws db rkyv argon2 salt cleared uid)
        (read_at lmdb laws db rkyv argon2 salt filled uid) (empty uid)
        (rw begun (
          get-committed lmdb laws aligned_adapter aligned_laws env' filled ro db uid (ap query h)
            begun))
        (l uid)

  after_loop :
      (users : List (Str × UserData)) (env : Environment) (cleared : Transaction)
      (r : Result LmdbError Transaction)
      → ((env' : Environment) → (ro : Transaction) × (begin_ro_txn env' ≡ inr ro))
      → ((uid : Str) → read_at lmdb laws db rkyv argon2 salt cleared uid ≡ answer uid none)
      → Looped lmdb laws db rkyv argon2 salt users cleared r
      → Outcome users env (convert (r >>= λ filled. query (commit filled)))
  after_loop users env cleared (ok filled) reads empty l =
      after_commit users env cleared filled (commit filled) reads empty l refl
  after_loop users env cleared (err e) reads empty l = absurd l
  after_loop users env cleared panic reads empty l = l

  after_clear :
      (users : List (Str × UserData)) (env : Environment) (txn : Transaction)
      (c : LmdbError ⊎ Transaction)
      → ((env' : Environment) → (ro : Transaction) × (begin_ro_txn env' ≡ inr ro))
      → IsDistinct users
      → clear_db txn db ≡ c
      → Outcome users env (
          convert (
            query c >>= λ cleared.
            load_loop lmdb db rkyv argon2 salt cleared users >>= λ filled. query (commit filled)))
  after_clear users env txn (inl e) reads d h = inr (inl (txn, h))
  after_clear users env txn (inr cleared) reads d h =
      after_loop users env cleared (load_loop lmdb db rkyv argon2 salt cleared users) reads
        (λ uid. clear_lem lmdb laws aligned_adapter aligned_laws txn cleared db uid (ap query h))
        (load_loop-Looped lmdb laws db rkyv argon2 salt users cleared d)

  after_begin :
      (users : List (Str × UserData)) (env : Environment) (b : LmdbError ⊎ Transaction)
      → ((env' : Environment) → (ro : Transaction) × (begin_ro_txn env' ≡ inr ro))
      → IsDistinct users
      → begin_rw_txn env ≡ b
      → Outcome users env (
          convert (
            query b >>= λ txn. clear_txn lmdb db rkyv txn >>= λ cleared.
            load_loop lmdb db rkyv argon2 salt cleared users >>= λ filled. query (commit filled)))
  unfolding clear_txn
  after_begin users env (inl e) reads d h = inl h
  after_begin users env (inr txn) reads d h =
      after_clear users env txn (clear_db txn db) reads d refl

  pub load_file-Outcome :
      (from_toml : Str → Option (List (Str × UserData))) (env : Environment) (contents : Str)
      (users : List (Str × UserData))
      → ((env' : Environment) → (ro : Transaction) × (begin_ro_txn env' ≡ inr ro))
      → from_toml contents ≡ some users
      → IsDistinct users
      → Outcome users env (load_file lmdb db rkyv argon2 salt from_toml env (text contents))
  unfolding load_file store_users
  load_file-Outcome from_toml env contents users reads parsed d =
      rw (load_file, parsed) (after_begin users env (begin_rw_txn env) reads d refl)
