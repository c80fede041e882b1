-- ===== src/Database/Files/Loop.antt =====
-- The loop over the users of a file.
use fabaccess_server.Prelude.{
  ◌≡◌, refl, subst, ◌∙◌, Bool-cases, Option, none, some, Option-cases, List, [], ◌∷◌, Str,
  if◌then◌else◌, str_eq, str_eq_sound, str_eq_refl, ◌⊎◌, inl, inr, lookup, IsDistinct, Result, ok,
  err, panic,
}
use fabaccess_server.Users.{UserData, User}
use fabaccess_server.Users.Database.{Argon2}
use fabaccess_server.Database.{
  LmdbError, Lmdb, LmdbLaws, ArchivedValue, as_slice, aligned_adapter, get,
}
use fabaccess_server.Database.Typed.{aligned_laws, put_lem}
use fabaccess_server.Database.Accounts.{Rkyv, put_txn}
use fabaccess_server.Database.Files.{file_user, load_loop}

module _ (lmdb : Lmdb) (laws : LmdbLaws lmdb) (db : lmdb.Database) (rkyv : Rkyv User)
    (argon2 : Argon2) (salt : Str → Str) where
  open lmdb use {Environment, Transaction, begin_ro_txn, begin_rw_txn, commit, clear_db}
  open rkyv use {serialize_value, deserialize, deserialize-serialize_value}

  abbrev pub read_at : Transaction → Str → Result LmdbError (Option ArchivedValue)
  read_at txn uid = get lmdb aligned_adapter txn db uid

  abbrev put_at : Transaction → Str → User → Result LmdbError Transaction
  put_at txn uid user = put_txn lmdb db rkyv txn uid user

  -- How a user is put.
  put_txn_lem :
      (txn : Transaction) (uid : Str) (user : User)
      → ((serialize_value user ≡ none) × (put_at txn uid user ≡ panic))
        ⊎ (((e : LmdbError) × (put_at txn uid user ≡ err e))
            ⊎ ((txn' : Transaction) × (value : ArchivedValue) × (put_at txn uid user ≡ ok txn')
                × (deserialize (as_slice value) ≡ user)
                × ((other : Str)
                    → read_at txn' other
                      ≡ (if str_eq uid other then ok (some value) else read_at txn other))))
  unfolding put_txn
  put_txn_lem txn uid user = elim (Option-cases (serialize_value user)) [
    | inl e ↦ inl (e, rw e)
    | inr (v, e) ↦
        elim (put_lem lmdb laws aligned_adapter aligned_laws txn db uid (record { bytes = v })) [
          | inl (failure, h) ↦ inr (inl (failure, rw (e, h)))
          | inr (txn', h, reads) ↦ inr (
              inr (
                txn',
                record { bytes = v },
                rw (e, h),
                deserialize-serialize_value user v e,
                reads,
              ))
        ]
  ]

  -- A user whom no transaction could take.
  abbrev pub IsSkipped : Str → UserData → Type 0
  IsSkipped uid userdata =
      (txn : Transaction) × (e : LmdbError) × (put_txn lmdb db rkyv txn uid
          (file_user argon2 salt uid userdata)
        ≡ err e)

  -- What is read after the loop under a name that the file may have.
  abbrev pub Fills :
      Str
      → Option UserData
      → Result LmdbError (Option ArchivedValue)
      → Result LmdbError (Option ArchivedValue)
      → Type 0
  Fills uid none before after = after ≡ before
  Fills uid (some userdata) before after =
      ((value : ArchivedValue) × (after ≡ ok (some value))
        × (deserialize (as_slice value) ≡ file_user argon2 salt uid userdata))
      ⊎ ((after ≡ before) × IsSkipped uid userdata)

  -- Some user of the file is none that rkyv can write.
  abbrev pub HasUnwritable : List (Str × UserData) → Type 0
  HasUnwritable users =
      (uid : Str) × (userdata : UserData) × (lookup users uid ≡ some userdata)
      × (serialize_value (file_user argon2 salt uid userdata) ≡ none)

  abbrev pub Looped : List (Str × UserData) → Transaction → Result LmdbError Transaction → Type 0
  Looped users txn (ok txn') =
      (uid : Str) → Fills uid (lookup users uid) (read_at txn uid) (read_at txn' uid)
  Looped users txn (err e) = ⊥
  Looped users txn panic = HasUnwritable users

  -- A user of the rest of the file is one of the file.
  unwritable_more :
      (k : Str) (userdata : UserData) (users : List (Str × UserData))
      → lookup users k ≡ none
      → HasUnwritable users
      → HasUnwritable ((k, userdata) ∷ users)
  unwritable_more k userdata users alone (uid, other, found, unwritable) =
      elim (Bool-cases (str_eq k uid)) [
        | inl e ↦ absurd (
            let none_there : lookup users uid ≡ none =
              subst (λ (u : Str). lookup users u ≡ none) (str_eq_sound k uid e) alone in
            cc)
        | inr e ↦ (uid, other, rw e found, unwritable)
      ]

  skip_more :
      (k : Str) (userdata : UserData) (users : List (Str × UserData)) (txn : Transaction)
      (r : Result LmdbError Transaction)
      → lookup users k ≡ none
      → IsSkipped k userdata
      → Looped users txn r
      → Looped ((k, userdata) ∷ users) txn r
  skip_more k userdata users txn (ok txn') alone skipped l = λ uid.
      elim (Bool-cases (str_eq k uid)) [
        | inl e ↦
            subst
              (λ (u : Str).
                Fills u (lookup ((k, userdata) ∷ users) u) (read_at txn u) (read_at txn' u))
              (str_eq_sound k uid e)
              (rw (str_eq_refl k) (
                inr (
                  subst (λ (o : Option UserData). Fills k o (read_at txn k) (read_at txn' k)) alone
                      (l k),
                  skipped,
                )))
        | inr e ↦ rw e (l uid)
      ]
  skip_more k userdata users txn (err e) alone skipped l = l
  skip_more k userdata users txn panic alone skipped l = unwritable_more k userdata users alone l

  put_more :
      (k : Str) (userdata : UserData) (users : List (Str × UserData)) (txn txn' : Transaction)
      (value : ArchivedValue) (r : Result LmdbError Transaction)
      → lookup users k ≡ none
      → deserialize (as_slice value) ≡ file_user argon2 salt k userdata
      → ((other : Str)
          → read_at txn' other ≡ (if str_eq k other then ok (some value) else read_at txn other))
      → Looped users txn' r
      → Looped ((k, userdata) ∷ users) txn r
  put_more k userdata users txn txn' value (ok last) alone back reads l = λ uid.
      elim (Bool-cases (str_eq k uid)) [
        | inl e ↦
            let here : read_at txn' k ≡ ok (some value) = reads k ∙ rw (str_eq_refl k) in
            let kept : read_at last k ≡ read_at txn' k =
              subst (λ (o : Option UserData). Fills k o (read_at txn' k) (read_at last k)) alone
                (l k) in
            subst
              (λ (u : Str).
                Fills u (lookup ((k, userdata) ∷ users) u) (read_at txn u) (read_at last u))
              (str_eq_sound k uid e) (rw (str_eq_refl k) (inl (value, kept ∙ here, back)))
        | inr e ↦
            let before : read_at txn' uid ≡ read_at txn uid = reads uid ∙ rw e in
            rw e (
              subst
                (λ (b : Result LmdbError (Option ArchivedValue)).
                  Fills uid (lookup users uid) b (read_at last uid))
                before (l uid))
      ]
  put_more k userdata users txn txn' value (err e) alone back reads l = l
  put_more k userdata users txn txn' value panic alone back reads l =
      unwritable_more k userdata users alone l

  pub load_loop-Looped :
      (users : List (Str × UserData)) (txn : Transaction)
      → IsDistinct users
      → Looped users txn (load_loop lmdb db rkyv argon2 salt txn users)
  unfolding load_loop
  load_loop-Looped [] txn d = λ uid. refl
  load_loop-Looped ((k, userdata) ∷ users) txn d =
      elim (put_txn_lem txn k (file_user argon2 salt k userdata)) [
        | inl (unwritable, h) ↦ rw (h, load_loop) (k, userdata, rw (str_eq_refl k), unwritable)
        | inr (inl (e, h)) ↦
            rw (h, load_loop)
              (skip_more k userdata users txn _ d.0 (txn, e, h) (load_loop-Looped users txn d.1))
        | inr (inr (txn', value, h, back, reads)) ↦
            rw (h, load_loop)
              (put_more k userdata users txn txn' value _ d.0 back reads
                (load_loop-Looped users txn' d.1))
      ]
