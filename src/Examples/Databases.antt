-- ===== src/Examples/Databases.antt =====
-- Two users in a database that is kept in memory, bffhd/db and bffhd/users/db.rs.
use fabaccess_server.Prelude.{
  ℕ, ◌≡◌, refl, sym, ap, ◌∙◌, Bool-cases, Option, none, some, List, [], ◌∷◌, Str, if◌then◌else◌,
  str_eq, str_eq_refl, true, str_eq_sound, ◌⊎◌, subst, arith, zero, suc, inl, inr, length,
  replicate, lookup, erase, erase-IsDistinct, insert_key, lookup-erase, lookup-insert_key,
  IsDistinct, map_option, ok, err, codes,
}
use fabaccess_server.Users.{UserData, User}
use fabaccess_server.Database.{
  LmdbError, not_found, bad_val_size, missing, answer, Lmdb, LmdbLaws, ArchivedValue, as_slice,
  aligned_adapter, found, readable, get, put, copy_from_slice,
}
use fabaccess_server.Database.Typed.{aligned_laws, put_lem}
use fabaccess_server.Examples.Fixtures.{toy_argon2}
use fabaccess_server.Users.Database.{prepare}
use fabaccess_server.Database.Files.{text, file_user, load_file}
use fabaccess_server.Database.Accounts.{Rkyv, put_txn, clear_txn, user_get, user_put, user_get_all}
use fabaccess_server.Database.Accounts.Roundtrip.{user_put-user_get, user_get_all-user_get}

-- The first entry of each key.
abbrev first_entries : List (Str × Str) → List (Str × Str)
first_entries [] = []
first_entries ((k, v) ∷ m) = (k, v) ∷ erase k (first_entries m)

first_entries-IsDistinct : (m : List (Str × Str)) → IsDistinct (first_entries m)
first_entries-IsDistinct [] = tt
first_entries-IsDistinct ((k, v) ∷ m) = (
  rw (lookup-erase k k (first_entries m), str_eq_refl k) refl,
  erase-IsDistinct k (first_entries m) (first_entries-IsDistinct m),
)

lookup-first_entries : (m : List (Str × Str)) (j : Str) → lookup (first_entries m) j ≡ lookup m j
lookup-first_entries [] j = refl
lookup-first_entries ((k, v) ∷ m) j = elim (Bool-cases (str_eq k j)) [
  | inl e ↦ rw e
  | inr e ↦ rw (e, lookup-erase k j (first_entries m), e, lookup-first_entries m j)
]

abbrev entries_of : List (Str × Str) → List (LmdbError ⊎ (Str × Str))
entries_of [] = []
entries_of (entry ∷ m) = inr entry ∷ entries_of m

readable-entries_of : (m : List (Str × Str)) → readable (entries_of m) ≡ m
readable-entries_of [] = refl
readable-entries_of (entry ∷ m) = ap (λ (r : List (Str × Str)). entry ∷ r) (readable-entries_of m)

-- The empty text is no key.
abbrev removal : Str → List (Str × Str) → Option Str → LmdbError ⊎ List (Str × Str)
removal [] txn o = inl bad_val_size
removal (c ∷ key) txn none = inl not_found
removal (c ∷ key) txn (some v) = inr (erase (c ∷ key) txn)

abbrev room : Str → ℕ → List (Str × Str) → LmdbError ⊎ (Str × (Str → List (Str × Str)))
room [] size txn = inl bad_val_size
room (c ∷ key) size txn = inr (replicate size 0, λ bytes. insert_key (c ∷ key) bytes txn)

-- LMDB over an association list.
abbrev memory : Lmdb
memory = record {
  Environment = List (Str × Str);
  Transaction = List (Str × Str);
  Database = Unit {0};
  begin_ro_txn = λ env. inr env;
  begin_rw_txn = λ env. inr env;
  commit = λ txn. inr txn;
  get = λ txn db key. found key (lookup txn key);
  put = λ txn db key value. inr (insert_key key value txn);
  reserve = λ txn db key size. room key size txn;
  del = λ txn db key. removal key txn (lookup txn key);
  clear_db = λ txn db. inr [];
  iter_start = λ txn db. inr (entries_of (first_entries txn));
}

inr_injective : {A : Type 0} (a b : A) → ◌≡◌ {A = LmdbError ⊎ A} (inr a) (inr b) → a ≡ b
inr_injective a b h = cc

length_zeros : (n : ℕ) → length (replicate {A = ℕ} n 0) ≡ n
length_zeros zero = refl
length_zeros (suc n) = omega (arith, length_zeros n)

found-insert_key :
    (key other bytes : Str) (txn : List (Str × Str))
    → found other (lookup (insert_key key bytes txn) other)
      ≡ (if str_eq key other then inr bytes else found other (lookup txn other))
found-insert_key key other bytes txn =
    ap (found other) (lookup-insert_key key other bytes txn)
    ∙ elim (Bool-cases (str_eq key other)) [ inl e ↦ rw e | inr e ↦ rw e ]

found-room :
    (key other : Str) (size : ℕ) (txn : List (Str × Str)) (buf : Str)
    (fill : Str → List (Str × Str)) (bytes : Str)
    → room key size txn ≡ inr (buf, fill)
    → found other (lookup (fill bytes) other)
      ≡ (if str_eq key other then inr bytes else found other (lookup txn other))
found-room [] other size txn buf fill bytes h = cc
found-room (c ∷ key) other size txn buf fill bytes h =
    ap (λ (r : Str × (Str → List (Str × Str))). found other (lookup (r.1 bytes) other))
      (sym (inr_injective _ _ h))
    ∙ found-insert_key (c ∷ key) other bytes txn

length-room :
    (key : Str) (size : ℕ) (txn : List (Str × Str)) (buf : Str) (fill : Str → List (Str × Str))
    → room key size txn ≡ inr (buf, fill)
    → length buf ≡ size
length-room [] size txn buf fill h = cc
length-room (c ∷ key) size txn buf fill h =
    ap (λ (r : Str × (Str → List (Str × Str))). length r.0) (sym (inr_injective _ _ h))
    ∙ length_zeros size

same_missing : (c : ℕ) (key other : Str) → str_eq (c ∷ key) other ≡ true → missing other ≡ not_found
same_missing c key other e = ap missing (sym (str_eq_sound (c ∷ key) other e))

found-erase :
    (c : ℕ) (key other : Str) (txn : List (Str × Str))
    → found other (lookup (erase (c ∷ key) txn) other)
      ≡ (if str_eq (c ∷ key) other then inl not_found else found other (lookup txn other))
found-erase c key other txn =
    ap (found other) (lookup-erase (c ∷ key) other txn)
    ∙ elim (Bool-cases (str_eq (c ∷ key) other)) [
      | inl e ↦ rw e (ap inl (same_missing c key other e))
      | inr e ↦ rw e
    ]

found-removal :
    (txn txn' : List (Str × Str)) (key other : Str) (o : Option Str)
    → removal key txn o ≡ inr txn'
    → found other (lookup txn' other)
      ≡ (if str_eq key other then inl not_found else found other (lookup txn other))
found-removal txn txn' [] other o h = cc
found-removal txn txn' (c ∷ key) other none h = cc
found-removal txn txn' (c ∷ key) other (some v) h =
    ap (λ (t : List (Str × Str)). found other (lookup t other)) (sym (inr_injective _ _ h))
    ∙ found-erase c key other txn

memory_laws : LmdbLaws memory
memory_laws = record {
  length-reserve = λ txn db key size buf fill h. length-room key size txn buf fill h;
  get-reserve =
      λ txn db key other size buf fill bytes h k. found-room key other size txn buf fill bytes h;
  get-del = λ txn txn' db key other h. found-removal txn txn' key other (lookup txn key) h;
  get-clear_db = λ txn txn' db key h.
      ap (λ (t : List (Str × Str)). found key (lookup t key)) (sym (inr_injective [] txn' h));
  get-begin_rw_txn = λ env ro rw' db key h k.
      ap (λ (t : List (Str × Str)). found key (lookup t key))
        (sym (inr_injective env rw' k) ∙ inr_injective env ro h);
  get-commit = λ env txn ro db key h k.
      ap (λ (t : List (Str × Str)). found key (lookup t key))
        (sym (inr_injective env ro k) ∙ sym (inr_injective txn env h));
  lookup-iter_start = λ txn db entries key h k. ap (found key) (
      sym (lookup-first_entries txn key)
      ∙ ap (λ (m : List (Str × Str)). lookup m key)
          (sym (readable-entries_of (first_entries txn)) ∙ ap readable (inr_injective _ _ h)));
  iter_start-IsDistinct = λ txn db entries h.
      subst IsDistinct
        (sym (readable-entries_of (first_entries txn)) ∙ ap readable (inr_injective _ _ h))
        (first_entries-IsDistinct txn);
}

abbrev named : Str → User
named name = record { id = name; userdata = record { roles = []; passwd = none; kv = [] } }

-- Only a name is written.
abbrev name_alone : Str → List Str → Option Str → List (Str × Str) → Option Str
name_alone name [] none [] = some name
name_alone name _ _ _ = none

named-name_alone :
    (name : Str) (roles : List Str) (passwd : Option Str) (kv : List (Str × Str)) (bytes : Str)
    → name_alone name roles passwd kv ≡ some bytes
    → named bytes
      ≡ record { id = name; userdata = record { roles = roles; passwd = passwd; kv = kv } }
named-name_alone name [] none [] bytes h = cc
named-name_alone name [] none (x ∷ kv) bytes h = cc
named-name_alone name [] (some x) kv bytes h = cc
named-name_alone name (x ∷ roles) passwd kv bytes h = cc

abbrev names : Rkyv User
names = record {
  serialize_value = λ u. name_alone u.id u.userdata.roles u.userdata.passwd u.userdata.kv;
  deserialize = named;
  deserialize-serialize_value =
      λ u bytes h. named-name_alone u.id u.userdata.roles u.userdata.passwd u.userdata.kv bytes h;
}

abbrev alice : Str
alice = codes "alice"

abbrev bob : Str
bob = codes "bob"

abbrev one_user : List (Str × Str)
one_user = (alice, alice) ∷ []

abbrev two_users : List (Str × Str)
two_users = (bob, bob) ∷ (alice, alice) ∷ []

bob_put : user_put memory tt names one_user bob (named bob) ≡ ok two_users
unfolding user_put put copy_from_slice str_eq
bob_put = refl

user_put-user_get_example :
    (value : ArchivedValue) × (named (as_slice value) ≡ named bob)
    × ((other : Str)
        → user_get memory tt names two_users other
          ≡ (if str_eq bob other then ok (some value) else user_get memory tt names one_user other))
user_put-user_get_example =
    user_put-user_get memory memory_laws tt names one_user two_users one_user two_users bob
      (named bob) refl bob_put refl

user_get_all-user_get_example :
    (users : List (Str × UserData)) × (user_get_all memory tt names two_users ≡ ok users)
    × ((uid : Str)
        → (o : Option ArchivedValue) × (user_get memory tt names two_users uid ≡ answer uid o)
          × (lookup users uid ≡ map_option (λ v. (named (as_slice v)).userdata) o))
unfolding str_eq
user_get_all-user_get_example =
    user_get_all-user_get memory memory_laws tt names two_users two_users
      (inr (bob, bob) ∷ inr (alice, alice) ∷ []) refl refl refl

put_lem_example :
    ((e : LmdbError) × (put memory aligned_adapter one_user tt bob (record { bytes = bob })
        ≡ err e))
    ⊎ ((txn' : List (Str × Str)) × (put memory aligned_adapter one_user tt bob
            (record { bytes = bob })
          ≡ ok txn')
        × ((other : Str)
            → get memory aligned_adapter txn' tt other ≡ (
                if str_eq bob other
                then ok (some (record { bytes = bob }))
                else get memory aligned_adapter one_user tt other)))
put_lem_example =
    put_lem memory memory_laws aligned_adapter aligned_laws one_user tt bob (record { bytes = bob })

-- A user without a name, whom LMDB does not take, and one with a name.
abbrev file_rows : List (Str × UserData)
file_rows =
    ([], record { roles = []; passwd = none; kv = [] })
    ∷ (alice, record { roles = []; passwd = none; kv = [] })
    ∷ []

file_loaded :
    load_file memory tt names toy_argon2
      (λ _. [])
      (λ _. some file_rows)
      two_users
      (text (codes "toml"))
    ≡ ok one_user
unfolding load_file file_user prepare put_txn put copy_from_slice clear_txn
file_loaded = refl
