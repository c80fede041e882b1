-- ===== src/Database.antt =====
-- The typed wrapper of LMDB, bffhd/db/raw.rs and bffhd/db/typed.rs. LMDB itself is a parameter.
pub mod Typed
pub mod States
pub mod Accounts
pub mod Files
use fabaccess_server.Prelude.{
  ℕ, ◌≡◌, ◌==◌, Bool, true, false, Option, none, some, List, [], ◌∷◌, if◌then◌else◌, length, str_eq,
  Str, ◌⊎◌, inl, inr, lookup, IsDistinct, map_option, map_values, Result, ok, err, panic, ◌>>=◌,
}

-- `lmdb::Error`: a missing key, a key of a wrong size, or another code.
pub data LmdbError : Type 0 where
  not_found bad_val_size : LmdbError
  code : ℕ → LmdbError

-- The entries that a cursor gives, without those that it fails to read.
abbrev pub readable : List (LmdbError ⊎ (Str × Str)) → List (Str × Str)
readable [] = []
readable (inl e ∷ entries) = readable entries
readable (inr entry ∷ entries) = entry ∷ readable entries

abbrev pub has_error : List (LmdbError ⊎ (Str × Str)) → Bool
has_error [] = false
has_error (inl e ∷ entries) = true
has_error (inr entry ∷ entries) = has_error entries

-- The answer for a key that is not there; the empty text is no key.
abbrev pub missing : Str → LmdbError
missing [] = bad_val_size
missing (c ∷ key) = not_found

-- What a transaction answers for a key.
abbrev pub found : Str → Option Str → LmdbError ⊎ Str
found key none = inl (missing key)
found key (some bytes) = inr bytes

-- LMDB: environments with what is committed, and transactions on them. `reserve` gives a buffer
-- and the transaction in which it is filled.
pub record Lmdb : Type 1 where
  pub Environment : Type 0
  pub Transaction : Type 0
  pub Database : Type 0
  pub begin_ro_txn : Environment → LmdbError ⊎ Transaction
  pub begin_rw_txn : Environment → LmdbError ⊎ Transaction
  pub commit : Transaction → LmdbError ⊎ Environment
  pub get : Transaction → Database → Str → LmdbError ⊎ Str
  pub put : Transaction → Database → Str → Str → LmdbError ⊎ Transaction
  pub reserve : Transaction → Database → Str → ℕ → LmdbError ⊎ (Str × (Str → Transaction))
  pub del : Transaction → Database → Str → LmdbError ⊎ Transaction
  pub clear_db : Transaction → Database → LmdbError ⊎ Transaction
  pub iter_start : Transaction → Database → LmdbError ⊎ List (LmdbError ⊎ (Str × Str))

-- What its documentation says of them.
pub record LmdbLaws (lmdb : Lmdb) : Type 0 where
  -- The buffer has the size that was asked for.
  pub length-reserve :
      (txn : lmdb.Transaction) (db : lmdb.Database) (key : Str) (size : ℕ) (buf : Str)
      (fill : Str → lmdb.Transaction)
      → lmdb.reserve txn db key size ≡ inr (buf, fill)
      → length buf ≡ size
  -- The transaction reads what was written to the buffer.
  pub get-reserve :
      (txn : lmdb.Transaction) (db : lmdb.Database) (key other : Str) (size : ℕ) (buf : Str)
      (fill : Str → lmdb.Transaction) (bytes : Str)
      → lmdb.reserve txn db key size ≡ inr (buf, fill)
      → length bytes ≡ size
      → lmdb.get (fill bytes) db other
        ≡ (if str_eq key other then inr bytes else lmdb.get txn db other)
  pub get-del :
      (txn txn' : lmdb.Transaction) (db : lmdb.Database) (key other : Str)
      → lmdb.del txn db key ≡ inr txn'
      → lmdb.get txn' db other ≡ (if str_eq key other then inl not_found else lmdb.get txn db other)
  pub get-clear_db :
      (txn txn' : lmdb.Transaction) (db : lmdb.Database) (key : Str)
      → lmdb.clear_db txn db ≡ inr txn'
      → lmdb.get txn' db key ≡ inl (missing key)
  -- A transaction starts from what is committed, and its own writes are committed.
  pub get-begin_rw_txn :
      (env : lmdb.Environment) (ro rw : lmdb.Transaction) (db : lmdb.Database) (key : Str)
      → lmdb.begin_ro_txn env ≡ inr ro
      → lmdb.begin_rw_txn env ≡ inr rw
      → lmdb.get rw db key ≡ lmdb.get ro db key
  pub get-commit :
      (env : lmdb.Environment) (txn ro : lmdb.Transaction) (db : lmdb.Database) (key : Str)
      → lmdb.commit txn ≡ inr env
      → lmdb.begin_ro_txn env ≡ inr ro
      → lmdb.get ro db key ≡ lmdb.get txn db key
  -- A cursor visits every key once.
  pub lookup-iter_start :
      (txn : lmdb.Transaction) (db : lmdb.Database) (entries : List (LmdbError ⊎ (Str × Str)))
      (key : Str)
      → lmdb.iter_start txn db ≡ inr entries
      → has_error entries ≡ false
      → lmdb.get txn db key ≡ found key (lookup (readable entries) key)
  pub iter_start-IsDistinct :
      (txn : lmdb.Transaction) (db : lmdb.Database) (entries : List (LmdbError ⊎ (Str × Str)))
      → lmdb.iter_start txn db ≡ inr entries
      → IsDistinct (readable entries)

-- `?` on a result of LMDB; `db::Error` only wraps its error.
abbrev pub query : {A : Type 0} → LmdbError ⊎ A → Result LmdbError A
query (inl e) = err e
query (inr a) = ok a

-- What a typed read answers: nothing under a key, or the error for the empty one.
abbrev pub answer : {A : Type 0} → Str → Option A → Result LmdbError (Option A)
answer [] none = err bad_val_size
answer (c ∷ key) none = ok none
answer key (some a) = ok (some a)

-- An archive of rkyv in a buffer of its own.
pub record ArchivedValue : Type 0 where
  pub bytes : Str

abbrev pub build : Str → ArchivedValue
build bytes = record { bytes = bytes }

abbrev pub as_slice : ArchivedValue → Str
as_slice value = value.bytes

-- `Adapter`; `encode_into` gives what it leaves in the buffer.
pub record Adapter : Type 1 where
  pub Item : Type 0
  pub decode : Str → Item
  pub encoded_len : Item → ℕ
  pub encode_into : Item → Str → Result LmdbError Str

-- `copy_from_slice` panics where the lengths differ.
unfoldable pub copy_from_slice : Str → Str → Result LmdbError Str
copy_from_slice source buf = if length source == length buf then ok source else panic

abbrev pub aligned_adapter : Adapter
aligned_adapter = record {
  Item = ArchivedValue;
  decode = build;
  encoded_len = λ item. length (as_slice item);
  encode_into = λ item buf. copy_from_slice (as_slice item) buf;
}

module _ (lmdb : Lmdb) where
  open lmdb use {Transaction, Database, reserve, del, clear_db, iter_start}

  -- `RawDB::get`, in which a missing key is no error.
  unfoldable pub raw_get : Transaction → Database → Str → Result LmdbError (Option Str)
  raw_get txn db key = elim (lmdb.get txn db key) [
    | inr buf ↦ ok (some buf)
    | inl not_found ↦ ok none
    | inl bad_val_size ↦ err bad_val_size
    | inl (code n) ↦ err (code n)
  ]

  module _ (adapter : Adapter) where
    open adapter use {Item, decode, encoded_len, encode_into}

    -- `DB::get`.
    unfoldable pub get : Transaction → Database → Str → Result LmdbError (Option Item)
    unfolding raw_get
    get txn db key = do buf ← raw_get txn db key; ok (map_option decode buf)

    -- `DB::put`; a buffer of another size than the one asked for is a panic.
    unfoldable pub put : Transaction → Database → Str → Item → Result LmdbError Transaction
    put txn db key value = do
      (buf, fill) ← query (reserve txn db key (encoded_len value))
      bytes ← if length buf == encoded_len value then encode_into value buf else panic
      ok (fill bytes)

    unfoldable pub get_all : Transaction → Database → Result LmdbError (List (Str × Item))
    get_all txn db = do
      entries ← query (iter_start txn db)
      ok (map_values decode (readable entries))

  -- `DB::del`.
  abbrev pub delete_key : Transaction → Database → Str → Result LmdbError Transaction
  delete_key txn db key = query (del txn db key)

  -- `DB::clear`.
  abbrev pub clear : Transaction → Database → Result LmdbError Transaction
  clear txn db = query (clear_db txn db)
