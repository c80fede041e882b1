-- ===== src/Database/Typed.antt =====
-- Reads and writes of a typed database, bffhd/db/typed.rs.
use fabaccess_server.Prelude.{
  ◌≡◌, refl, sym, ap, subst, ◌∙◌, ==_refl, false, Option, none, some, List, [], ◌∷◌, if◌then◌else◌,
  length, str_eq, Str, ◌⊎◌, inl, inr, lookup, IsDistinct, map_option, map_values,
  map_values-IsDistinct, lookup-map_values, ok, err, Bool-cases,
}
use fabaccess_server.Database.{
  LmdbError, Lmdb, LmdbLaws, Adapter, aligned_adapter, as_slice, copy_from_slice, query, raw_get,
  delete_key, clear, get_all, get, put, found, answer, readable, has_error,
}

-- An adapter writes as many bytes as it says, and reads the item back from them.
pub record AdapterLaws (adapter : Adapter) : Type 0 where
  pub encode_into_lem :
      (item : adapter.Item) (buf : Str)
      → length buf ≡ adapter.encoded_len item
      → (bytes : Str) × (adapter.encode_into item buf ≡ ok bytes)
        × (length bytes ≡ adapter.encoded_len item)
        × (adapter.decode bytes ≡ item)

pub aligned_laws : AdapterLaws aligned_adapter
unfolding copy_from_slice
aligned_laws = record {
  encode_into_lem = λ item buf h. (as_slice item, rw (h, ==_refl (length item.bytes)), refl, refl);
}

pub query-eq_ok : {A : Type 0} (r : LmdbError ⊎ A) (a : A) → query r ≡ ok a → r ≡ inr a
query-eq_ok (inl e) a h = cc
query-eq_ok (inr b) a h = cc

module _ (lmdb : Lmdb) (laws : LmdbLaws lmdb) (adapter : Adapter)
    (adapter_laws : AdapterLaws adapter) where
  open lmdb use {Transaction, Database, reserve, del, clear_db, iter_start}
  open adapter use {Item, encoded_len, encode_into, decode}

  -- What a write of LMDB's does to the reads of the typed database.
  get-fill :
      (txn : Transaction) (db : Database) (key other : Str) (value : Item) (buf : Str)
      (fill : Str → Transaction) (bytes : Str)
      → reserve txn db key (encoded_len value) ≡ inr (buf, fill)
      → length bytes ≡ encoded_len value
      → decode bytes ≡ value
      → get lmdb adapter (fill bytes) db other
        ≡ (if str_eq key other then ok (some value) else get lmdb adapter txn db other)
  unfolding get raw_get
  get-fill txn db key other value buf fill bytes r size back =
      let read = laws.get-reserve txn db key other (encoded_len value) buf fill bytes r size in
      elim (Bool-cases (str_eq key other)) [
        | inl e ↦ let same = rw e at read in rw (e, get, raw_get, same, back)
        | inr e ↦ let same = rw e at read in rw (e, get, raw_get, same)
      ]

  put_after :
      (txn : Transaction) (db : Database) (key : Str) (value : Item)
      (r : LmdbError ⊎ (Str × (Str → Transaction)))
      → reserve txn db key (encoded_len value) ≡ r
      → ((e : LmdbError) × (put lmdb adapter txn db key value ≡ err e))
        ⊎ ((txn' : Transaction) × (put lmdb adapter txn db key value ≡ ok txn')
            × ((other : Str)
                → get lmdb adapter txn' db other
                  ≡ (if str_eq key other then ok (some value) else get lmdb adapter txn db other)))
  unfolding put
  put_after txn db key value (inl e) h = inl (e, rw h)
  put_after txn db key value (inr (buf, fill)) h =
      let size = laws.length-reserve txn db key (encoded_len value) buf fill h in
      let (bytes, encoded, same_size, back) = adapter_laws.encode_into_lem value buf size in
      let written : put lmdb adapter txn db key value ≡ ok (fill bytes) =
        rw (h, size, ==_refl (encoded_len value), encoded) in
      inr (
        fill bytes,
        written,
        λ other. get-fill txn db key other value buf fill bytes h same_size back,
      )

  -- For any adapter that writes as many bytes as it says and reads them back, a write to a
  -- typed database never panics: it gives the error of LMDB, or a transaction that reads the
  -- value under its key and what was there before under every other.
  pub put_lem :
      (txn : lmdb.Transaction) (db : lmdb.Database) (key : Str) (value : adapter.Item)
      → ((e : LmdbError) × (put lmdb adapter txn db key value ≡ err e))
        ⊎ ((txn' : lmdb.Transaction) × (put lmdb adapter txn db key value ≡ ok txn')
            × ((other : Str)
                → get lmdb adapter txn' db other
                  ≡ (if str_eq key other then ok (some value) else get lmdb adapter txn db other)))
  unfolding put get raw_get
  put_lem txn db key value =
      put_after txn db key value (reserve txn db key (encoded_len value)) refl

  pub delete_key_lem :
      (txn txn' : Transaction) (db : Database) (key other : Str)
      → delete_key lmdb txn db key ≡ ok txn'
      → get lmdb adapter txn' db other
        ≡ (if str_eq key other then ok none else get lmdb adapter txn db other)
  unfolding get raw_get
  delete_key_lem txn txn' db key other h =
      let read = laws.get-del txn txn' db key other (query-eq_ok (del txn db key) txn' h) in
      elim (Bool-cases (str_eq key other)) [
        | inl e ↦ let same = rw e at read in rw (e, get, raw_get, same)
        | inr e ↦ let same = rw e at read in rw (e, get, raw_get, same)
      ]

  get_as :
      (txn : Transaction) (db : Database) (key : Str) (o : Option Str)
      → lmdb.get txn db key ≡ found key o
      → get lmdb adapter txn db key ≡ answer key (map_option decode o)
  unfolding get raw_get
  get_as txn db [] none h = rw (get, raw_get, h)
  get_as txn db (c ∷ key) none h = rw (get, raw_get, h)
  get_as txn db [] (some bytes) h = rw (get, raw_get, h)
  get_as txn db (c ∷ key) (some bytes) h = rw (get, raw_get, h)

  pub clear_lem :
      (txn txn' : Transaction) (db : Database) (key : Str)
      → clear lmdb txn db ≡ ok txn'
      → get lmdb adapter txn' db key ≡ answer key none
  clear_lem txn txn' db key h =
      get_as txn' db key none
        (laws.get-clear_db txn txn' db key (query-eq_ok (clear_db txn db) txn' h))

  pub get_all_lem :
      (txn : Transaction) (db : Database) (entries : List (LmdbError ⊎ (Str × Str)))
      → iter_start txn db ≡ inr entries
      → has_error entries ≡ false
      → (items : List (Str × Item)) × (get_all lmdb adapter txn db ≡ ok items)
        × IsDistinct items
        × ((key : Str) → get lmdb adapter txn db key ≡ answer key (lookup items key))
  unfolding get_all
  get_all_lem txn db entries h clean = (
    map_values decode (readable entries),
    rw h,
    map_values-IsDistinct decode (readable entries) (laws.iter_start-IsDistinct txn db entries h),
    λ key.
        get_as txn db key (lookup (readable entries) key)
          (laws.lookup-iter_start txn db entries key h clean)
        ∙ ap (answer key) (sym (lookup-map_values decode (readable entries) key)),
  )

  get_same :
      (txn txn' : Transaction) (db : Database) (key : Str)
      → lmdb.get txn db key ≡ lmdb.get txn' db key
      → get lmdb adapter txn db key ≡ get lmdb adapter txn' db key
  unfolding get raw_get
  get_same txn txn' db key h = rw (get, raw_get, h)

  pub get-begin_rw :
      (env : lmdb.Environment) (ro rw' : Transaction) (db : Database) (key : Str)
      → lmdb.begin_ro_txn env ≡ inr ro
      → lmdb.begin_rw_txn env ≡ inr rw'
      → get lmdb adapter rw' db key ≡ get lmdb adapter ro db key
  get-begin_rw env ro rw' db key h k =
      get_same rw' ro db key (laws.get-begin_rw_txn env ro rw' db key h k)

  pub get-committed :
      (env : lmdb.Environment) (txn ro : Transaction) (db : Database) (key : Str)
      → query (lmdb.commit txn) ≡ ok env
      → lmdb.begin_ro_txn env ≡ inr ro
      → get lmdb adapter ro db key ≡ get lmdb adapter txn db key
  get-committed env txn ro db key h k =
      get_same ro txn db key
        (laws.get-commit env txn ro db key (query-eq_ok (lmdb.commit txn) env h) k)

  -- The write of one key in a transaction of its own.
  pub written :
      (env env' : lmdb.Environment) (ro ro' txn txn' : Transaction) (db : Database)
      (key other : Str) (value : Item)
      → lmdb.begin_ro_txn env ≡ inr ro
      → query (lmdb.begin_rw_txn env) ≡ ok txn
      → put lmdb adapter txn db key value ≡ ok txn'
      → query (lmdb.commit txn') ≡ ok env'
      → lmdb.begin_ro_txn env' ≡ inr ro'
      → get lmdb adapter ro' db other
        ≡ (if str_eq key other then ok (some value) else get lmdb adapter ro db other)
  written env env' ro ro' txn txn' db key other value h begun stored committed h' =
      let before = get-begin_rw env ro txn db other h (query-eq_ok _ txn begun) in
      let after = get-committed env' txn' ro' db other committed h' in
      elim (put_lem txn db key value) [
        | inl (e, failed) ↦ absurd cc
        | inr (txn'', stored', reads) ↦
            let same : txn'' ≡ txn' = cc in
            let read =
              subst
                (λ (t : Transaction).
                  get lmdb adapter t db other
                  ≡ (if str_eq key other then ok (some value) else get lmdb adapter txn db other))
                same (reads other) in
            after ∙ (read ∙ ap (λ r. if str_eq key other then ok (some value) else r) before)
      ]
