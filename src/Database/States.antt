-- ===== src/Database/States.antt =====
-- The state database, bffhd/resources/state/db.rs.
pub mod Store
use fabaccess_server.Prelude.{Option, Str, Result, ◌>>=◌}
use fabaccess_server.Database.{LmdbError, Lmdb, ArchivedValue, aligned_adapter, query, get, put}

module _ (lmdb : Lmdb) (db : lmdb.Database) where
  open lmdb use {Environment, begin_ro_txn, begin_rw_txn, commit}

  unfoldable pub state_get : Environment → Str → Result LmdbError (Option ArchivedValue)
  state_get env key = do txn ← query (begin_ro_txn env); get lmdb aligned_adapter txn db key

  -- The environment is as before where it fails.
  unfoldable pub state_put : Environment → Str → ArchivedValue → Result LmdbError Environment
  state_put env key value = do
    txn ← query (begin_rw_txn env)
    txn' ← put lmdb aligned_adapter txn db key value
    query (commit txn')
