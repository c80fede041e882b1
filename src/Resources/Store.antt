-- ===== src/Resources/Store.antt =====
-- What a resource needs of the state database, bffhd/resources/state/db.rs over LMDB and rkyv:
-- a committed write is what later reads of that key return, and it changes no other key.
use fabaccess_server.Prelude.{◌≡◌, false, Option, some, str_eq, Str}
use fabaccess_server.Resources.Machine.{MachineState}

pub record StateDb : Type 1 where
  pub Db : Type 0
  pub get : Db → Str → Option MachineState
  pub put : Db → Str → MachineState → Db
  pub get-put : (db : Db) (id : Str) (s : MachineState) → get (put db id s) id ≡ some s
  pub get-put_other :
      (db : Db) (id other : Str) (s : MachineState)
      → str_eq id other ≡ false
      → get (put db id s) other ≡ get db other
