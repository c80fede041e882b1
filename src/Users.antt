-- ===== src/Users.antt =====
-- Users and what is stored of them: bffhd/users/db.rs and bffhd/users/mod.rs.
pub mod Database
use fabaccess_server.Prelude.{Option, List, Str}

pub record UserData : Type 0 where
  pub roles : List Str
  pub passwd : Option Str
  pub kv : List (Str × Str)

pub record User : Type 0 where
  pub id : Str
  pub userdata : UserData
