-- ===== src/Session.antt =====
-- Sessions and what they may do: bffhd/session/mod.rs.
use fabaccess_server.Prelude.{ℕ, Bool, false, Option, none, some, Str}
use fabaccess_server.Authorization.Permissions.{Permission}
use fabaccess_server.Users.{User}
use fabaccess_server.Authorization.Roles.{Roles, is_permitted}

-- The user database as far as a session reads it, `Users::get_user`.
abbrev pub Users : Type 0
Users = Str → Option User

pub record SessionManager : Type 0 where
  pub users : Users
  pub roles : Roles

pub record SessionHandle : Type 0 where
  pub users : Users
  pub roles : Roles
  pub user : Str

-- `open`, without the tracing span.
unfoldable pub open_session : SessionManager → User → SessionHandle
open_session m user = record { users = m.users; roles = m.roles; user = user.id }

unfoldable pub try_open : SessionManager → Str → Option SessionHandle
unfolding open_session
try_open m uid = elim (m.users uid) [ none ↦ none | some user ↦ some (open_session m user) ]

-- A permission check; `none` where the recursion over the roles is deeper than the fuel.
-- The user is looked up anew at each check.
unfoldable pub has_perm : ℕ → SessionHandle → Permission → Option Bool
has_perm fuel session perm = elim (session.users session.user) [
  | none ↦ some false
  | some user ↦ is_permitted session.roles fuel user.userdata perm
]
