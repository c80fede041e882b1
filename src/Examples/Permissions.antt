-- ===== src/Examples/Permissions.antt =====
-- Permissions and rules of a workshop, bffhd/authorization/permissions.rs.
use fabaccess_server.Prelude.{◌≡◌, ◌≢◌, ◌↔◌, true, [], codes}
use fabaccess_server.Authorization.Permissions.{Permission, children, match_perm}
use fabaccess_server.Authorization.Permissions.Order.{Grants, match_perm_iff}

abbrev mill : Permission
mill = codes "mill"

abbrev laser : Permission
laser = codes "laser"

abbrev laser_cut : Permission
laser_cut = codes "laser.cut"

match_perm_iff_example :
    (match_perm (children laser) laser_cut ≡ true) ↔ Grants (children laser) laser_cut
match_perm_iff_example = match_perm_iff (children laser) laser_cut

laser-nonempty : laser ≢ []
laser-nonempty e = cc
