-- ===== src/Users/Database/Files.antt =====
-- Passwords that were set.
use fabaccess_server.Prelude.{◌≡◌, true, some, Str}
use fabaccess_server.Users.{User}
use fabaccess_server.Users.Database.{Argon2, check_password, set_pw, prepare}

-- A password that was set passes the check, and loading a file leaves its hash as it is.
pub check_password-set_pw :
    (argon2 : Argon2) (salt pw : Str) (user : User)
    → (check_password argon2 (set_pw argon2 salt pw user) pw ≡ some true)
      × (prepare argon2 salt (set_pw argon2 salt pw user).userdata
          ≡ (set_pw argon2 salt pw user).userdata)
unfolding check_password set_pw prepare
check_password-set_pw argon2 salt pw user =
    (argon2.verify_encoded-hash_encoded salt pw, rw (argon2.starts_with-hash_encoded salt pw))
