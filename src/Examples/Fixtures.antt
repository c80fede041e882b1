-- ===== src/Examples/Fixtures.antt =====
-- Stand-ins for what the code uses and does not define: a database, hashes, hex digits.
use fabaccess_server.Prelude.{
  ℕ, zero, suc, ◌+◌, ◌≤◌, length, replicate, arith, ◌≡◌, refl, ◌∙◌, ◌==◌, Bool-cases, inl, inr,
  Option, none, some, List, [], ◌∷◌, if◌then◌else◌, str_eq, str_eq_refl, Str, codes, lookup, erase,
  insert_key, lookup-erase, lookup-insert_key, IsDistinct,
}
use fabaccess_server.Users.{User}
use fabaccess_server.Users.Database.{UserDb, Argon2}
use fabaccess_server.Api.Cards.{Hex}

module _ {ℓ} {V : Type ℓ} where
  pub erase-IsDistinct : (k : Str) (m : List (Str × V)) → IsDistinct m → IsDistinct (erase k m)
  erase-IsDistinct k [] d = tt
  erase-IsDistinct k ((j, v) ∷ m) d = elim (Bool-cases (str_eq k j)) [
    | inl same ↦ rw same (erase-IsDistinct k m d.1)
    | inr other ↦ rw other (lookup-erase k j m ∙ rw (other, d.0), erase-IsDistinct k m d.1)
  ]

  pub insert_key-IsDistinct :
      (k : Str) (v : V) (m : List (Str × V)) → IsDistinct m → IsDistinct (insert_key k v m)
  insert_key-IsDistinct k v m d = (lookup-erase k k m ∙ rw (str_eq_refl k), erase-IsDistinct k m d)

-- Users by name, each once.
pub record Table : Type 0 where
  pub rows : List (Str × User)
  pub each_once : IsDistinct rows

abbrev pub table_db : UserDb
table_db = record {
  Db = Table;
  get = λ db k. lookup db.rows k;
  put = λ db k u. record {
    rows = insert_key k u db.rows;
    each_once = insert_key-IsDistinct k u db.rows db.each_once;
  };
  del = λ db k. record {
    rows = erase k db.rows;
    each_once = erase-IsDistinct k db.rows db.each_once;
  };
  clear = λ db. record { rows = []; each_once = tt };
  get_all = λ db. db.rows;
  get-put = λ db k j u. lookup-insert_key k j u db.rows;
  get-del = λ db k j. lookup-erase k j db.rows;
  get-clear = λ db j. refl;
  lookup-get_all = λ db j. refl;
  get_all-IsDistinct = λ db. db.each_once;
}

-- A hash that keeps the password.
abbrev pub hash_of : Str → Str
hash_of pw = b'$' ∷ b'a' ∷ b'r' ∷ b'g' ∷ b'o' ∷ b'n' ∷ b'2' ∷ pw

abbrev pub toy_argon2 : Argon2
toy_argon2 = record {
  hash_encoded = λ salt pw. hash_of pw;
  verify_encoded = λ h pw. some (str_eq h (hash_of pw));
  verify_encoded-hash_encoded = λ salt pw. rw (str_eq_refl (hash_of pw));
  starts_with-hash_encoded = λ salt pw. refl;
}

-- Digits that are the bytes behind a sign.
abbrev pub unsigned : Str → Option Str
unsigned [] = none
unsigned (c ∷ digits) = if c == b'x' then some digits else none

abbrev pub toy_hex : Hex
toy_hex = record {
  encode = λ bytes. b'x' ∷ bytes;
  decode = unsigned;
  decode-encode = λ bytes. refl;
}

abbrev pub named : Str → Option Str → List (Str × Str) → User
named id passwd kv = record { id = id; userdata = record { roles = []; passwd = passwd; kv = kv } }

abbrev pub ann : Str
ann = codes "ann"

abbrev pub table : User → Table
table user = record { rows = (user.id, user) ∷ []; each_once = (refl, tt) }

-- An allocator that gives exactly what is asked for, and clear memory.
abbrev pub exact : ℕ → ℕ → ℕ
exact len more = len + more

abbrev pub zeros : ℕ → List ℕ
zeros n = replicate n 0

pub length-zeros : (n : ℕ) → length (zeros n) ≡ n
length-zeros zero = refl
length-zeros (suc n) = omega (arith, length-zeros n)

pub exact_room : (len more : ℕ) → len + more ≤ exact len more
exact_room len more = omega arith
