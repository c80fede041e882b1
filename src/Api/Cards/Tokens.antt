-- ===== src/Api/Cards/Tokens.antt =====
-- What binding a card to a user and taking it off again does to the token and the key that are stored.
use fabaccess_server.Prelude.{
  ◌≡◌, ◌≢◌, ◌⊎◌, refl, sym, ap, ◌∙◌, true, false, Option, none, some, [], ◌∷◌, Bool-cases, inl, inr,
  str_eq, str_eq_sound, str_eq_refl, Str, codes, lookup, erase, insert_key, lookup-erase, ok,
  is_utf8,
}
use fabaccess_server.Users.{User}
use fabaccess_server.Users.Database.{UserDb}
use fabaccess_server.Api.Cards.{
  Hex, with_kv, token_text, token_list, get_token_list, binds, bind, unbound, unbind,
}

abbrev pub cardtoken : Str
cardtoken = codes "cardtoken"

abbrev pub cardkey : Str
cardkey = codes "cardkey"

module _ (lmdb : UserDb) (hex : Hex) where
  -- The token and the key that are stored of a user.
  abbrev pub pair_of : User → Option Str × Option Str
  pair_of user = (lookup user.userdata.kv cardtoken, lookup user.userdata.kv cardkey)

  bound_pair :
      (user : User) (text key : Str)
      → pair_of (with_kv (insert_key cardkey key (insert_key cardtoken text user.userdata.kv)) user)
        ≡ (some text, some key)
  unfolding str_eq
  bound_pair user text key = refl

  pub bind_lem :
      (auth_key token uid : Str) (db : lmdb.Db) (user : User)
      → lmdb.get db uid ≡ some user
      → binds (token_text hex token) (pair_of user).0 (pair_of user).1 ≡ true
      → (db' : lmdb.Db) × (user' : User) × (bind lmdb hex auth_key token uid db ≡ ok db')
        × (lmdb.get db' uid ≡ some user')
        × (pair_of user' ≡ (some (token_text hex token), some (hex.encode auth_key)))
        × (user'.userdata.roles ≡ user.userdata.roles)
        × (user'.userdata.passwd ≡ user.userdata.passwd)
  unfolding bind
  bind_lem auth_key token uid db user e b =
      let kv = user.userdata.kv in
      let text = token_text hex token in
      let bound = insert_key cardkey (hex.encode auth_key) (insert_key cardtoken text kv) in
      (
        lmdb.put db uid (with_kv bound user),
        with_kv bound user,
        rw (e, bind, b),
        rw (lmdb.get-put db uid uid (with_kv bound user), str_eq_refl uid),
        bound_pair user text (hex.encode auth_key),
        refl,
        refl,
      )

  pub bind_refuses :
      (auth_key token uid key : Str) (db : lmdb.Db) (user : User)
      → lmdb.get db uid ≡ some user
      → pair_of user ≡ (some (token_text hex token), some key)
      → bind lmdb hex auth_key token uid db ≡ ok db
  unfolding bind
  bind_refuses auth_key token uid key db user e p =
      let held : binds (token_text hex token) (pair_of user).0 (pair_of user).1 ≡ false =
        ap (λ (q : Option Str × Option Str). binds (token_text hex token) q.0 q.1) p
        ∙ (unfold binds in rw (str_eq_refl (token_text hex token))) in
      rw (e, bind, held)

  pub get_token_list_lem :
      (token uid : Str) (db : lmdb.Db) (user : User)
      → lmdb.get db uid ≡ some user
      → lookup user.userdata.kv cardtoken ≡ some (token_text hex token)
      → is_utf8 token ≡ false
      → token ≢ []
      → get_token_list lmdb hex uid db ≡ ok (token ∷ [])
  unfolding get_token_list token_text
  get_token_list_lem token uid db user e stored binary ne =
      rw (e, get_token_list, stored, binary, hex.decode-encode token) (ap ok (whole token ne))
    where
      whole : (token : Str) → token ≢ [] → token_list (some token) ≡ token ∷ []
      whole [] ne = absurd (ne refl)
      whole (c ∷ token) ne = refl

  -- A token that is UTF-8 but not hex digits, stored for a user the way `bind` stores it, is
  -- not listed: the list of tokens is empty.
  pub get_token_list_loses :
      (token uid : Str) (db : lmdb.Db) (user : User)
      → lmdb.get db uid ≡ some user
      → lookup user.userdata.kv cardtoken ≡ some (token_text hex token)
      → is_utf8 token ≡ true
      → hex.decode token ≡ none
      → get_token_list lmdb hex uid db ≡ ok []
  unfolding get_token_list token_text
  get_token_list_loses token uid db user e stored plain odd =
      rw (e, get_token_list, stored, plain, odd)

  erased_pair :
      (user : User)
      → pair_of (with_kv (erase cardkey (erase cardtoken user.userdata.kv)) user) ≡ (none, none)
  unfolding str_eq
  erased_pair user =
      let kv = user.userdata.kv in
      let token : lookup (erase cardkey (erase cardtoken kv)) cardtoken ≡ none =
        lookup-erase cardkey cardtoken (erase cardtoken kv) ∙ lookup-erase cardtoken cardtoken kv in
      let key : lookup (erase cardkey (erase cardtoken kv)) cardkey ≡ none =
        lookup-erase cardkey cardkey (erase cardtoken kv) in
      λ i. (token i, key i)

  pub unbind_lem :
      (token uid : Str) (db : lmdb.Db) (user : User)
      → lmdb.get db uid ≡ some user
      → (db' : lmdb.Db) × (user' : User) × (unbind lmdb hex token uid db ≡ ok db')
        × (lmdb.get db' uid ≡ some user')
        × (((lookup user.userdata.kv cardtoken ≡ some (token_text hex token))
              × (pair_of user' ≡ (none, none)))
            ⊎ ((lookup user.userdata.kv cardtoken ≢ some (token_text hex token)) × (user' ≡ user)))
  unfolding unbind
  unbind_lem token uid db user e =
      let text = token_text hex token in
      let kv = user.userdata.kv in
      let left = unbound text (lookup kv cardtoken) kv in
      (
        lmdb.put db uid (with_kv left user),
        with_kv left user,
        rw (e, unbind),
        rw (lmdb.get-put db uid uid (with_kv left user), str_eq_refl uid),
        cases (lookup kv cardtoken) refl,
      )
    where
      gone :
          (prev : Str)
          → str_eq (token_text hex token) prev ≡ true
          → pair_of (with_kv (unbound (token_text hex token) (some prev) user.userdata.kv) user)
            ≡ (none, none)
      gone prev same = unfold unbound in rw same (erased_pair user)

      apart :
          (prev : Str)
          → str_eq (token_text hex token) prev ≡ false
          → some prev ≢ some (token_text hex token)
      apart prev other p =
          let same : prev ≡ token_text hex token = cc in cc (rw (same, str_eq_refl) at other)

      cases :
          (o : Option Str)
          → lookup user.userdata.kv cardtoken ≡ o
          → ((lookup user.userdata.kv cardtoken ≡ some (token_text hex token))
              × (pair_of (with_kv (unbound (token_text hex token) o user.userdata.kv) user)
                  ≡ (none, none)))
            ⊎ ((lookup user.userdata.kv cardtoken ≢ some (token_text hex token))
                × (with_kv (unbound (token_text hex token) o user.userdata.kv) user ≡ user))
      cases none q = inr (λ p. cc, unfold unbound in refl)
      cases (some prev) q = elim (Bool-cases (str_eq (token_text hex token) prev)) [
        | inl same ↦
            inl (q ∙ ap some (sym (str_eq_sound (token_text hex token) prev same)), gone prev same)
        | inr other ↦ inr (λ p. apart prev other (sym q ∙ p), unfold unbound in rw other)
      ]

  -- For a token that is not empty and not UTF-8, and a user of the database for whom `bind`
  -- does write: after `bind` the list of tokens is this one, and after an `unbind` of it the
  -- user has neither token nor key.
  pub unbind-bind :
      (auth_key token uid : Str) (db : lmdb.Db) (user : User)
      → lmdb.get db uid ≡ some user
      → binds (token_text hex token) (pair_of user).0 (pair_of user).1 ≡ true
      → is_utf8 token ≡ false
      → token ≢ []
      → (bound : lmdb.Db) × (unbound_db : lmdb.Db) × (user' : User) × (bind lmdb hex auth_key token
            uid db
          ≡ ok bound)
        × (get_token_list lmdb hex uid bound ≡ ok (token ∷ []))
        × (unbind lmdb hex token uid bound ≡ ok unbound_db)
        × (lmdb.get unbound_db uid ≡ some user')
        × (pair_of user' ≡ (none, none))
  unbind-bind auth_key token uid db user e b binary ne =
      let (bound, holder, did, got, pair, roles, passwd) =
        bind_lem auth_key token uid db user e b in
      let stored : lookup holder.userdata.kv cardtoken ≡ some (token_text hex token) =
        ap (λ (q : Option Str × Option Str). q.0) pair in
      let (db', user', undid, got', cases) = unbind_lem token uid bound holder got in
      (
        bound,
        db',
        user',
        did,
        get_token_list_lem token uid bound holder got stored binary ne,
        undid,
        got',
        elim cases [ inl (same, gone) ↦ gone | inr (apart, same) ↦ absurd (apart stored) ],
      )
