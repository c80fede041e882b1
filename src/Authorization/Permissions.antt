-- ===== src/Authorization/Permissions.antt =====
-- Permissions and rules: bffhd/authorization/permissions.rs.
pub mod Order
pub mod Strings
use fabaccess_server.Prelude.{
  ℕ, ◌-◌, ◌≡◌, Bool, true, false, Option, none, some, List, [], ◌∷◌, ◌++◌, leb, ltb, ◌==◌, ◌&&◌,
  if◌then◌else◌, str_eq, length, take, drop, Str, Result, ok, err, panic,
}

abbrev pub dot : ℕ
dot = b'.'

-- A `Permission` is a string, and so is the `PermissionBuf` that owns one.
abbrev pub Permission : Type 0
Permission = Str

abbrev pub is_sep_char : ℕ → Bool
is_sep_char c = c == dot

-- `str::split`: a byte that is no separator goes to the front of the first segment.
abbrev push_front : ℕ → List Str → List Str
push_front c [] = (c ∷ []) ∷ []
push_front c (seg ∷ segs) = (c ∷ seg) ∷ segs

-- `Permission::iter`, the segments between the dots.
unfoldable pub iter : Permission → List Str
iter [] = [] ∷ []
iter (c ∷ s) = if c == dot then [] ∷ iter s else push_front c (iter s)

pub data Ordering : Type 0 where
  less equal greater : Ordering

-- The loop of `partial_cmp`, over what is left of the two iterators.
unfoldable pub cmp_segments : List Str → List Str → Option Ordering
cmp_segments [] [] = some equal
cmp_segments (l ∷ ls) [] = some less
cmp_segments [] (r ∷ rs) = some greater
cmp_segments (l ∷ ls) (r ∷ rs) = if str_eq l r then cmp_segments ls rs else none

unfoldable pub partial_cmp : Permission → Permission → Option Ordering
partial_cmp a b = cmp_segments (iter a) (iter b)

-- `a > b` and `a >= b`, as `PartialOrd` derives them.
abbrev is_gt : Option Ordering → Bool
is_gt (some greater) = true
is_gt _ = false

abbrev is_ge : Option Ordering → Bool
is_ge (some greater) = true
is_ge (some equal) = true
is_ge _ = false

pub data PermRule : Type 0 where
  base : Permission → PermRule
  children : Permission → PermRule
  subtree : Permission → PermRule

unfoldable pub match_perm : PermRule → Permission → Bool
match_perm (base b) perm = str_eq b perm
match_perm (children parent) perm = is_gt (partial_cmp parent perm)
match_perm (subtree parent) perm = is_ge (partial_cmp parent perm)

-- Whether the last byte exists and is no separator.
abbrev pub need_sep : Permission → Bool
need_sep [] = false
need_sep (c ∷ []) = if is_sep_char c then false else true
need_sep (c ∷ d ∷ s) = need_sep (d ∷ s)

unfoldable pub push : Permission → Permission → Permission
push inner perm = if need_sep inner then inner ++ (dot ∷ perm) else inner ++ perm

-- The `Display` form of a rule.
pub display : PermRule → Str
display (base perm) = perm
display (children parent) = parent ++ (dot ∷ b'+' ∷ [])
display (subtree parent) = parent ++ (dot ∷ b'*' ∷ [])

-- `Into<String>`; both rules for descendants push "+".
pub into_string : PermRule → Str
unfolding push
into_string (base perm) = perm
into_string (children perm) = push perm (b'+' ∷ [])
into_string (subtree perm) = push perm (b'+' ∷ [])

pub data RuleError : Type 0 where
  too_short : RuleError

-- A slice that starts inside a character panics: its first byte is a continuation byte.
abbrev pub is_continuation : ℕ → Bool
is_continuation c = leb 0x80 c && ltb c 0xc0

-- The `match` on the last two bytes, with the string before them.
unfoldable pub from_tail : Str → Str → Str → Result RuleError PermRule
from_tail input front (c ∷ d ∷ []) =
    if is_continuation c
    then panic
    else if c == dot && d == b'+'
    then ok (children front)
    else if c == dot && d == b'*'
    then ok (subtree front)
    else ok (base input)
from_tail input front _ = panic

unfoldable pub try_from : Str → Result RuleError PermRule
unfolding from_tail
try_from input =
    let len = length input in
    if leb len 2
    then err too_short
    else from_tail input (take (len - 2) input) (drop (len - 2) input)
