-- ===== src/Authorization/Permissions/Strings.antt =====
-- Rules as strings: `try_from` against the printed forms.
use fabaccess_server.Prelude.{
  ℕ, ◌+◌, ◌-◌, ◌<◌, ◌≡◌, ◌≢◌, refl, sym, ◌∙◌, ◌↔◌, inl, inr, true, false, [], ◌∷◌, ◌++◌, Bool-cases,
  leb, length, length-append, take, drop, take-append_length, drop-append_length, take-append-drop,
  Str, Result, ok, panic, arith,
}
use fabaccess_server.Authorization.Permissions.{
  dot, Permission, need_sep, push, PermRule, children, subtree, display, into_string, RuleError,
  is_continuation, from_tail, try_from,
}

from_tail_sound :
    (input front tail : Str) (r : PermRule)
    → front ++ tail ≡ input
    → from_tail input front tail ≡ ok r
    → display r ≡ input
unfolding from_tail display
from_tail_sound input front [] r e h = cc
from_tail_sound input front (c ∷ []) r e h = cc
from_tail_sound input front (c ∷ d ∷ []) r e h = ground arith
from_tail_sound input front (c ∷ d ∷ x ∷ t) r e h = cc

-- A rule that `try_from` reads from a string prints as that string.
pub display-try_from : (s : Str) (r : PermRule) → try_from s ≡ ok r → display r ≡ s
unfolding try_from
display-try_from s r h = elim (Bool-cases (leb (length s) 2)) [
  | inl e ↦ cc (rw e at h)
  | inr e ↦
      from_tail_sound s (take (length s - 2) s) (drop (length s - 2) s) r (take-append-drop _ s)
        (rw e at h)
]

try_from_split :
    (s : Str) (k : ℕ) → length s ≡ k + 2 → 0 < k → try_from s ≡ from_tail s (take k s) (drop k s)
unfolding try_from
try_from_split s k len pos =
    let long : leb (length s) 2 ≡ false = ground arith in
    let back : length s - 2 ≡ k = omega arith in rw (long, back)

length_pos : (p : Str) → p ≢ [] → 0 < length p
length_pos [] h = absurd (h refl)
length_pos (x ∷ p) h = omega arith

-- A parsed string of length three or more, in terms of its last two bytes.
try_from-append :
    (p : Permission) (c d : ℕ)
    → p ≢ []
    → try_from (p ++ (c ∷ d ∷ [])) ≡ from_tail (p ++ (c ∷ d ∷ [])) p (c ∷ d ∷ [])
try_from-append p c d h =
    let tail : Str = c ∷ d ∷ [] in
    let split = try_from_split (p ++ tail) (length p) (length-append p tail) (length_pos p h) in
    rw (take-append_length, drop-append_length) at split

-- The printed forms of the rules for descendants parse back, unless the permission is empty.
pub try_from-display_children :
    (p : Permission) → p ≢ [] → try_from (display (children p)) ≡ ok (children p)
unfolding display from_tail
try_from-display_children p h = try_from-append p dot b'+' h

pub try_from-display_subtree :
    (p : Permission) → p ≢ [] → try_from (display (subtree p)) ≡ ok (subtree p)
unfolding display from_tail
try_from-display_subtree p h = try_from-append p dot b'*' h

too_short_iff : (s : Str) → leb (length s) 2 ≡ false → 2 < length s
too_short_iff s h = ground arith

length-nonempty : (p : Str) (c d : ℕ) → 2 < length (p ++ (c ∷ d ∷ [])) → p ≢ []
length-nonempty [] c d h e = omega arith
length-nonempty (x ∷ p) c d h e = absurd (cons_nil e)
  where
    cons_nil : x ∷ p ≡ [] → ⊥
    cons_nil q = ground arith

try_from_long : (s : Str) (r : PermRule) → try_from s ≡ ok r → 2 < length s
unfolding try_from
try_from_long s r h = elim (Bool-cases (leb (length s) 2)) [
  | inl e ↦ cc (rw e at h)
  | inr e ↦ too_short_iff s e
]

-- `try_from` reads a string as a rule for the children of a permission exactly when the
-- permission is not empty and the string is the permission followed by ".+".
pub try_from_children_iff :
    (s : Str) (p : Permission)
    → (try_from s ≡ ok (children p)) ↔ ((p ≢ []) × (s ≡ p ++ (dot ∷ b'+' ∷ [])))
try_from_children_iff s p = (
  λ h.
      let e : s ≡ p ++ (dot ∷ b'+' ∷ []) =
        sym (display-try_from s (children p) h) ∙ (unfold display in refl) in
      (length-nonempty p dot b'+' (rw e at (try_from_long s (children p) h)), e),
  λ (h, e). rw e (try_from-append p dot b'+' h ∙ (unfold from_tail in refl)),
)

-- `try_from` reads a string as a rule for the subtree of a permission exactly when the permission
-- is not empty and the string is the permission followed by ".*".
pub try_from_subtree_iff :
    (s : Str) (p : Permission)
    → (try_from s ≡ ok (subtree p)) ↔ ((p ≢ []) × (s ≡ p ++ (dot ∷ b'*' ∷ [])))
try_from_subtree_iff s p = (
  λ h.
      let e : s ≡ p ++ (dot ∷ b'*' ∷ []) =
        sym (display-try_from s (subtree p) h) ∙ (unfold display in refl) in
      (length-nonempty p dot b'*' (rw e at (try_from_long s (subtree p) h)), e),
  λ (h, e). rw e (try_from-append p dot b'*' h ∙ (unfold from_tail in refl)),
)

-- `try_from` panics on a string of three bytes or more whose last byte but one continues a
-- character.
pub try_from_panic :
    (p : Permission) (c d : ℕ)
    → p ≢ []
    → is_continuation c ≡ true
    → try_from (p ++ (c ∷ d ∷ [])) ≡ panic
try_from_panic p c d h e = try_from-append p c d h ∙ (unfold from_tail in rw e)

need_sep-push : (p : Permission) (q : Permission) → need_sep p ≡ true → push p q ≡ p ++ (dot ∷ q)
unfolding push
need_sep-push p q h = rw h

need_sep-nonempty : (p : Permission) → need_sep p ≡ true → p ≢ []
need_sep-nonempty [] h e = ground arith
need_sep-nonempty (c ∷ p) h e = ground arith

-- Both printed forms agree on a rule for children.
pub into_string-children :
    (p : Permission) → need_sep p ≡ true → into_string (children p) ≡ display (children p)
unfolding into_string display
into_string-children p h = need_sep-push p (b'+' ∷ []) h

children_subtree :
    (p q : Permission) (x : Result RuleError PermRule)
    → x ≡ ok (children p)
    → x ≡ ok (subtree q)
    → ⊥
children_subtree p q x e f = ground arith

-- For a permission that is not empty and does not end in a dot, `Into<String>` of the rule for
-- its subtree is not what the rule displays, and reads back as the rule for its children.
pub into_string-subtree :
    (p : Permission)
    → need_sep p ≡ true
    → (try_from (into_string (subtree p)) ≡ ok (children p))
      × (into_string (subtree p) ≢ display (subtree p))
into_string-subtree p h = (
  rw same reads_children,
  λ e.
      children_subtree p p (try_from (display (subtree p))) (rw (sym e, same) reads_children)
        (try_from-display_subtree p (need_sep-nonempty p h)),
)
  where
    same : into_string (subtree p) ≡ display (children p)
    same = unfold into_string display in need_sep-push p (b'+' ∷ []) h

    reads_children : try_from (display (children p)) ≡ ok (children p)
    reads_children = try_from-display_children p (need_sep-nonempty p h)
