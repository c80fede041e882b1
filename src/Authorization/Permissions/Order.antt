-- ===== src/Authorization/Permissions/Order.antt =====
-- The order of permissions, against the strings: `>` is "continued after a dot".
use fabaccess_server.Prelude.{
  ℕ, ◌≡◌, refl, sym, ap, ap₂, ◌∙◌, ◌↔◌, ◌⊎◌, inl, inr, true, Option, none, some, List, [], ◌∷◌,
  ◌++◌, append_assoc, ◌==◌, ==_iff, Bool-cases, str_eq, str_eq_sound, str_eq_refl, str_eq_comm, Str,
  arith,
}
use fabaccess_server.Authorization.Permissions.{
  dot, Permission, push_front, iter, Ordering, less, equal, greater, cmp_segments, partial_cmp,
  PermRule, base, children, subtree, match_perm, is_ge,
}

-- The string that segments come from.
abbrev join : List Str → Str
join [] = []
join (seg ∷ []) = seg
join (seg ∷ next ∷ segs) = seg ++ (dot ∷ join (next ∷ segs))

iter_cons : (s : Str) → (seg : Str) × (segs : List Str) × (iter s ≡ seg ∷ segs)
unfolding iter
iter_cons [] = ([], [], refl)
iter_cons (c ∷ s) = elim (Bool-cases (c == dot)) [
  | inl e ↦ ([], iter s, rw e)
  | inr e ↦ let (seg, segs, h) = iter_cons s in (c ∷ seg, segs, rw (e, h))
]

join-push_front :
    (c : ℕ) (seg : Str) (segs : List Str) → join (push_front c (seg ∷ segs)) ≡ c ∷ join (seg ∷ segs)
join-push_front c seg [] = refl
join-push_front c seg (next ∷ segs) = refl

iter_step : (c : ℕ) (s : Str) → join (iter (c ∷ s)) ≡ c ∷ join (iter s)
unfolding iter
iter_step c s =
    let (seg, segs, h) = iter_cons s in
    elim (Bool-cases (c == dot)) [
      | inl e ↦ rw (e, h) (ap (λ (d : ℕ). d ∷ join (seg ∷ segs)) (sym ((==_iff c dot).0 e)))
      | inr e ↦ rw (e, h) (join-push_front c seg segs)
    ]

join-iter : (s : Str) → join (iter s) ≡ s
join-iter [] = unfold iter in refl
join-iter (c ∷ s) = iter_step c s ∙ ap (λ t. c ∷ t) (join-iter s)

push_front-append :
    (c : ℕ) (seg : Str) (segs more : List Str)
    → push_front c ((seg ∷ segs) ++ more) ≡ push_front c (seg ∷ segs) ++ more
push_front-append c seg segs more = refl

iter-append : (s t : Str) → iter (s ++ (dot ∷ t)) ≡ iter s ++ iter t
unfolding iter
iter-append [] t = refl
iter-append (c ∷ s) t =
    let (seg, segs, h) = iter_cons s in
    elim (Bool-cases (c == dot)) [
      | inl e ↦ rw e (ap (λ r. [] ∷ r) (iter-append s t))
      | inr e ↦ rw (e, iter-append s t, h)
    ]

join-append :
    (ls : List Str) (l r : Str) (rs : List Str)
    → join ((l ∷ ls) ++ (r ∷ rs)) ≡ join (l ∷ ls) ++ (dot ∷ join (r ∷ rs))
join-append [] l r rs = refl
join-append (m ∷ ls) l r rs =
    ap (λ t. l ++ (dot ∷ t)) (join-append ls m r rs)
    ∙ sym (append_assoc l (dot ∷ join (m ∷ ls)) (dot ∷ join (r ∷ rs)))

-- The comparison is `greater` exactly on a proper continuation.
cmp_segments_greater :
    (ls rs : List Str)
    → cmp_segments ls rs ≡ some greater
    → (r : Str) × (more : List Str) × (rs ≡ ls ++ (r ∷ more))
unfolding cmp_segments
cmp_segments_greater [] [] h = cc
cmp_segments_greater [] (r ∷ rs) h = (r, rs, refl)
cmp_segments_greater (l ∷ ls) [] h = cc
cmp_segments_greater (l ∷ ls) (r ∷ rs) h = elim (Bool-cases (str_eq l r)) [
  | inl e ↦
      let (m, more, q) = cmp_segments_greater ls rs (rw e at h) in
      (m, more, ap₂ ◌∷◌ (sym (str_eq_sound l r e)) q)
  | inr e ↦ cc (rw e at h)
]

cmp_segments-append :
    (ls : List Str) (r : Str) (more : List Str) → cmp_segments ls (ls ++ (r ∷ more)) ≡ some greater
unfolding cmp_segments
cmp_segments-append [] r more = refl
cmp_segments-append (l ∷ ls) r more = rw (str_eq_refl l) (cmp_segments-append ls r more)

cmp_segments_equal : (ls rs : List Str) → cmp_segments ls rs ≡ some equal → ls ≡ rs
unfolding cmp_segments
cmp_segments_equal [] [] h = refl
cmp_segments_equal [] (r ∷ rs) h = cc
cmp_segments_equal (l ∷ ls) [] h = cc
cmp_segments_equal (l ∷ ls) (r ∷ rs) h = elim (Bool-cases (str_eq l r)) [
  | inl e ↦ ap₂ ◌∷◌ (str_eq_sound l r e) (cmp_segments_equal ls rs (rw e at h))
  | inr e ↦ cc (rw e at h)
]

cmp_segments_self : (ls : List Str) → cmp_segments ls ls ≡ some equal
unfolding cmp_segments
cmp_segments_self [] = refl
cmp_segments_self (l ∷ ls) = rw (str_eq_refl l) (cmp_segments_self ls)

-- Swapping the sides reverses the comparison.
abbrev pub reverse : Option Ordering → Option Ordering
reverse none = none
reverse (some less) = some greater
reverse (some equal) = some equal
reverse (some greater) = some less

-- `q` continues `p` after a dot.
abbrev pub Below : Permission → Permission → Type 0
Below p q = (rest : Str) × (q ≡ p ++ (dot ∷ rest))

-- A permission compares as greater than another exactly when the other one is it, followed by a
-- dot and anything.
pub partial_cmp-greater_iff : (p q : Permission) → (partial_cmp p q ≡ some greater) ↔ Below p q
unfolding partial_cmp
partial_cmp-greater_iff p q = (continued, compared)
  where
    continued : cmp_segments (iter p) (iter q) ≡ some greater → Below p q
    continued h =
        let (r, more, e) = cmp_segments_greater (iter p) (iter q) h in
        let (seg, segs, f) = iter_cons p in
        (
          join (r ∷ more),
          sym (join-iter q)
              ∙ ap join (e ∙ ap (λ t. t ++ (r ∷ more)) f)
              ∙ join-append segs seg r more
              ∙ ap (λ t. t ++ (dot ∷ join (r ∷ more))) (ap join (sym f) ∙ join-iter p),
        )

    compared : Below p q → cmp_segments (iter p) (iter q) ≡ some greater
    compared (rest, e) =
        let (seg, segs, f) = iter_cons rest in
        rw (e, iter-append p rest, f) (cmp_segments-append (iter p) seg segs)

-- Two permissions compare as equal exactly when they are the same string.
pub partial_cmp-equal_iff : (p q : Permission) → (partial_cmp p q ≡ some equal) ↔ (p ≡ q)
unfolding partial_cmp
partial_cmp-equal_iff p q = (
  λ h. sym (join-iter p) ∙ ap join (cmp_segments_equal (iter p) (iter q) h) ∙ join-iter q,
  λ e. rw e (cmp_segments_self (iter q)),
)

cmp_segments_swap : (ls rs : List Str) → cmp_segments rs ls ≡ reverse (cmp_segments ls rs)
unfolding cmp_segments
cmp_segments_swap [] [] = refl
cmp_segments_swap [] (r ∷ rs) = refl
cmp_segments_swap (l ∷ ls) [] = refl
cmp_segments_swap (l ∷ ls) (r ∷ rs) =
    rw (str_eq_comm r l)
      (elim (Bool-cases (str_eq l r)) [ inl e ↦ rw e (cmp_segments_swap ls rs) | inr e ↦ rw e ])

-- Comparing two permissions the other way round gives the reverse order, and no order where there
-- was none.
pub partial_cmp_swap : (p q : Permission) → partial_cmp q p ≡ reverse (partial_cmp p q)
unfolding partial_cmp
partial_cmp_swap p q = cmp_segments_swap (iter p) (iter q)

-- A rule grants the permission itself, what continues it after a dot, or both.
abbrev pub Grants : PermRule → Permission → Type 0
Grants (base b) q = b ≡ q
Grants (children p) q = Below p q
Grants (subtree p) q = (p ≡ q) ⊎ Below p q

-- A rule matches a permission exactly when it is the rule's own permission (base rule), continues
-- it after a dot (rule for children), or either (rule for a subtree).
pub match_perm_iff : (r : PermRule) (q : Permission) → (match_perm r q ≡ true) ↔ Grants r q
unfolding match_perm
match_perm_iff (base b) q = (str_eq_sound b q, λ e. rw e (str_eq_refl q))
match_perm_iff (children p) q = (
  λ h. (partial_cmp-greater_iff p q).0 (ground arith),
  λ b. rw ((partial_cmp-greater_iff p q).1 b),
)
match_perm_iff (subtree p) q = (
  λ h. ge_cases (partial_cmp p q) refl h,
  elim [
    | inl e ↦ rw ((partial_cmp-equal_iff p q).1 e)
    | inr b ↦ rw ((partial_cmp-greater_iff p q).1 b)
  ],
)
  where
    ge_cases : (o : Option Ordering) → partial_cmp p q ≡ o → is_ge o ≡ true → (p ≡ q) ⊎ Below p q
    ge_cases none e h = cc
    ge_cases (some less) e h = cc
    ge_cases (some equal) e h = inl ((partial_cmp-equal_iff p q).0 e)
    ge_cases (some greater) e h = inr ((partial_cmp-greater_iff p q).0 e)
