-- ===== src/Utils/Linebuffer/Contents.antt =====
-- What the operations of the buffer do to its valid bytes.
use fabaccess_server.Prelude.{
  ℕ, zero, suc, ◌+◌, ◌-◌, ◌≤◌, ◌<◌, ◌≡◌, refl, sym, ap, ◌∙◌, true, false, some, List, [], ◌∷◌, ◌++◌,
  ltb, leb, length, length-append, take, drop, take-append_length, take-append-drop, length-drop,
  Bool-cases, inl, inr, arith,
}
use fabaccess_server.Utils.Linebuffer.{
  LineBuffer, holds_valid, deref, get_mut_write, copy_to_front, consume,
}

pub length-take : (n : ℕ) (xs : List ℕ) → n ≤ length xs → length (take n xs) ≡ n
length-take zero xs h = refl
length-take (suc n) [] h = absurd (omega arith)
length-take (suc n) (x ∷ xs) h = omega (arith, length-take n xs (omega arith))

take-append : (n : ℕ) (xs ys : List ℕ) → n ≤ length xs → take n (xs ++ ys) ≡ take n xs
take-append zero xs ys h = refl
take-append (suc n) [] ys h = absurd (omega arith)
take-append (suc n) (x ∷ xs) ys h = ap (λ t. x ∷ t) (take-append n xs ys (omega arith))

take-copy_to_front :
    (amount valid : ℕ) (bytes : List ℕ)
    → valid ≤ length bytes
    → take (valid - amount) (copy_to_front amount valid bytes) ≡ drop amount (take valid bytes)
unfolding copy_to_front
take-copy_to_front amount valid bytes h =
    let kept = drop amount (take valid bytes) in
    let size : length kept ≡ valid - amount =
      omega (arith, length-drop amount (take valid bytes), length-take valid bytes h) in
    ap (λ (n : ℕ). take n (kept ++ drop (valid - amount) bytes)) (omega (arith, size))
    ∙ take-append_length kept (drop (valid - amount) bytes)

length-copy_to_front :
    (amount valid : ℕ) (bytes : List ℕ)
    → amount ≤ valid
    → valid ≤ length bytes
    → length (copy_to_front amount valid bytes) ≡ length bytes
unfolding copy_to_front
length-copy_to_front amount valid bytes h fits = omega (
  arith,
  length-append (drop amount (take valid bytes)) (drop (valid - amount) bytes),
  length-drop amount (take valid bytes),
  length-take valid bytes fits,
  length-drop (valid - amount) bytes,
)

ltb_sound : (m n : ℕ) → ltb m n ≡ true → m < n
ltb_sound m n h = ground arith

ltb-false : (m n : ℕ) → ltb m n ≡ false → n ≤ m
ltb-false m n h = ground arith

nothing_left : (xs : List ℕ) → length xs ≡ 0 → xs ≡ []
nothing_left [] h = refl
nothing_left (x ∷ xs) h = absurd (omega arith)

holds : (b : LineBuffer) → b.valid ≤ length b.buffer → holds_valid b ≡ true
holds b h = ground arith

pub deref_lem :
    (b : LineBuffer) → b.valid ≤ length b.buffer → deref b ≡ some (take b.valid b.buffer)
unfolding deref
deref_lem b h = rw (holds b h)

-- Where the valid bytes can be read, the buffer is long enough.
pub deref_fits :
    (b : LineBuffer) {content : List ℕ} → deref b ≡ some content → b.valid ≤ length b.buffer
unfolding deref
deref_fits b h = elim (Bool-cases (holds_valid b)) [
  | inl fits ↦ ground arith
  | inr short ↦ cc (rw short at h)
]

-- On a buffer that is as long as its valid bytes or longer, `consume` of no more than these does
-- not panic, takes exactly that many bytes off the front of them, and leaves the length of the
-- buffer as it was.
pub deref-consume :
    (amount : ℕ) (b : LineBuffer)
    → amount ≤ b.valid
    → b.valid ≤ length b.buffer
    → (c : LineBuffer) × (consume amount b ≡ some c)
      × (deref c ≡ some (drop amount (take b.valid b.buffer)))
      × (length c.buffer ≡ length b.buffer)
unfolding consume
deref-consume amount b h fits =
    let allowed : leb amount b.valid ≡ true = ground arith in
    elim (Bool-cases (ltb amount b.valid)) [
      | inl less ↦
          let moved = copy_to_front amount b.valid b.buffer in
          let same = length-copy_to_front amount b.valid b.buffer h fits in
          (
            record { buffer = moved; valid = b.valid - amount },
            rw (allowed, less, holds b fits),
            deref_lem (record { buffer = moved; valid = b.valid - amount }) (omega (arith, same))
                ∙ ap some (take-copy_to_front amount b.valid b.buffer fits),
            same,
          )
      | inr all ↦
          let gone : b.valid - amount ≡ 0 = ground arith in
          let size = length-drop amount (take b.valid b.buffer) in
          let kept = length-take b.valid b.buffer fits in
          (
            record { buffer = b.buffer; valid = b.valid - amount },
            rw (allowed, all),
            deref_lem (record { buffer = b.buffer; valid = b.valid - amount }) (omega arith)
                ∙ ap some (
                    ap (λ (n : ℕ). take n b.buffer) gone
                    ∙ sym (nothing_left _ (omega (arith, size, kept)))),
            refl,
          )
    ]

-- On a buffer that is as long as its valid bytes or longer, if a reserved capacity covers the
-- length and what is added, and the memory behind the buffer is as long as asked: `get_mut_write`
-- does not panic, the part that it hands out has at least the bytes asked for, the valid bytes
-- stay as they were, and the part begins right behind them and ends with the buffer.
pub deref-get_mut_write :
    (reserve : ℕ → ℕ → ℕ) (rest : ℕ → List ℕ)
    → ((len more : ℕ) → len + more ≤ reserve len more)
    → ((n : ℕ) → length (rest n) ≡ n)
    → (atleast : ℕ) (b : LineBuffer) → b.valid ≤ length b.buffer
    → (c : LineBuffer) × (part : List ℕ) × (get_mut_write reserve rest atleast b ≡ some (c, part))
      × (atleast ≤ length part)
      × (deref c ≡ deref b)
      × (take b.valid c.buffer ++ part ≡ c.buffer)
unfolding get_mut_write
deref-get_mut_write reserve rest room filled atleast b fits =
    elim (Bool-cases (ltb (length b.buffer - b.valid) atleast)) [
      | inl short ↦
          let more : ℕ = atleast - (length b.buffer - b.valid) in
          let behind = rest (reserve (length b.buffer) more - length b.buffer) in
          let size = length-append b.buffer behind in
          let grown : LineBuffer = record b { buffer = b.buffer ++ behind } in
          (
            grown,
            drop b.valid grown.buffer,
            rw (short, holds b fits),
            omega (
              arith,
              size,
              ltb_sound _ _ short,
              length-drop b.valid (b.buffer ++ behind),
              filled (reserve (length b.buffer) more - length b.buffer),
              room (length b.buffer) more,
            ),
            deref_lem grown (omega (arith, size))
                ∙ ap some (take-append b.valid b.buffer behind fits)
                ∙ sym (deref_lem b fits),
            take-append-drop b.valid (b.buffer ++ behind),
          )
      | inr long ↦ (
        b,
        drop b.valid b.buffer,
        rw (long, holds b fits),
        omega (arith, ltb-false _ _ long, length-drop b.valid b.buffer),
        refl,
        take-append-drop b.valid b.buffer,
      )
    ]
