-- ===== src/Transfer/Assembly/Access.antt =====
-- Bytes of a buffer by position, for the copies that `complete` of src/transfer.rs makes.
use qstream.Base.{
  ℕ, zero, suc, ◌+◌, ◌-◌, ◌≤◌, ◌<◌, ◌≡◌, refl, ap, ap₂, ◌∙◌, List, [], ◌∷◌, ◌++◌, length, take,
  drop, length-append, length-take, length-drop, arith,
}
use qstream.Transfer.Assembly.{splice}

-- Byte `i`, and 0 out of range.
abbrev pub at : List ℕ → ℕ → ℕ
at [] i = 0
at (x ∷ xs) zero = x
at (x ∷ xs) (suc i) = at xs i

at-append_left : (xs ys : List ℕ) (i : ℕ) → i < length xs → at (xs ++ ys) i ≡ at xs i
at-append_left [] ys i h = absurd (omega arith)
at-append_left (x ∷ xs) ys zero h = refl
at-append_left (x ∷ xs) ys (suc i) h = at-append_left xs ys i (omega arith)

at-append_right : (xs ys : List ℕ) (i : ℕ) → length xs ≤ i → at (xs ++ ys) i ≡ at ys (i - length xs)
at-append_right [] ys i h = let e : i - 0 ≡ i = omega arith in rw e
at-append_right (x ∷ xs) ys zero h = absurd (omega arith)
at-append_right (x ∷ xs) ys (suc i) h =
    let e : suc i - suc (length xs) ≡ i - length xs = omega arith in
    rw e (at-append_right xs ys i (omega arith))

pub at-take : (n : ℕ) (xs : List ℕ) (i : ℕ) → i < n → at (take n xs) i ≡ at xs i
at-take zero xs i h = absurd (omega arith)
at-take (suc n) [] i h = refl
at-take (suc n) (x ∷ xs) zero h = refl
at-take (suc n) (x ∷ xs) (suc i) h = at-take n xs i (omega arith)

pub at-drop : (n : ℕ) (xs : List ℕ) (i : ℕ) → at (drop n xs) i ≡ at xs (n + i)
at-drop zero xs i = let e : 0 + i ≡ i = omega arith in rw e
at-drop (suc n) [] i = refl
at-drop (suc n) (x ∷ xs) i = let e : suc n + i ≡ suc (n + i) = omega arith in rw e (at-drop n xs i)

pub at-ext :
    (xs ys : List ℕ)
    → length xs ≡ length ys
    → ((i : ℕ) → i < length xs → at xs i ≡ at ys i)
    → xs ≡ ys
at-ext [] [] e h = refl
at-ext [] (y ∷ ys) e h = absurd (omega arith)
at-ext (x ∷ xs) [] e h = absurd (omega arith)
at-ext (x ∷ xs) (y ∷ ys) e h =
    ap₂ ◌∷◌ (h 0 (omega arith)) (at-ext xs ys (omega arith) (λ i lt. h (suc i) (omega arith)))

module _ (b : List ℕ) (pos : ℕ) (p : List ℕ) (fits : pos + length p ≤ length b) where
  length_front : length (take pos b) ≡ pos
  length_front = omega (arith, length-take pos b)

  pub length-splice : length (splice b pos p) ≡ length b
  unfolding splice
  length-splice = omega (
    arith,
    length-append (take pos b) (p ++ drop (pos + length p) b),
    length-append p (drop (pos + length p) b),
    length_front,
    length-drop (pos + length p) b,
  )

  pub at-splice_before : (i : ℕ) → i < pos → at (splice b pos p) i ≡ at b i
  unfolding splice
  at-splice_before i h =
      at-append_left (take pos b) (p ++ drop (pos + length p) b) i (omega (arith, length_front))
      ∙ at-take pos b i h

  pub at-splice_inside :
      (i : ℕ) → pos ≤ i → i < pos + length p → at (splice b pos p) i ≡ at p (i - pos)
  unfolding splice
  at-splice_inside i lo hi =
      at-append_right (take pos b) (p ++ drop (pos + length p) b) i (omega (arith, length_front))
      ∙ rw length_front (at-append_left p (drop (pos + length p) b) (i - pos) (omega arith))

  pub at-splice_after : (i : ℕ) → pos + length p ≤ i → at (splice b pos p) i ≡ at b i
  unfolding splice
  at-splice_after i h =
      at-append_right (take pos b) (p ++ drop (pos + length p) b) i (omega (arith, length_front))
      ∙ rw length_front (
          at-append_right p (drop (pos + length p) b) (i - pos) (omega arith)
          ∙ at-drop (pos + length p) b (i - pos - length p)
          ∙ ap (at b) (omega arith))
