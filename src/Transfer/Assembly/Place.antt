-- ===== src/Transfer/Assembly/Place.antt =====
-- `complete` of src/transfer.rs puts a file together again from its packets.
use qstream.Base.{
  ℕ, ◌+◌, ◌-◌, ◌*◌, ◌/◌, ◌≤◌, ◌<◌, ◌≡◌, refl, ap, ◌∙◌, true, le→leb, ltb, ltb→lt, ◌==◌, ==_iff,
  Bool-cases, inl, inr, ◌⊎◌, if◌then◌else◌, List, [], ◌∷◌, length, drop, replicate, length-take,
  length-drop, length-replicate, min, arith,
}
use qstream.Transfer.Packets.{packet_count}
use qstream.Transfer.Sender.Safety.{piece}
use qstream.Transfer.Assembly.{contains_key, place, place_all, assemble}
use qstream.Transfer.Assembly.Access.{
  at, at-take, at-drop, at-ext, length-splice, at-splice_before, at-splice_inside, at-splice_after,
}
use qstream.Transfer.Assembly.Keys.{AreKeys, AreKeys-full}

-- Every packet carries its part of `file`.
abbrev pub ArePieces : List ℕ → List (ℕ × List ℕ) → Type 0
ArePieces file [] = Unit
ArePieces file ((k, v) ∷ ps) = (v ≡ piece file k) × ArePieces file ps

length-piece :
    (file : List ℕ) (k : ℕ) → length (piece file k) ≡ min 1400 (length file - (k - 1) * 1400)
length-piece file k = omega (
  arith,
  length-take (min ((k - 1) * 1400 + 1400) (length file) - (k - 1) * 1400)
      (drop ((k - 1) * 1400) file),
  length-drop ((k - 1) * 1400) file,
)

at-piece :
    (file : List ℕ) (k i : ℕ)
    → (k - 1) * 1400 ≤ i
    → i < (k - 1) * 1400 + 1400
    → i < length file
    → at (piece file k) (i - (k - 1) * 1400) ≡ at file i
at-piece file k i lo hi lt =
    at-take _ (drop ((k - 1) * 1400) file) (i - (k - 1) * 1400) (omega arith)
    ∙ at-drop ((k - 1) * 1400) file (i - (k - 1) * 1400)
    ∙ ap (at file) (omega arith)

module _ (file : List ℕ) (total : ℕ) (room : length file ≤ total * 1400) where
  fits : (k : ℕ) → 1 ≤ k → k ≤ total → (k - 1) * 1400 + length (piece file k) ≤ total * 1400
  fits k lo hi = omega (arith, length-piece file k)

  -- One packet: its bytes are in place, the others as before.
  placed :
      (k : ℕ) (b : List ℕ) (size i : ℕ)
      → 1 ≤ k
      → k ≤ total
      → length b ≡ total * 1400
      → i < length file
      → let b' = (place total (k, piece file k) (b, size)).0 in
        (length b' ≡ total * 1400)
        × ((k ≡ i / 1400 + 1) → at b' i ≡ at file i)
        × ((at b i ≡ at file i) → at b' i ≡ at file i)
  unfolding place
  placed k b size i lo hi e lt =
      let p = (k - 1) * 1400 in
      let f : p + length (piece file k) ≤ length b = omega (arith, fits k lo hi, e) in
      let n = length-piece file k in
      rw (le→leb (p + length (piece file k)) (length b) f) (
        length-splice b p (piece file k) f ∙ e,
        λ same.
            at-splice_inside b p (piece file k) f i (omega arith) (omega (arith, n))
            ∙ at-piece file k i (omega arith) (omega arith) lt,
        λ old. elim (Bool-cases (ltb i p)) [
          | inl before ↦ at-splice_before b p (piece file k) f i (ltb→lt i p before) ∙ old
          | inr from ↦ elim (Bool-cases (ltb i (p + length (piece file k)))) [
            | inr after ↦ at-splice_after b p (piece file k) f i (ground arith) ∙ old
            | inl inside ↦
                at-splice_inside b p (piece file k) f i (ground arith) (ltb→lt _ _ inside)
                ∙ at-piece file k i (ground arith) (ground (arith, n)) lt
          ]
        ],
      )

  placed_all :
      (ps : List (ℕ × List ℕ)) (b : List ℕ) (size i : ℕ)
      → AreKeys total ps
      → ArePieces file ps
      → length b ≡ total * 1400
      → i < length file
      → (at b i ≡ at file i) ⊎ (contains_key (i / 1400 + 1) ps ≡ true)
      → (length (place_all total ps (b, size)).0 ≡ total * 1400)
        × (at (place_all total ps (b, size)).0 i ≡ at file i)
  unfolding place_all contains_key
  placed_all [] b size i h g e lt (inl old) = (e, old)
  placed_all [] b size i h g e lt (inr new) = cc
  placed_all ((k, v) ∷ ps) b size i (lo, hi, new, h) (same, g) e lt c =
      let (e', here, old) = placed k b size i lo hi e lt in
      let next = place total (k, piece file k) (b, size) in
      rw same (
        placed_all ps next.0 next.1 i h g e' lt (elim c [
          | inl q ↦ inl (old q)
          | inr q ↦ elim (Bool-cases (k == (i / 1400 + 1))) [
            | inl eq ↦ inl (here ((==_iff k (i / 1400 + 1)).0 eq))
            | inr other ↦ inr (ground (arith, q))
          ]
        ]))

  placed_length :
      (k : ℕ) (b : List ℕ) (size : ℕ)
      → 1 ≤ k
      → k ≤ total
      → length b ≡ total * 1400
      → length (place total (k, piece file k) (b, size)).0 ≡ total * 1400
  unfolding place
  placed_length k b size lo hi e =
      let p = (k - 1) * 1400 in
      let f : p + length (piece file k) ≤ length b = omega (arith, fits k lo hi, e) in
      rw (le→leb (p + length (piece file k)) (length b) f) (length-splice b p (piece file k) f ∙ e)

  place_size :
      (k : ℕ) (b : List ℕ) (size : ℕ)
      → (place total (k, piece file k) (b, size)).1
        ≡ (if k == total then (k - 1) * 1400 + length (piece file k) else size)
  unfolding place
  place_size k b size = refl

  placed_size :
      (ps : List (ℕ × List ℕ)) (b : List ℕ) (size : ℕ)
      → AreKeys total ps
      → ArePieces file ps
      → length b ≡ total * 1400
      → 1 ≤ total
      → (total - 1) * 1400 ≤ length file
      → (size ≡ length file) ⊎ (contains_key total ps ≡ true)
      → (length (place_all total ps (b, size)).0 ≡ total * 1400)
        × ((place_all total ps (b, size)).1 ≡ length file)
  unfolding place_all contains_key
  placed_size [] b size h g e pos last (inl old) = (e, old)
  placed_size [] b size h g e pos last (inr new) = cc
  placed_size ((k, v) ∷ ps) b size (lo, hi, new, h) (same, g) e pos last c =
      let next = place total (k, piece file k) (b, size) in
      rw same (
        placed_size ps next.0 next.1 h g (placed_length k b size lo hi e) pos last
          (elim (Bool-cases (k == total)) [
            | inl eq ↦ inl (place_size k b size ∙ rw eq (ground (arith, length-piece file k)))
            | inr other ↦ elim c [
              | inl q ↦ inl (place_size k b size ∙ rw other q)
              | inr q ↦ inr (ground (arith, q))
            ]
          ]))

-- A map that holds, for each number from 1 to the packet count of `file`, once and in any order, the
-- part of `file` with that number is put together to `file`, if it has at most 65,535 packets.
pub assemble-pieces :
    (file : List ℕ) (ps : List (ℕ × List ℕ))
    → length file ≤ 65535 * 1400
    → AreKeys (packet_count (length file)) ps
    → packet_count (length file) ≤ length ps
    → ArePieces file ps
    → assemble (packet_count (length file)) ps ≡ file
unfolding assemble packet_count
assemble-pieces file ps small h full g =
    let total = packet_count (length file) in
    let b : List ℕ = replicate (total * 1400) 0 in
    let e : length b ≡ total * 1400 = length-replicate (total * 1400) 0 in
    let room : length file ≤ total * 1400 = omega arith in
    let has = λ (k : ℕ) (lo : 1 ≤ k) (hi : k ≤ total). AreKeys-full total k ps h full lo hi in
    let (len, size) =
      placed_size file total room ps b 0 h g e (omega arith) (omega arith)
        (inr (has total (omega arith) (omega arith))) in
    let out = (place_all total ps (b, 0)).0 in
    let cut : min (place_all total ps (b, 0)).1 (length out) ≡ length file =
      omega (arith, size, len, room) in
    at-ext _ file (length-take _ out ∙ omega (arith, cut, len, room)) (λ i lt.
      let inside : i < length file = omega (arith, lt, length-take _ out, cut) in
      at-take _ out i (omega (arith, cut, inside))
      ∙ (placed_all file total room ps b 0 i h g e inside
          (inr (has (i / 1400 + 1) (omega arith) (omega arith)))).1)
