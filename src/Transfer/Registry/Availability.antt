-- ===== src/Transfer/Registry/Availability.antt =====
-- `segment_availability` of src/transfer.rs: the recent segments of the directory as a bit mask.
use qstream.Base.{
  ℕ, ◌+◌, ◌-◌, ◌^◌, ◌*◌, ◌≤◌, ◌<◌, ◌≡◌, refl, ap, ◌≢◌, subst, ◌↔◌, inl, inr, true, leb, ltb, ◌==◌,
  ◌&&◌, if◌then◌else◌, Bool-cases, Option, none, some, List, [], ◌∷◌, length, take, drop, max, Has,
  bit_or, bit_and, arith,
}
use mathlib.Core.Option
use qstream.Base.Bits.{bit, bit_and-pow, bit_bound, bit-bit_or, bit-pow_self, bit-none, bit-pow_ne}
use native.Mathlib.Nat.{one-le-pow}
use qstream.Disk.{bytes_eq}
use qstream.Protocol.Types.{SegmentAvailability, contains}

abbrev digit : ℕ → Option ℕ
digit c = if leb 0x30 c && leb c 0x39 then some (c - 0x30) else none

-- `u64::from_str` behind the sign: digits only, and nothing above 2^64 - 1.
unfoldable pub digits_u64 : ℕ → List ℕ → Option ℕ
digits_u64 n [] = some n
digits_u64 n (c ∷ cs) = elim (digit c) [
  | none ↦ none
  | some d ↦
      let rest = digits_u64 (n * 10 + d) cs in if ltb (n * 10 + d) (2 ^ 64) then rest else none
]

-- `str::parse::<u64>`: a number may carry a plus sign.
unfoldable pub parse_u64 : List ℕ → Option ℕ
parse_u64 [] = none
parse_u64 (c ∷ cs) =
    let unsigned = digits_u64 0 (c ∷ cs) in
    if c == b'+' then (elim cs [ [] ↦ none | d ∷ ds ↦ digits_u64 0 (d ∷ ds) ]) else unsigned

unfoldable pub strip_prefix : List ℕ → List ℕ → Option (List ℕ)
strip_prefix [] bs = some bs
strip_prefix (a ∷ xs) [] = none
strip_prefix (a ∷ xs) (b ∷ bs) = if a == b then strip_prefix xs bs else none

unfoldable pub strip_suffix : List ℕ → List ℕ → Option (List ℕ)
strip_suffix suffix bs =
    let n = length bs - length suffix in
    if leb (length suffix) (length bs) && bytes_eq (drop n bs) suffix
    then some (take n bs)
    else none

-- `segment_number`: "seg_", a number, ".ts".
unfoldable pub segment_number : List ℕ → Option ℕ
segment_number name = elim (strip_prefix (b's' ∷ b'e' ∷ b'g' ∷ b'_' ∷ []) name) [
  | none ↦ none
  | some rest ↦ elim (strip_suffix (b'.' ∷ b't' ∷ b's' ∷ []) rest) [
    | none ↦ none
    | some number ↦ parse_u64 number
  ]
]

-- `filter_map(segment_number)`.
unfoldable pub segment_numbers : List (List ℕ) → List ℕ
segment_numbers [] = []
segment_numbers (name ∷ names) = elim (segment_number name) [
  | none ↦ segment_numbers names
  | some n ↦ n ∷ segment_numbers names
]

-- `numbers.iter().max()`, of a list that starts with `newest`.
unfoldable pub newest_of : ℕ → List ℕ → ℕ
newest_of newest [] = newest
newest_of newest (n ∷ ns) = newest_of (max newest n) ns

-- The loop that sets the bits of the mask.
unfoldable pub mask_of : ℕ → ℕ → List ℕ → ℕ
mask_of newest mask [] = mask
mask_of newest mask (n ∷ ns) =
    let distance = newest - n in
    mask_of newest (if ltb distance 16 then bit_or mask (2 ^ distance) else mask) ns

unfoldable pub summary : List ℕ → Option SegmentAvailability
summary [] = none
summary (n ∷ ns) =
    let newest = newest_of n ns in
    some (record { newest = newest; mask = mask_of newest 0 (n ∷ ns) })

-- `segment_availability`; `none` is a directory that cannot be read.
unfoldable pub segment_availability : Option (List (List ℕ)) → Option SegmentAvailability
segment_availability none = none
segment_availability (some names) = summary (segment_numbers names)

newest_of_bound : (m : ℕ) (ns : List ℕ) → m ≤ newest_of m ns
unfolding newest_of
newest_of_bound m [] = omega arith
newest_of_bound m (n ∷ ns) = omega (arith, newest_of_bound (max m n) ns)

newest_of-Has : (m : ℕ) (ns : List ℕ) (n : ℕ) → Has ns n → n ≤ newest_of m ns
unfolding newest_of
newest_of-Has m [] n h = absurd h
newest_of-Has m (k ∷ ns) n (inl e) = omega (arith, newest_of_bound (max m k) ns)
newest_of-Has m (k ∷ ns) n (inr h) = newest_of-Has (max m k) ns n h

-- A bit of the mask is set if it was, or if a number of the list has its distance.
mask_of-kept :
    (newest mask : ℕ) (ns : List ℕ) (i : ℕ) → bit mask i ≡ 1 → bit (mask_of newest mask ns) i ≡ 1
unfolding mask_of
mask_of-kept newest mask [] i h = h
mask_of-kept newest mask (n ∷ ns) i h = elim (Bool-cases (ltb (newest - n) 16)) [
  | inl near ↦ rw near (
      mask_of-kept newest (bit_or mask (2 ^ (newest - n))) ns i
        (omega (arith, bit-bit_or mask (2 ^ (newest - n)) i, bit_bound (2 ^ (newest - n)) i)))
  | inr far ↦ rw far (mask_of-kept newest mask ns i h)
]

mask_of-set :
    (newest mask : ℕ) (ns : List ℕ) (n : ℕ)
    → Has ns n
    → newest - n < 16
    → bit (mask_of newest mask ns) (newest - n) ≡ 1
unfolding mask_of
mask_of-set newest mask [] n h lt = absurd h
mask_of-set newest mask (k ∷ ns) n (inl e) lt =
    let near : ltb (newest - k) 16 ≡ true = ground arith in
    let d : newest - k ≡ newest - n = omega arith in
    rw near (
      mask_of-kept newest (bit_or mask (2 ^ (newest - k))) ns (newest - n) (
        omega (
          arith,
          bit-bit_or mask (2 ^ (newest - k)) (newest - n),
          bit_bound mask (newest - n),
          ap (λ j. bit (2 ^ j) (newest - n)) d,
          bit-pow_self (newest - n),
        )))
mask_of-set newest mask (k ∷ ns) n (inr h) lt =
    mask_of-set newest (if ltb (newest - k) 16 then bit_or mask (2 ^ (newest - k)) else mask) ns n h
      lt

mask_of-only :
    (newest mask : ℕ) (ns : List ℕ) (n : ℕ)
    → n ≤ newest
    → bit mask (newest - n) ≡ 0
    → bit (mask_of newest mask ns) (newest - n) ≡ 1
    → ((k : ℕ) → Has ns k → k ≤ newest)
    → Has ns n
unfolding mask_of
mask_of-only newest mask [] n h clear set top = absurd (omega arith)
mask_of-only newest mask (k ∷ ns) n h clear set top = elim (Bool-cases (k == n)) [
  | inl same ↦ inl (ground arith)
  | inr other ↦
      let below = top k (inl refl) in
      let apart : (newest - k) ≢ (newest - n) = λ e. absurd (ground arith) in
      let clear' : bit (if ltb (newest - k) 16 then bit_or mask (2 ^ (newest - k)) else mask)
            (newest - n)
          ≡ 0 =
        elim (Bool-cases (ltb (newest - k) 16)) [
          | inl near ↦ rw near (
              omega (
                arith,
                bit-bit_or mask (2 ^ (newest - k)) (newest - n),
                bit-pow_ne (newest - k) (newest - n) apart,
              ))
          | inr far ↦ rw far clear
        ] in
      inr (
        mask_of-only newest (if ltb (newest - k) 16 then bit_or mask (2 ^ (newest - k)) else mask)
          ns n h clear' set (λ j q. top j (inr q)))
]

top_of : (n : ℕ) (ns : List ℕ) (k : ℕ) → Has (n ∷ ns) k → k ≤ newest_of n ns
top_of n ns k (inl e) = omega (arith, newest_of_bound n ns)
top_of n ns k (inr h) = newest_of-Has n ns k h

contains-bit :
    (a : SegmentAvailability) (n : ℕ)
    → n ≤ a.newest
    → a.newest - n < 16
    → bit a.mask (a.newest - n) ≡ 1
    → contains a n ≡ some true
unfolding contains
contains-bit a n lo hi set =
    let e : bit_and a.mask (2 ^ (a.newest - n)) ≡ 2 ^ (a.newest - n) =
      omega (arith, bit_and-pow a.mask (a.newest - n), ap (λ t. t * 2 ^ (a.newest - n)) set) in
    ground (arith, one-le-pow (a.newest - n) 2 (omega arith))

bit-contains :
    (a : SegmentAvailability) (n : ℕ)
    → contains a n ≡ some true
    → (n ≤ a.newest) × (bit a.mask (a.newest - n) ≡ 1)
unfolding contains
bit-contains a n e =
    ground (arith, bit_and-pow a.mask (a.newest - n), bit_bound a.mask (a.newest - n))

some_inj {ℓ} : {A : Type ℓ} {a b : A} → some a ≡ some b → a ≡ b
some_inj {a = a} e = ap (λ o. Option.get_or o a) e

contains_near : (a : SegmentAvailability) (n : ℕ) → contains a n ≡ some true → a.newest - n < 16
unfolding contains
contains_near a n e = ground arith

summary-contains :
    (numbers : List ℕ) (a : SegmentAvailability) (n : ℕ)
    → summary numbers ≡ some a
    → (contains a n ≡ some true) ↔ (Has numbers n × (a.newest - n < 16))
unfolding summary
summary-contains [] a n e = absurd (ground arith)
summary-contains (k ∷ ns) a n e =
    let m = newest_of k ns in
    let summed : SegmentAvailability = record { newest = m; mask = mask_of m 0 (k ∷ ns) } in
    subst (λ x. (contains x n ≡ some true) ↔ (Has (k ∷ ns) n × (x.newest - n < 16))) (some_inj e)
      (
        λ c.
            let (below, set) = bit-contains summed n c in
            (
              mask_of-only m 0 (k ∷ ns) n below (bit-none (m - n)) set (top_of k ns),
              contains_near summed n c,
            ),
        λ h. contains-bit summed n (top_of k ns n h.0) h.1 (mask_of-set m 0 (k ∷ ns) n h.0 h.1),
      )

-- The summary is exact: a segment number is contained in what a directory announces if and only if
-- a file of that number is listed and it lies less than 16 below the newest.
pub segment_availability-contains :
    (names : List (List ℕ)) (a : SegmentAvailability) (n : ℕ)
    → segment_availability (some names) ≡ some a
    → (contains a n ≡ some true) ↔ (Has (segment_numbers names) n × (a.newest - n < 16))
unfolding segment_availability
segment_availability-contains names a n e = summary-contains (segment_numbers names) a n e
