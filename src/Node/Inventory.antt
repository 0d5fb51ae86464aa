-- ===== src/Node/Inventory.antt =====
-- What a node of src/node.rs knows of its peers' segments.
use qstream.Base.{
  ℕ, zero, suc, ◌+◌, ◌-◌, ◌^◌, ◌≤◌, ◌<◌, ◌≡◌, refl, sym, ◌∙◌, ap, inl, inr, Bool, true, false, ltb,
  ◌==◌, ◌&&◌, if◌then◌else◌, Bool-cases, Option, none, some, List, [], ◌∷◌, bit_and, arith,
}
use qstream.Net.{SocketAddr}
use qstream.Clock.{secs, duration_since}
use qstream.Protocol.Types.{SegmentAvailability, contains}
use qstream.Transfer.Registry.Availability.{segment_number}
use qstream.Node.Addr.{same_addr, same_addr_refl, lookup, store, lookup-store}

-- `availability`: with the time it was told; `missing_segments`: with the time that an entry expires.
pub record Knowledge : Type 0 where
  pub availability : List (SocketAddr × (SegmentAvailability × ℕ))
  pub missing_segments : List ((SocketAddr × ℕ) × ℕ)

-- `missing_segments.get`, `remove` and `insert`.
unfoldable pub missing_until : SocketAddr → ℕ → List ((SocketAddr × ℕ) × ℕ) → Option ℕ
missing_until a n [] = none
missing_until a n (((k, m), t) ∷ xs) =
    let rest = missing_until a n xs in if same_addr k a && m == n then some t else rest

unfoldable pub forget : SocketAddr → ℕ → List ((SocketAddr × ℕ) × ℕ) → List ((SocketAddr × ℕ) × ℕ)
forget a n [] = []
forget a n (((k, m), t) ∷ xs) =
    let rest = forget a n xs in if same_addr k a && m == n then rest else ((k, m), t) ∷ rest

-- The loop of `record_availability`: what the mask has is no longer missing.
unfoldable pub found :
    SocketAddr → SegmentAvailability → ℕ → List ((SocketAddr × ℕ) × ℕ) → List ((SocketAddr × ℕ) × ℕ)
found a v zero xs = xs
found a v (suc number) xs =
    let before = found a v number xs in
    if bit_and v.mask (2 ^ number) == 0 then before else forget a (v.newest - number) before

-- `record_availability`.
unfoldable pub record_availability : Knowledge → SocketAddr → SegmentAvailability → ℕ → Knowledge
record_availability k peer v now = record {
  availability = store peer (v, now) k.availability;
  missing_segments = found peer v 16 k.missing_segments;
}

-- `MISSING_TTL` and `AVAILABILITY_TTL`.
abbrev pub missing_ttl : ℕ
missing_ttl = secs 15

abbrev pub availability_ttl : ℕ
availability_ttl = secs 15

-- `record_missing`.
unfoldable pub record_missing : Knowledge → SocketAddr → List ℕ → ℕ → Knowledge
record_missing k peer filename now = elim (segment_number filename) [
  | none ↦ k
  | some number ↦ record k {
    missing_segments = ((peer, number), now + missing_ttl) ∷ forget peer number k.missing_segments;
  }
]

-- The inventory's answer, unless it is too old.
unfoldable pub inventory_answer : Option (SegmentAvailability × ℕ) → ℕ → ℕ → Option Bool
inventory_answer none number now = none
inventory_answer (some (v, observed_at)) number now =
    if ltb availability_ttl (duration_since now observed_at) then none else contains v number

unfoldable pub still_missing : Option ℕ → ℕ → Bool
still_missing none now = false
still_missing (some expires_at) now = ltb now expires_at

-- `peer_availability`, of a segment number.
unfoldable pub number_availability : Knowledge → SocketAddr → ℕ → ℕ → Option Bool
number_availability k peer number now =
    if still_missing (missing_until peer number k.missing_segments) now
    then some false
    else inventory_answer (lookup peer k.availability) number now

-- `peer_availability`.
unfoldable pub peer_availability : Knowledge → SocketAddr → List ℕ → ℕ → Option Bool
peer_availability k peer filename now = elim (segment_number filename) [
  | none ↦ none
  | some number ↦ number_availability k peer number now
]

-- `answer != Some(false)`.
unfoldable pub may_have : Option Bool → Bool
may_have none = true
may_have (some answer) = answer

-- `peer_may_have`.
unfoldable pub peer_may_have : Knowledge → SocketAddr → List ℕ → ℕ → Bool
unfolding may_have
peer_may_have k peer filename now = may_have (peer_availability k peer filename now)

forget-kept :
    (a b : SocketAddr) (n m : ℕ) (xs : List ((SocketAddr × ℕ) × ℕ))
    → missing_until a n xs ≡ none
    → missing_until a n (forget b m xs) ≡ none
unfolding missing_until forget
forget-kept a b n m [] e = refl
forget-kept a b n m (((k, j), t) ∷ xs) e = elim (Bool-cases (same_addr k a && j == n)) [
  | inl q ↦ absurd (let f = rw q at e in ground arith)
  | inr q ↦ elim (Bool-cases (same_addr k b && j == m)) [
    | inl p ↦ rw p (forget-kept a b n m xs (rw q at e))
    | inr p ↦ rw (p, missing_until, q) (forget-kept a b n m xs (rw q at e))
  ]
]

forget-gone :
    (a : SocketAddr) (n : ℕ) (xs : List ((SocketAddr × ℕ) × ℕ))
    → missing_until a n (forget a n xs) ≡ none
unfolding missing_until forget
forget-gone a n [] = refl
forget-gone a n (((k, j), t) ∷ xs) = elim (Bool-cases (same_addr k a && j == n)) [
  | inl q ↦ rw q (forget-gone a n xs)
  | inr q ↦ rw (q, missing_until, q) (forget-gone a n xs)
]

-- A bit of the mask below `rounds` clears the mark of its segment.
found-gone :
    (a : SocketAddr) (v : SegmentAvailability) (rounds i : ℕ) (xs : List ((SocketAddr × ℕ) × ℕ))
    → i < rounds
    → (bit_and v.mask (2 ^ i) == 0) ≡ false
    → missing_until a (v.newest - i) (found a v rounds xs) ≡ none
unfolding found
found-gone a v zero i xs lt set = absurd (omega arith)
found-gone a v (suc r) i xs lt set = elim (Bool-cases (r == i)) [
  | inl same ↦
      let e : r ≡ i = ground arith in rw (e, set) (forget-gone a (v.newest - i) (found a v i xs))
  | inr other ↦
      let ih = found-gone a v r i xs (ground arith) set in
      elim (Bool-cases (bit_and v.mask (2 ^ r) == 0)) [
        | inl clear ↦ rw clear ih
        | inr also ↦ rw also (forget-kept a a (v.newest - i) (v.newest - r) (found a v r xs) ih)
      ]
]

contains-inside :
    (v : SegmentAvailability) (n : ℕ)
    → contains v n ≡ some true
    → (n ≤ v.newest) × (v.newest - n < 16) × ((bit_and v.mask (2 ^ (v.newest - n)) == 0) ≡ false)
unfolding contains
contains-inside v n e = ground arith

peer_number :
    (k : Knowledge) (peer : SocketAddr) (filename : List ℕ) (n now : ℕ)
    → segment_number filename ≡ some n
    → peer_availability k peer filename now ≡ number_availability k peer n now
unfolding peer_availability
peer_number k peer filename n now e = rw (e, peer_availability) refl

in_time :
    (v : SegmentAvailability) (n now later : ℕ)
    → contains v n ≡ some true
    → later ≤ now + 15000000000
    → inventory_answer (some (v, now)) n later ≡ some true
unfolding inventory_answer
in_time v n now later has soon =
    let q : ltb 15000000000 (later - now) ≡ false = ground arith in rw q has

-- An inventory that has a segment is believed for 15 seconds, whatever was known before: the peer
-- may have it, also where it had answered that it has not.
pub record_availability-has :
    (k : Knowledge) (peer : SocketAddr) (v : SegmentAvailability) (filename : List ℕ)
    (n now later : ℕ)
    → segment_number filename ≡ some n
    → contains v n ≡ some true
    → later ≤ now + 15000000000
    → peer_availability (record_availability k peer v now) peer filename later ≡ some true
unfolding peer_availability number_availability still_missing inventory_answer record_availability
record_availability-has k peer v filename n now later e has soon =
    let (lo, near, set) = contains-inside v n has in
    let m : v.newest - (v.newest - n) ≡ n = omega arith in
    let gone : missing_until peer n (found peer v 16 k.missing_segments) ≡ none =
      ap (λ j. missing_until peer j (found peer v 16 k.missing_segments)) (sym m)
      ∙ found-gone peer v 16 (v.newest - n) k.missing_segments near set in
    peer_number (record_availability k peer v now) peer filename n later e
    ∙ rw (gone, lookup-store peer (v, now) k.availability) (in_time v n now later has soon)

recorded :
    (k : Knowledge) (peer : SocketAddr) (filename : List ℕ) (n now : ℕ)
    → segment_number filename ≡ some n
    → record_missing k peer filename now ≡ record k {
      missing_segments = ((peer, n), now + missing_ttl) ∷ forget peer n k.missing_segments;
    }
unfolding record_missing
recorded k peer filename n now e = rw (e, record_missing) refl

-- A NOT_FOUND of a peer is believed for 15 seconds, and no longer, whatever inventory it has told.
pub record_missing-lacks :
    (k : Knowledge) (peer : SocketAddr) (filename : List ℕ) (n now later : ℕ)
    → segment_number filename ≡ some n
    → peer_may_have (record_missing k peer filename now) peer filename later ≡ (
        if ltb later (now + 15000000000)
        then false
        else may_have (inventory_answer (lookup peer k.availability) n later))
unfolding peer_may_have peer_availability number_availability still_missing record_missing
    missing_until may_have
record_missing-lacks k peer filename n now later e =
    let after : Knowledge = record k {
      missing_segments = ((peer, n), now + missing_ttl) ∷ forget peer n k.missing_segments;
    } in
    let same : (same_addr peer peer && n == n) ≡ true = ground (arith, same_addr_refl peer) in
    ap (λ x. may_have (peer_availability x peer filename later)) (recorded k peer filename n now e)
    ∙ ap may_have (peer_number after peer filename n later e)
    ∙ rw same (elim (Bool-cases (ltb later (now + missing_ttl))) [
      | inl q ↦ rw q refl
      | inr q ↦ rw q refl
    ])
