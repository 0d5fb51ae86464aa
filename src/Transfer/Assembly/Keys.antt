-- ===== src/Transfer/Assembly/Keys.antt =====
-- The packet numbers held in the map of src/transfer.rs: `total` different ones are all of them.
use qstream.Base.{
  ℕ, zero, suc, ◌+◌, ◌≤◌, ◌<◌, ◌≡◌, refl, subst, true, false, ◌==◌, ==_iff, Bool-cases, inl, inr,
  if◌then◌else◌, List, [], ◌∷◌, length, arith,
}
use qstream.Net.{as_u16}
use qstream.Transfer.Assembly.{contains_key, all_received}

-- Every key is a packet number, and no key occurs twice.
abbrev pub AreKeys : ℕ → List (ℕ × List ℕ) → Type 0
AreKeys total [] = Unit
AreKeys total ((k, v) ∷ ps) = (1 ≤ k) × (k ≤ total) × (contains_key k ps ≡ false) × AreKeys total ps

-- How many of 1 to `n` are keys.
keys_below : ℕ → List (ℕ × List ℕ) → ℕ
keys_below zero ps = 0
keys_below (suc n) ps = keys_below n ps + (if contains_key (suc n) ps then 1 else 0)

keys_below-le : (n : ℕ) (ps : List (ℕ × List ℕ)) → keys_below n ps ≤ n
unfolding keys_below
keys_below-le zero ps = omega arith
keys_below-le (suc n) ps = ground (arith, keys_below-le n ps)

keys_below-nil : (n : ℕ) → keys_below n [] ≡ 0
unfolding keys_below contains_key
keys_below-nil zero = refl
keys_below-nil (suc n) = omega (arith, keys_below-nil n)

-- A new key counts once, if it lies in the range.
keys_below-cons_above :
    (n k : ℕ) (v : List ℕ) (ps : List (ℕ × List ℕ))
    → n < k
    → keys_below n ((k, v) ∷ ps) ≡ keys_below n ps
unfolding keys_below contains_key
keys_below-cons_above zero k v ps h = refl
keys_below-cons_above (suc n) k v ps h =
    ground (arith, keys_below-cons_above n k v ps (omega arith))

keys_below-cons :
    (n k : ℕ) (v : List ℕ) (ps : List (ℕ × List ℕ))
    → 1 ≤ k
    → k ≤ n
    → contains_key k ps ≡ false
    → keys_below n ((k, v) ∷ ps) ≡ keys_below n ps + 1
unfolding keys_below contains_key
keys_below-cons zero k v ps lo hi new = absurd (omega arith)
keys_below-cons (suc n) k v ps lo hi new = elim (Bool-cases (k == suc n)) [
  | inl same ↦
      let e : k ≡ suc n = (==_iff k (suc n)).0 same in
      let no : contains_key (suc n) ps ≡ false = subst (λ x. contains_key x ps ≡ false) e new in
      rw (same, no) (omega (arith, keys_below-cons_above n k v ps (omega arith)))
  | inr other ↦ rw other (ground (arith, keys_below-cons n k v ps lo))
]

length-le-keys_below : (n : ℕ) (ps : List (ℕ × List ℕ)) → AreKeys n ps → length ps ≡ keys_below n ps
length-le-keys_below n [] h = omega (arith, keys_below-nil n)
length-le-keys_below n ((k, v) ∷ ps) (lo, hi, new, h) =
    omega (arith, length-le-keys_below n ps h, keys_below-cons n k v ps lo hi new)

full_contains :
    (n k : ℕ) (ps : List (ℕ × List ℕ))
    → n ≤ keys_below n ps
    → 1 ≤ k
    → k ≤ n
    → contains_key k ps ≡ true
unfolding keys_below
full_contains zero k ps f lo hi = absurd (omega arith)
full_contains (suc n) k ps f lo hi = elim (Bool-cases (k == suc n)) [
  | inl same ↦
      let e : suc n ≡ k = omega (arith, (==_iff k (suc n)).0 same) in
      let last : contains_key (suc n) ps ≡ true = ground (arith, keys_below-le n ps) in
      subst (λ x. contains_key x ps ≡ true) e last
  | inr other ↦ full_contains n k ps (ground (arith, keys_below-le n ps)) lo (ground arith)
]

-- A map of `total` or more packets, with different numbers from 1 to `total`, has every number.
pub AreKeys-full :
    (total k : ℕ) (ps : List (ℕ × List ℕ))
    → AreKeys total ps
    → total ≤ length ps
    → 1 ≤ k
    → k ≤ total
    → contains_key k ps ≡ true
AreKeys-full total k ps h full lo hi =
    full_contains total k ps (omega (arith, length-le-keys_below total ps h)) lo hi

pub length-AreKeys : (total : ℕ) (ps : List (ℕ × List ℕ)) → AreKeys total ps → length ps ≤ total
length-AreKeys total ps h = omega (arith, length-le-keys_below total ps h, keys_below-le total ps)

keys_below-all :
    (n : ℕ) (ps : List (ℕ × List ℕ))
    → ((k : ℕ) → 1 ≤ k → k ≤ n → contains_key k ps ≡ true)
    → keys_below n ps ≡ n
unfolding keys_below
keys_below-all zero ps all = refl
keys_below-all (suc n) ps all =
    rw (all (suc n) (omega arith) (omega arith))
      (omega (arith, keys_below-all n ps (λ k lo hi. all k lo (omega arith))))

-- A map that has every number from 1 to `total` holds at least `total` packets.
pub AreKeys-all :
    (total : ℕ) (ps : List (ℕ × List ℕ))
    → AreKeys total ps
    → ((k : ℕ) → 1 ≤ k → k ≤ total → contains_key k ps ≡ true)
    → total ≤ length ps
AreKeys-all total ps h all =
    omega (arith, length-le-keys_below total ps h, keys_below-all total ps all)

pub AreKeys-mono : (m n : ℕ) (ps : List (ℕ × List ℕ)) → m ≤ n → AreKeys m ps → AreKeys n ps
AreKeys-mono m n [] le h = tt
AreKeys-mono m n ((k, v) ∷ ps) le (lo, hi, new, h) =
    (lo, omega arith, new, AreKeys-mono m n ps le h)

-- A range that is complete has each of its packets.
pub all_received-contains :
    (ps : List (ℕ × List ℕ)) (start count k : ℕ)
    → all_received ps start count ≡ true
    → start + count ≤ 65536
    → start ≤ k
    → k < start + count
    → contains_key k ps ≡ true
unfolding all_received
all_received-contains ps start zero k e max lo hi = absurd (omega arith)
all_received-contains ps start (suc count) k e max lo hi = elim (Bool-cases (k == start)) [
  | inl same ↦
      let q : as_u16 start ≡ k = omega (arith, (==_iff k start).0 same) in
      subst (λ x. contains_key x ps ≡ true) q (ground arith)
  | inr other ↦
      all_received-contains ps (start + 1) count k (ground arith) (omega arith) (ground arith)
        (omega arith)
]

pub contains-cons :
    (k j : ℕ) (v : List ℕ) (ps : List (ℕ × List ℕ))
    → contains_key k ps ≡ true
    → contains_key k ((j, v) ∷ ps) ≡ true
unfolding contains_key
contains-cons k j v ps h = ground arith
