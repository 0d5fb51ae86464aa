-- ===== src/Transfer/Table/Each.antt =====
-- Properties of all entries of a table, and how many there are.
use qstream.Base.{
  ℕ, ◌≤◌, ◌≡◌, refl, subst, false, ◌==◌, Bool-cases, inl, inr, ◌⊎◌, some, List, [], ◌∷◌, length,
  All, Has, arith,
}
use mathlib.Core.Option
use qstream.Transfer.Table.{find, remove, put, insert, remove_all}

module _ {ℓ} {A : Type ℓ} where
  pub length-remove : (id : ℕ) (xs : List (ℕ × A)) → length (remove id xs) ≤ length xs
  unfolding remove
  length-remove id [] = omega arith
  length-remove id ((k, x) ∷ xs) = ground (arith, length-remove id xs)

  pub length-remove_all :
      (ids : List ℕ) (xs : List (ℕ × A)) → length (remove_all ids xs) ≤ length xs
  unfolding remove_all
  length-remove_all [] xs = omega arith
  length-remove_all (id ∷ ids) xs =
      omega (arith, length-remove_all ids (remove id xs), length-remove id xs)

  pub length-put : (id : ℕ) (y : A) (xs : List (ℕ × A)) → length (put id y xs) ≡ length xs
  unfolding put
  length-put id y [] = refl
  length-put id y ((k, x) ∷ xs) = ground (arith, length-put id y xs)

  module _ {κ} (P : A → Type κ) where
    abbrev pub Each : List (ℕ × A) → Type κ
    Each = All (λ e. P e.1)

    pub Each-remove : (id : ℕ) (xs : List (ℕ × A)) → Each xs → Each (remove id xs)
    unfolding remove
    Each-remove id [] h = tt
    Each-remove id ((k, x) ∷ xs) (p, h) = elim (Bool-cases (k == id)) [
      | inl q ↦ rw q (Each-remove id xs h)
      | inr q ↦ rw q (p, Each-remove id xs h)
    ]

    pub Each-put : (id : ℕ) (y : A) (xs : List (ℕ × A)) → P y → Each xs → Each (put id y xs)
    unfolding put
    Each-put id y [] p h = tt
    Each-put id y ((k, x) ∷ xs) p (q, h) = elim (Bool-cases (k == id)) [
      | inl e ↦ rw e (p, h)
      | inr e ↦ rw e (q, Each-put id y xs p h)
    ]

    pub Each-find : (id : ℕ) (xs : List (ℕ × A)) (x : A) → Each xs → find id xs ≡ some x → P x
    unfolding find
    Each-find id [] x h e = absurd (ground arith)
    Each-find id ((k, y) ∷ xs) x (p, h) e = elim (Bool-cases (k == id)) [
      | inl q ↦ subst P (Option.some-injective y x (rw q at e)) p
      | inr q ↦ Each-find id xs x h (rw q at e)
    ]

module _ {ℓ κ} {A : Type ℓ} (P : A → Type κ) where
  -- An entry has the property, or its number is listed.
  abbrev pub Excepting : List ℕ → List (ℕ × A) → Type κ
  Excepting ids = All (λ e. P e.1 ⊎ Has ids e.0)

  pub Excepting-more :
      (id : ℕ) (ids : List ℕ) (xs : List (ℕ × A)) → Excepting ids xs → Excepting (id ∷ ids) xs
  Excepting-more id ids [] h = tt
  Excepting-more id ids (x ∷ xs) (inl p, h) = (inl p, Excepting-more id ids xs h)
  Excepting-more id ids (x ∷ xs) (inr q, h) = (inr (inr q), Excepting-more id ids xs h)

  not_first :
      (id : ℕ) (ids : List ℕ) (k : ℕ) (x : A)
      → (k == id) ≡ false
      → P x ⊎ Has (id ∷ ids) k
      → P x ⊎ Has ids k
  not_first id ids k x e (inl p) = inl p
  not_first id ids k x e (inr (inl q)) = absurd (ground arith)
  not_first id ids k x e (inr (inr q)) = inr q

  Excepting-remove :
      (id : ℕ) (ids : List ℕ) (xs : List (ℕ × A))
      → Excepting (id ∷ ids) xs
      → Excepting ids (remove id xs)
  unfolding remove
  Excepting-remove id ids [] h = tt
  Excepting-remove id ids ((k, x) ∷ xs) (p, h) = elim (Bool-cases (k == id)) [
    | inl q ↦ rw q (Excepting-remove id ids xs h)
    | inr q ↦ rw q (not_first id ids k x q p, Excepting-remove id ids xs h)
  ]

  Excepting-none : (xs : List (ℕ × A)) → Excepting [] xs → Each P xs
  Excepting-none [] h = tt
  Excepting-none (x ∷ xs) (inl p, h) = (p, Excepting-none xs h)
  Excepting-none (x ∷ xs) (inr q, h) = absurd q

  -- What is left when the listed entries are removed has the property.
  pub remove_all-Each :
      (ids : List ℕ) (xs : List (ℕ × A)) → Excepting ids xs → Each P (remove_all ids xs)
  unfolding remove_all
  remove_all-Each [] xs h = Excepting-none xs h
  remove_all-Each (id ∷ ids) xs h =
      remove_all-Each ids (remove id xs) (Excepting-remove id ids xs h)

-- What is put under a number that is there is found under it, and so is what is inserted.
module _ {ℓ} {A : Type ℓ} where
  pub find-insert : (id : ℕ) (x : A) (xs : List (ℕ × A)) → find id (insert id x xs) ≡ some x
  unfolding find insert
  find-insert id x xs = ground arith

  pub find-put :
      (id : ℕ) (x y : A) (xs : List (ℕ × A)) → find id xs ≡ some x → find id (put id y xs) ≡ some y
  unfolding find put
  find-put id x y [] e = absurd (ground arith)
  find-put id x y ((k, z) ∷ xs) e = elim (Bool-cases (k == id)) [
    | inl q ↦ rw (q, find, q) refl
    | inr q ↦ rw (q, find, q) (find-put id x y xs (rw q at e))
  ]
