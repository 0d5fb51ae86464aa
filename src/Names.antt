-- ===== src/Names.antt =====
-- `HashMap<String, T>` and `HashSet<String>`: lists of entries, one for each name.
use qstream.Base.{
  ℕ, Bool, true, false, if◌then◌else◌, Option, none, some, List, [], ◌∷◌, ◌≡◌, refl, Bool-cases,
  inl, inr, arith,
}
use qstream.Disk.{bytes_eq, bytes_eq_refl}

pub bytes_eq-eq : (a b : List ℕ) → bytes_eq a b ≡ true → a ≡ b
bytes_eq-eq [] [] e = refl
bytes_eq-eq [] (b ∷ bs) e = absurd (ground arith)
bytes_eq-eq (a ∷ xs) [] e = absurd (ground arith)
bytes_eq-eq (a ∷ xs) (b ∷ bs) e = ground (arith, bytes_eq-eq xs bs)

module _ {ℓ} {A : Type ℓ} where
  unfoldable pub find_name : List ℕ → List (List ℕ × A) → Option A
  find_name n [] = none
  find_name n ((k, x) ∷ xs) = let rest = find_name n xs in if bytes_eq k n then some x else rest

  -- `insert`.
  unfoldable pub put_name : List ℕ → A → List (List ℕ × A) → List (List ℕ × A)
  put_name n x [] = (n, x) ∷ []
  put_name n x ((k, y) ∷ xs) =
      let rest = put_name n x xs in if bytes_eq k n then (k, x) ∷ xs else (k, y) ∷ rest

  -- `remove`.
  unfoldable pub drop_name : List ℕ → List (List ℕ × A) → List (List ℕ × A)
  drop_name n [] = []
  drop_name n ((k, y) ∷ xs) =
      let rest = drop_name n xs in if bytes_eq k n then rest else (k, y) ∷ rest

  pub find_name-put_name :
      (n : List ℕ) (x : A) (xs : List (List ℕ × A)) → find_name n (put_name n x xs) ≡ some x
  unfolding find_name put_name
  find_name-put_name n x [] = rw (bytes_eq_refl n) refl
  find_name-put_name n x ((k, y) ∷ xs) = elim (Bool-cases (bytes_eq k n)) [
    | inl q ↦ rw (q, find_name, q) refl
    | inr q ↦ rw (q, find_name, q) (find_name-put_name n x xs)
  ]

-- A set of names.
unfoldable pub has_name : List ℕ → List (List ℕ) → Bool
has_name n [] = false
has_name n (k ∷ ks) = let rest = has_name n ks in if bytes_eq k n then true else rest

unfoldable pub add_name : List ℕ → List (List ℕ) → List (List ℕ)
unfolding has_name
add_name n ks = if has_name n ks then ks else n ∷ ks

unfoldable pub remove_name : List ℕ → List (List ℕ) → List (List ℕ)
remove_name n [] = []
remove_name n (k ∷ ks) = let rest = remove_name n ks in if bytes_eq k n then rest else k ∷ rest

-- `retain(|name| kept.contains(name))`.
unfoldable pub only_names : List (List ℕ) → List (List ℕ) → List (List ℕ)
unfolding has_name
only_names kept [] = []
only_names kept (k ∷ ks) =
    let rest = only_names kept ks in if has_name k kept then k ∷ rest else rest
