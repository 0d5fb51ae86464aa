-- ===== src/Transfer/Table.antt =====
-- `HashMap<u16, T>` as the registry of src/transfer.rs uses it: a list of entries, one for each key.
pub mod Each
use qstream.Base.{ℕ, Bool, true, false, ◌==◌, if◌then◌else◌, Option, none, some, List, [], ◌∷◌}

module _ {ℓ} {A : Type ℓ} where
  -- `get` and `get_mut`.
  unfoldable pub find : ℕ → List (ℕ × A) → Option A
  find id [] = none
  find id ((k, x) ∷ xs) = if k == id then some x else find id xs

  unfoldable pub has_key : ℕ → List (ℕ × A) → Bool
  has_key id [] = false
  has_key id ((k, x) ∷ xs) = if k == id then true else has_key id xs

  unfoldable pub remove : ℕ → List (ℕ × A) → List (ℕ × A)
  remove id [] = []
  remove id ((k, x) ∷ xs) = let rest = remove id xs in if k == id then rest else (k, x) ∷ rest

  unfoldable pub insert : ℕ → A → List (ℕ × A) → List (ℕ × A)
  unfolding remove
  insert id x xs = (id, x) ∷ remove id xs

  -- A write through `get_mut`.
  unfoldable pub put : ℕ → A → List (ℕ × A) → List (ℕ × A)
  put id y [] = []
  put id y ((k, x) ∷ xs) = let rest = put id y xs in if k == id then (k, y) ∷ xs else (k, x) ∷ rest

  unfoldable pub remove_all : List ℕ → List (ℕ × A) → List (ℕ × A)
  remove_all [] xs = xs
  remove_all (id ∷ ids) xs = remove_all ids (remove id xs)
