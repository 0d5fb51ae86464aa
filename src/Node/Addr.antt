-- ===== src/Node/Addr.antt =====
-- `HashMap<SocketAddr, T>` as src/node.rs uses it: a list of entries, one for each address.
use qstream.Base.{
  Bool, true, false, ◌&&◌, ◌==◌, if◌then◌else◌, Option, none, some, List, [], ◌∷◌, ◌≡◌, refl,
  Bool-cases, inl, inr, arith,
}
use qstream.Net.{SocketAddr, v4, v6}
use qstream.Disk.{bytes_eq, bytes_eq_refl}

-- `==` of two addresses.
unfoldable pub same_addr : SocketAddr → SocketAddr → Bool
same_addr (v4 a b c d p) (v4 a' b' c' d' p') = a == a' && b == b' && c == c' && d == d' && p == p'
same_addr (v4 a b c d p) (v6 x p' f s) = false
same_addr (v6 x p f s) (v4 a b c d p') = false
same_addr (v6 x p f s) (v6 x' p' f' s') = bytes_eq x x' && p == p' && f == f' && s == s'

pub same_addr_refl : (a : SocketAddr) → same_addr a a ≡ true
unfolding same_addr
same_addr_refl (v4 a b c d p) = ground arith
same_addr_refl (v6 x p f s) = ground (arith, bytes_eq_refl x)

module _ {ℓ} {A : Type ℓ} where
  unfoldable pub lookup : SocketAddr → List (SocketAddr × A) → Option A
  lookup a [] = none
  lookup a ((k, x) ∷ xs) = let rest = lookup a xs in if same_addr k a then some x else rest

  -- `entry(a).or_insert(fresh)`, changed by `f`.
  unfoldable pub at_entry : SocketAddr → A → (A → A) → List (SocketAddr × A) → List (SocketAddr × A)
  at_entry a fresh f [] = (a, f fresh) ∷ []
  at_entry a fresh f ((k, x) ∷ xs) =
      let rest = at_entry a fresh f xs in if same_addr k a then (k, f x) ∷ xs else (k, x) ∷ rest

  -- `insert(a, x)`.
  unfoldable pub store : SocketAddr → A → List (SocketAddr × A) → List (SocketAddr × A)
  unfolding at_entry
  store a x xs = at_entry a x (λ y. x) xs

  pub lookup-store :
      (a : SocketAddr) (x : A) (xs : List (SocketAddr × A)) → lookup a (store a x xs) ≡ some x
  unfolding lookup store at_entry
  lookup-store a x [] = rw (same_addr_refl a) refl
  lookup-store a x ((k, y) ∷ xs) = elim (Bool-cases (same_addr k a)) [
    | inl q ↦ rw (q, lookup, q) refl
    | inr q ↦ rw (q, lookup, q) (lookup-store a x xs)
  ]

  unfoldable pub has_addr : SocketAddr → List (SocketAddr × A) → Bool
  has_addr a [] = false
  has_addr a ((k, x) ∷ xs) = let rest = has_addr a xs in if same_addr k a then true else rest

  -- `remove`.
  unfoldable pub drop_addr : SocketAddr → List (SocketAddr × A) → List (SocketAddr × A)
  drop_addr a [] = []
  drop_addr a ((k, x) ∷ xs) =
      let rest = drop_addr a xs in if same_addr k a then rest else (k, x) ∷ rest

  -- `get_mut(a)`, changed by `f`.
  unfoldable pub change : SocketAddr → (A → A) → List (SocketAddr × A) → List (SocketAddr × A)
  change a f [] = []
  change a f ((k, x) ∷ xs) =
      let rest = change a f xs in if same_addr k a then (k, f x) ∷ xs else (k, x) ∷ rest

  unfoldable pub keys : List (SocketAddr × A) → List SocketAddr
  keys [] = []
  keys ((k, x) ∷ xs) = k ∷ keys xs

-- `HashSet<SocketAddr>`: a list without repetition.
unfoldable pub member : SocketAddr → List SocketAddr → Bool
member a [] = false
member a (k ∷ ks) = let rest = member a ks in if same_addr k a then true else rest

unfoldable pub add : SocketAddr → List SocketAddr → List SocketAddr
unfolding member
add a ks = if member a ks then ks else a ∷ ks

unfoldable pub keep : (SocketAddr → Bool) → List SocketAddr → List SocketAddr
keep p [] = []
keep p (k ∷ ks) = let rest = keep p ks in if p k then k ∷ rest else rest

unfoldable pub any : (SocketAddr → Bool) → List SocketAddr → Bool
any p [] = false
any p (k ∷ ks) = let rest = any p ks in if p k then true else rest
