-- ===== src/Node/Among.antt =====
-- The addresses of a list, as src/node.rs and src/peer.rs search and filter it.
use qstream.Base.{◌≡◌, refl, ap, ◌∙◌, ◌⊎◌, inl, inr, Bool, true, Bool-cases, List, [], ◌∷◌, arith}
use qstream.Net.{SocketAddr, v4, v6}
use qstream.Names.{bytes_eq-eq}
use qstream.Node.Addr.{same_addr, member, keep, any}

-- The address is in the list.
abbrev pub Among : List SocketAddr → SocketAddr → Type 0
Among [] a = ⊥
Among (k ∷ ks) a = (k ≡ a) ⊎ Among ks a

pub any-Among :
    (p : SocketAddr → Bool) (ks : List SocketAddr)
    → any p ks ≡ true
    → (a : SocketAddr) × Among ks a × (p a ≡ true)
unfolding any
any-Among p [] e = absurd (ground arith)
any-Among p (k ∷ ks) e = elim (Bool-cases (p k)) [
  | inl q ↦ (k, inl refl, q)
  | inr q ↦ let (a, h, r) = any-Among p ks (rw q at e) in (a, inr h, r)
]

pub same_addr_eq : (a b : SocketAddr) → same_addr a b ≡ true → a ≡ b
unfolding same_addr
same_addr_eq (v4 a b c d p) (v4 a' b' c' d' p') e = ground arith
same_addr_eq (v4 a b c d p) (v6 x p' f s) e = cc
same_addr_eq (v6 x p f s) (v4 a b c d p') e = cc
same_addr_eq (v6 x p f s) (v6 x' p' f' s') e = ground (arith, bytes_eq-eq x x')

pub member-Among : (a : SocketAddr) (ks : List SocketAddr) → member a ks ≡ true → Among ks a
unfolding member
member-Among a [] e = absurd (cc)
member-Among a (k ∷ ks) e = elim (Bool-cases (same_addr k a)) [
  | inl q ↦ inl (same_addr_eq k a q)
  | inr q ↦ inr (member-Among a ks (rw q at e))
]

kept :
    (p : SocketAddr → Bool) (x a : SocketAddr) (xs : List SocketAddr) {K : Type 0}
    → p a ≡ true
    → (K → Among xs x × (p x ≡ true))
    → (a ≡ x) ⊎ K
    → ((a ≡ x) ⊎ Among xs x) × (p x ≡ true)
kept p x a xs e rest (inl q) = (inl q, rw (← q) e)
kept p x a xs e rest (inr k) = let (m, q) = rest k in (inr m, q)

pub Among-keep :
    (p : SocketAddr → Bool) (x : SocketAddr) (xs : List SocketAddr)
    → Among (keep p xs) x
    → Among xs x × (p x ≡ true)
unfolding keep
Among-keep p x [] h = absurd h
Among-keep p x (a ∷ xs) h = elim (Bool-cases (p a)) [
  | inl e ↦ kept p x a xs e (Among-keep p x xs) (rw e at h)
  | inr e ↦ let (m, q) = Among-keep p x xs (rw e at h) in (inr m, q)
]

pub keep-Among :
    (p : SocketAddr → Bool) (x : SocketAddr) (xs : List SocketAddr)
    → Among xs x
    → p x ≡ true
    → Among (keep p xs) x
unfolding keep
keep-Among p x [] h e = absurd h
keep-Among p x (a ∷ xs) (inl q) e = let t : p a ≡ true = ap p q ∙ e in rw t (inl q)
keep-Among p x (a ∷ xs) (inr h) e = elim (Bool-cases (p a)) [
  | inl y ↦ rw y (inr (keep-Among p x xs h e))
  | inr y ↦ rw y (keep-Among p x xs h e)
]
