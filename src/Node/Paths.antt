-- ===== src/Node/Paths.antt =====
-- `PathState`, `record_pong`, `path_fresh` and `is_lan_path` of src/node.rs.
use qstream.Base.{
  ℕ, ◌-◌, ◌≡◌, refl, Bool, false, ltb, Option, none, some, List, [], ◌∷◌, Bool-cases, inl, inr,
}
use qstream.Net.{SocketAddr}
use qstream.Clock.{secs, duration_since}
use qstream.Node.Addr.{same_addr, same_addr_refl, lookup, at_entry}

pub record PathState : Type 0 where
  pub last_ping : ℕ
  pub last_pong : Option ℕ
  pub lan : Bool

-- `PATH_FRESH`.
abbrev pub path_fresh_for : ℕ
path_fresh_for = secs 30

unfoldable pub pong_fresh : Option ℕ → ℕ → Bool
pong_fresh none now = false
pong_fresh (some t) now = ltb (duration_since now t) path_fresh_for

-- `PathState::fresh`.
unfoldable pub fresh : PathState → ℕ → Bool
unfolding pong_fresh
fresh p now = pong_fresh p.last_pong now

-- `path_fresh` and `is_lan_path` of the entry of an address.
unfoldable pub entry_fresh : Option PathState → ℕ → Bool
entry_fresh none now = false
entry_fresh (some p) now = fresh p now

unfoldable pub path_fresh : List (SocketAddr × PathState) → SocketAddr → ℕ → Bool
unfolding entry_fresh lookup
path_fresh paths a now = entry_fresh (lookup a paths) now

unfoldable pub entry_lan : Option PathState → Bool
entry_lan none = false
entry_lan (some p) = p.lan

unfoldable pub is_lan_path : List (SocketAddr × PathState) → SocketAddr → Bool
unfolding entry_lan lookup
is_lan_path paths a = entry_lan (lookup a paths)

-- `record_pong`.
unfoldable pub record_pong :
    List (SocketAddr × PathState) → SocketAddr → ℕ → List (SocketAddr × PathState)
unfolding at_entry
record_pong paths src now =
    at_entry src (record { last_ping = now; last_pong = none; lan = false })
      (λ p. record p { last_ping = now; last_pong = some now }) paths

-- After a PONG the path to its sender is fresh for exactly 30 seconds, and it is a LAN path if and
-- only if it was one.
pub record_pong-path_fresh :
    (paths : List (SocketAddr × PathState)) (src : SocketAddr) (now later : ℕ)
    → let after = record_pong paths src now in
      (path_fresh after src later ≡ ltb (later - now) 30000000000)
      × (is_lan_path after src ≡ is_lan_path paths src)
unfolding record_pong path_fresh is_lan_path entry_fresh entry_lan fresh pong_fresh lookup at_entry
record_pong-path_fresh [] src now later = rw (same_addr_refl src) (refl, refl)
record_pong-path_fresh ((k, p) ∷ paths) src now later = elim (Bool-cases (same_addr k src)) [
  | inl q ↦ rw (q, at_entry, lookup, q) (refl, refl)
  | inr q ↦ rw (q, at_entry, lookup, q) (record_pong-path_fresh paths src now later)
]
