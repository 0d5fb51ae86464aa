-- ===== src/Peer/Sources.antt =====
-- `pick_peer` of src/peer.rs: whom a segment is pulled from. The arithmetic of `f64` is a parameter.
pub mod Choice
pub mod Advertised
use qstream.Base.{
  ℕ, ◌+◌, Bool, true, false, not, ltb, leb, ◌==◌, ◌&&◌, ◌||◌, if◌then◌else◌, Option, none, some,
  List, [], ◌∷◌, map,
}
use mathlib.Core.Option
use qstream.Net.{SocketAddr}
use qstream.Disk.{bytes_eq}
use qstream.Names.{find_name}
use qstream.Fault.Rng.{Rng, next}
use qstream.Node.Addr.{same_addr, lookup, has_addr, keys, member, keep}
use qstream.Node.Paths.{path_fresh}
use qstream.Node.Inventory.{peer_availability, peer_may_have}
use qstream.Node.State.{Node, effective_addr}
use qstream.Node.Seeding.{is_true}

-- What the code uses of `f64`; `milli n` is the constant n / 1000.
pub record Float : Type 1 where
  pub F : Type 0
  pub milli : ℕ → F
  pub of_nat : ℕ → F
  pub add : F → F → F
  pub sub : F → F → F
  pub mul : F → F → F
  pub div : F → F → F
  pub max : F → F → F
  pub le : F → F → Bool

-- A download that goes on.
pub record ActiveJob : Type 0 where
  pub filename : List ℕ
  pub peer : SocketAddr

-- The maps of the scheduler that a choice reads.
pub record History : Type 0 where
  pub tried : List (List ℕ × List SocketAddr)
  pub retry_after : List ((List ℕ × SocketAddr) × ℕ)
  pub parents : List SocketAddr

-- `MAX_INFLIGHT_PER_PEER`.
abbrev pub max_inflight_per_peer : ℕ
max_inflight_per_peer = 2

unfoldable pub inflight : List (ℕ × ActiveJob) → SocketAddr → ℕ
inflight [] p = 0
inflight ((id, job) ∷ rest) p =
    let others = inflight rest p in if same_addr job.peer p then 1 + others else others

-- `retry_after.get`, of a file and a peer.
unfoldable pub retry_until : List ((List ℕ × SocketAddr) × ℕ) → List ℕ → SocketAddr → Option ℕ
retry_until [] filename p = none
retry_until (((f, q), t) ∷ rest) filename p =
    let later = retry_until rest filename p in
    if bytes_eq f filename && same_addr q p then some t else later

unfoldable pub is_before : ℕ → Option ℕ → Bool
is_before now none = false
is_before now (some until) = ltb now until

unfoldable pub is_cooling : History → List ℕ → SocketAddr → ℕ → Bool
unfolding is_before
is_cooling h filename p now = is_before now (retry_until h.retry_after filename p)

unfoldable pub is_untried : History → List ℕ → SocketAddr → Bool
is_untried h filename p = not (member p (Option.get_or (find_name filename h.tried) []))

unfoldable pub has_room : List (ℕ × ActiveJob) → SocketAddr → Bool
has_room active p = ltb (inflight active p) max_inflight_per_peer

-- The filters on the addresses of the known peers.
unfoldable pub is_eligible :
    Node → List (ℕ × ActiveJob) → History → List ℕ → SocketAddr → SocketAddr → ℕ → SocketAddr → Bool
is_eligible n active h filename local bootstrap now p =
    not (same_addr p local)
    && (same_addr p bootstrap || peer_may_have n.knowledge p filename now)
    && (not (is_cooling h filename p now) && is_untried h filename p)
    && has_room active p

unfoldable pub eligible :
    Node → List (ℕ × ActiveJob) → History → List ℕ → SocketAddr → SocketAddr → ℕ → List SocketAddr
unfolding is_eligible
eligible n active h filename local bootstrap now =
    keep (is_eligible n active h filename local bootstrap now)
      (map (effective_addr n) (keys n.peers))

unfoldable pub is_empty : List SocketAddr → Bool
is_empty [] = true
is_empty (a ∷ rest) = false

unfoldable pub or_else : List SocketAddr → List SocketAddr → List SocketAddr
unfolding is_empty
or_else first second = if is_empty first then second else first

unfoldable pub is_announced : (SocketAddr → Option Bool) → SocketAddr → SocketAddr → Bool
is_announced availability bootstrap p = not (same_addr p bootstrap) && is_true (availability p)

-- `prefer_advertised_peers`.
unfoldable pub prefer_advertised_peers :
    List SocketAddr → SocketAddr → (SocketAddr → Option Bool) → List SocketAddr
unfolding or_else is_announced
prefer_advertised_peers candidates bootstrap availability =
    or_else (keep (is_announced availability bootstrap) candidates) (
      if is_true (availability bootstrap)
      then keep (λ p. same_addr p bootstrap) candidates
      else candidates)

-- `is_bootstrap_recovery_candidate`.
unfoldable pub is_bootstrap_recovery_candidate : Bool → Bool → Bool → Bool → Bool → Bool
is_bootstrap_recovery_candidate known cooling full not_tried authoritative =
    known && not cooling && not full && not_tried && authoritative

-- The candidates of a pull: parents that announce the segment, or all that are eligible, and of
-- these the announced ones first.
unfoldable pub sources :
    Node → List (ℕ × ActiveJob) → History → List ℕ → SocketAddr → SocketAddr → ℕ → List SocketAddr
unfolding prefer_advertised_peers or_else
sources n active h filename local bootstrap now =
    let all = eligible n active h filename local bootstrap now in
    let availability = λ (p : SocketAddr). peer_availability n.knowledge p filename now in
    prefer_advertised_peers
      (or_else (keep (λ p. member p h.parents && is_true (availability p)) all) all) bootstrap
      availability

-- The bootstrap node, where nothing else is left.
unfoldable pub recovery :
    Node → List (ℕ × ActiveJob) → History → List ℕ → SocketAddr → ℕ → Option SocketAddr
unfolding is_bootstrap_recovery_candidate
recovery n active h filename bootstrap now =
    if is_bootstrap_recovery_candidate (has_addr bootstrap n.peers)
      (is_cooling h filename bootstrap now) (leb max_inflight_per_peer (inflight active bootstrap))
      (is_untried h filename bootstrap) true
    then some bootstrap
    else none

module _ (fl : Float) where
  open fl use {F, milli, of_nat, add, sub, mul, div, max, le}

  unfoldable pub availability_factor : Option Bool → F
  availability_factor (some true) = milli 3000
  availability_factor (some false) = milli 0
  availability_factor none = milli 350

  -- The closure `weight`.
  unfoldable pub weight : Node → List (ℕ × ActiveJob) → List ℕ → SocketAddr → ℕ → SocketAddr → F
  unfolding availability_factor
  weight n active filename bootstrap now p =
      let score = Option.get_or (Option.map (λ s. s.score) (lookup p n.book.peer_stats)) 50 in
      let fresh = if path_fresh n.paths p now then milli 1250 else milli 700 in
      let share =
        div (add (of_nat score) (milli 1000)) (add (of_nat (inflight active p)) (milli 1000)) in
      let w =
        mul (mul share fresh)
          (availability_factor (peer_availability n.knowledge p filename now)) in
      max (if same_addr p bootstrap then mul w (milli 900) else w) (milli 1)

  unfoldable pub total_weight : (SocketAddr → F) → F → List SocketAddr → F
  total_weight w sum [] = sum
  total_weight w sum (p ∷ rest) = total_weight w (add sum (w p)) rest

  -- The last loop: the first candidate at which the roll is used up.
  unfoldable pub spin : (SocketAddr → F) → F → List SocketAddr → Option SocketAddr
  spin w left [] = none
  spin w left (p ∷ rest) =
      let later = spin w (sub left (w p)) rest in
      if le (sub left (w p)) (milli 0) then some p else later

  -- The draw among candidates, of which there is one at least.
  unfoldable pub draw : (SocketAddr → F) → List SocketAddr → Rng → Option SocketAddr × Rng
  unfolding total_weight spin
  draw w candidates rng =
      let (word, rng') = next rng in
      (
        spin w
            (mul (div (of_nat word) (of_nat 18446744073709551615))
              (total_weight w (milli 0) candidates))
            candidates,
        rng',
      )

  -- `pick_peer`.
  unfoldable pub pick_peer :
      Node
      → List (ℕ × ActiveJob)
      → History
      → List ℕ
      → SocketAddr
      → SocketAddr
      → Rng
      → ℕ
      → Option SocketAddr × Rng
  unfolding sources recovery weight draw
  pick_peer n active h filename local bootstrap rng now =
      let candidates = sources n active h filename local bootstrap now in
      if is_empty candidates
      then (recovery n active h filename bootstrap now, rng)
      else draw (weight n active filename bootstrap now) candidates rng
