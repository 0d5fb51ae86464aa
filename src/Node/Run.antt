-- ===== src/Node/Run.antt =====
-- What happens to a node of src/node.rs in the event loops of src/server.rs and src/peer.rs.
pub mod Safety
use qstream.Base.{ℕ, Option, none, some, List, [], ◌∷◌}
use qstream.Net.{SocketAddr}
use qstream.Transfer.Timing.{Settings}
use qstream.Transfer.Registry.{start_receiver, remove_receiver}
use qstream.Transfer.Registry.Tick.{begun}
use qstream.Node.Stats.{PullResult, record_pull}
use qstream.Node.State.{Node}
use qstream.Node.Handle.{with_transfers, handle}
use qstream.Node.Tick.{Surroundings, booked_name, tick}

-- A datagram comes in, time goes on, or the peer starts, books or drops a download.
pub data Step : Type 0 where
  received :
      (names : Option (List (List ℕ))) (limit : ℕ) (datagram : List ℕ) (src : SocketAddr) (now : ℕ)
      → Step
  ticked : (s : Surroundings) (now : ℕ) → Step
  started : (draws : List ℕ) (remote : SocketAddr) (filename : List ℕ) (now : ℕ) → Step
  pulled :
      (show : SocketAddr → List ℕ) (peer : SocketAddr) (result : PullResult) (latency : Option ℕ)
      (bytes now : ℕ)
      → Step
  dropped : (id : ℕ) → Step

-- One step; `none` is a panic.
unfoldable pub step : Settings → Node → Step → Option Node
unfolding with_transfers
step c n (received names limit datagram src now) = some (handle c names limit n datagram src now).0
step c n (ticked s now) = tick c s n now
step c n (started draws remote filename now) = some (
    with_transfers n (
      begun (n.registry, n.world)
        (start_receiver c n.registry n.world.link draws remote filename now)))
step c n (pulled show peer result latency bytes now) =
    some (record n {
      book = record_pull n.book peer (booked_name show n peer) result latency bytes now;
    })
step c n (dropped id) = some (record n { registry = remove_receiver n.registry id })

unfoldable pub run : Settings → Node → List Step → Option Node
unfolding step
run c n [] = some n
run c n (s ∷ rest) = elim (step c n s) [ none ↦ none | some m ↦ run c m rest ]
