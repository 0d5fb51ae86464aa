-- ===== src/Transfer/Registry/Safety.antt =====
-- The registry of src/transfer.rs keeps its bounds in every run.
use qstream.Base.{◌≡◌, refl, Option, some, List, [], ◌∷◌}
use qstream.Transfer.Timing.{Settings}
use qstream.Transfer.Receiver.{World}
use qstream.Transfer.Registry.{TransferRegistry}
use qstream.Transfer.Registry.Tick.{
  Op, requested, refused, started, content, acked, missing, dropped, drained, ticked, perform,
  perform_all,
}
use qstream.Transfer.Registry.Kept.{
  IsSafe, tick-IsSafe, serve-IsSafe, reject_not_found-IsSafe, on_content-IsSafe, on_ack-IsSafe,
  on_not_found-IsSafe, begun-start_receiver-IsSafe, remove_receiver-IsSafe, drain_events-IsSafe,
}

Kept : Option (TransferRegistry × World) → Type 0
Kept o = (s : TransferRegistry × World) × (o ≡ some s) × IsSafe s.0

perform-Kept :
    (c : Settings) (r : TransferRegistry) (w : World) (op : Op)
    → IsSafe r
    → Kept (perform c (r, w) op)
unfolding Kept perform
perform-Kept c r w (requested names id filename src now) h =
    (_, refl, serve-IsSafe r w names id filename src now h)
perform-Kept c r w (refused names id src retryable now) h =
    (_, refl, reject_not_found-IsSafe r w.link names id src retryable now h)
perform-Kept c r w (started draws remote filename now) h =
    (_, refl, begun-start_receiver-IsSafe c r w draws remote filename now h)
perform-Kept c r w (content id pn total bytes now) h =
    (_, refl, on_content-IsSafe c r w id pn total bytes now h)
perform-Kept c r w (acked id k start count now) h =
    (_, refl, on_ack-IsSafe c r id k start count now h)
perform-Kept c r w (missing id retryable now) h =
    (_, refl, on_not_found-IsSafe r id retryable now h)
perform-Kept c r w (dropped id) h = (_, refl, remove_receiver-IsSafe r id h)
perform-Kept c r w drained h = (_, refl, drain_events-IsSafe r h)
perform-Kept c r w (ticked now) h = tick-IsSafe c r w now h

-- Whatever datagrams come in, whatever downloads the node starts or drops and however time goes on,
-- a registry that has at most 32 transfers and whose senders are inside their files never panics,
-- and still has at most 32 transfers and senders inside their files.
pub perform_all-IsSafe :
    (c : Settings) (r : TransferRegistry) (w : World) (ops : List Op)
    → IsSafe r
    → (s : TransferRegistry × World) × (perform_all c (r, w) ops ≡ some s) × IsSafe s.0
unfolding perform_all Kept
perform_all-IsSafe c r w [] h = ((r, w), refl, h)
perform_all-IsSafe c r w (op ∷ ops) h =
    let ((r', w'), q, h') = perform-Kept c r w op h in
    let (s, q', h'') = perform_all-IsSafe c r' w' ops h' in (s, rw (q, perform_all) q', h'')
