-- ===== src/Transfer/Registry/Answers.antt =====
-- What the registry of src/transfer.rs answers to a request, and what a NOT_FOUND does.
use qstream.Base.{
  ℕ, ◌≤◌, ◌<◌, ◌≡◌, refl, ap, Bool, true, false, not, leb, Bool-cases, Option-cases, inl, inr, ◌⊎◌,
  if◌then◌else◌, Option, none, some, List, [], ◌∷◌, ◌++◌, arith,
}
use mathlib.Core.Option
use qstream.Net.{SocketAddr}
use qstream.Protocol.Types.{Message}
use qstream.Protocol.Encode.{encode}
use qstream.Fault.Injector.{Link, send}
use qstream.Transfer.Registry.Availability.{segment_availability}
use qstream.Transfer.Timing.{max_concurrent_transfers}
use qstream.Transfer.Packets.{valid_filename}
use qstream.Transfer.Table.{find}
use qstream.Transfer.Table.Each.{find-insert, find-put}
use qstream.Transfer.Sender.{new_sender}
use qstream.Transfer.Receiver.{
  ReceiverTransfer, World, failed, not_ready, absent, fail, mark_not_found,
}
use qstream.Transfer.Registry.{
  TransferRegistry, not_found, active_count, reject_not_found, serve, on_not_found,
  receiver_outcome,
}

-- The request can be served: a valid name, room for a transfer, and a file that can be read.
pub record Serves (r : TransferRegistry) (w : World) (filename file : List ℕ) : Type 0 where
  pub valid : valid_filename filename ≡ true
  pub room : active_count r < 32
  pub read : w.disk.files filename ≡ some file

-- One datagram goes out, a NOT_FOUND with the number of the request and the own inventory to the
-- requester, and one event, the refusal, is added; no transfer changes.
pub record Refuses (r : TransferRegistry) (l : Link) (names : Option (List (List ℕ))) (id : ℕ)
    (src : SocketAddr) (now : ℕ) (x : TransferRegistry × Link) : Type 0 where
  pub answer :
      x.1
      ≡ send l (encode (Message.segment_not_found id (segment_availability names) false), src) now
  pub events : x.0.events ≡ r.events ++ not_found src ∷ []
  pub senders : x.0.senders ≡ r.senders
  pub receivers : x.0.receivers ≡ r.receivers

refuses :
    (r : TransferRegistry) (l : Link) (names : Option (List (List ℕ))) (id : ℕ) (src : SocketAddr)
    (now : ℕ)
    → Refuses r l names id src now (reject_not_found r l names id src false now)
unfolding reject_not_found
refuses r l names id src now = record {
  answer = refl;
  events = refl;
  senders = refl;
  receivers = refl;
}

-- No request is dropped: either its name is valid, there is room and the file can be read, and then
-- its number leads to a new sender of that file to the requester, whatever it led to before, and
-- nothing is sent yet; or one of the three fails, and then a NOT_FOUND that is not marked retryable,
-- with the number of the request and the own inventory, is handed to the injector for the requester,
-- the refusal is added to the events, and no transfer changes.
pub serve_answers :
    (r : TransferRegistry) (w : World) (names : Option (List (List ℕ))) (id : ℕ) (filename : List ℕ)
    (src : SocketAddr) (now : ℕ)
    → let x = serve r w names id filename src now in
      ((file : List ℕ) × Serves r w filename file
        × (find id x.0.senders ≡ some (new_sender id src file now))
        × (x.1 ≡ w.link))
      ⊎ (((valid_filename filename ≡ false)
            ⊎ ((32 ≤ active_count r) ⊎ (w.disk.files filename ≡ none)))
          × Refuses r w.link names id src now x)
unfolding serve
serve_answers r w names id filename src now = elim (Bool-cases (not (valid_filename filename))) [
  | inl bad ↦ rw bad (inr (inl (ground arith), refuses r w.link names id src now))
  | inr good ↦ rw good (elim (Bool-cases (leb max_concurrent_transfers (active_count r))) [
    | inl full ↦ rw full (inr (inr (inl (ground arith)), refuses r w.link names id src now))
    | inr room ↦ rw room (elim (Option-cases (w.disk.files filename)) [
      | inl q ↦ rw (q, serve) (inr (inr (inr refl), refuses r w.link names id src now))
      | inr (file, q) ↦
          rw (q, serve)
            (inl (
              file,
              record { valid = ground arith; room = ground arith; read = q },
              find-insert id (new_sender id src file now) r.senders,
              refl,
            ))
    ])
  ])
]

-- A NOT_FOUND for a download makes it fail whatever its outcome was, success included.
pub on_not_found-overrules :
    (r : TransferRegistry) (id : ℕ) (retryable : Bool) (now : ℕ) (t : ReceiverTransfer)
    → find id r.receivers ≡ some t
    → let x = on_not_found r id retryable now in
      (receiver_outcome x.0 id ≡ some (failed (if retryable then not_ready else absent)))
      × (x.1 ≡ some (t.filename, retryable))
unfolding on_not_found receiver_outcome fail mark_not_found
on_not_found-overrules r id retryable now t e =
    let u = fail (mark_not_found t retryable) (if retryable then not_ready else absent) now in
    rw (e, on_not_found)
      (
        ap (λ o. Option.get_or (Option.map (λ s. s.outcome) o) none)
            (find-put id t u r.receivers e),
        refl,
      )
