-- ===== src/Transfer/Registry/Starts.antt =====
-- How `start_receiver` of src/transfer.rs starts a download.
use qstream.Base.{
  ℕ, ◌<◌, ◌≡◌, ◌≢◌, refl, false, not, leb, ◌==◌, ◌&&◌, Bool-cases, inl, inr, if◌then◌else◌, some,
  List, [], ◌∷◌, Has, arith,
}
use qstream.Net.{SocketAddr}
use qstream.Protocol.Types.{Message}
use qstream.Protocol.Encode.{encode}
use qstream.Fault.Injector.{Link, send}
use qstream.Transfer.Timing.{Settings, max_concurrent_transfers}
use qstream.Transfer.Table.{find, has_key, remove, insert}
use qstream.Transfer.Receiver.{new_receiver}
use qstream.Transfer.Registry.{TransferRegistry, active_count, fresh_id, start_receiver}

-- The number is not 0, and no transfer has it.
pub record IsFree (r : TransferRegistry) (id : ℕ) : Type 0 where
  pub positive : id ≢ 0
  pub unsent : has_key id r.senders ≡ false
  pub unread : has_key id r.receivers ≡ false

-- The download has the free number `k`: its request went out, `k` leads to a new receiver, and nothing
-- else has changed.
pub record Starts (c : Settings) (r : TransferRegistry) (l : Link) (remote : SocketAddr)
    (filename : List ℕ) (now k j : ℕ) (x : TransferRegistry × Link) : Type 0 where
  pub free : IsFree r k
  pub request : x.1 ≡ send l (encode (Message.segment_request k filename), remote) now
  pub receivers :
      find j x.0.receivers
      ≡ (if k == j then some (new_receiver c k remote filename now) else find j r.receivers)
  pub senders : x.0.senders ≡ r.senders
  pub events : x.0.events ≡ r.events

find-remove {ℓ} :
    {A : Type ℓ} (k j : ℕ) (xs : List (ℕ × A)) → (k == j) ≡ false → find j (remove k xs) ≡ find j xs
unfolding find remove
find-remove k j [] e = refl
find-remove k j ((i, x) ∷ xs) e = ground (arith, find-remove k j xs e)

find-insert_any {ℓ} :
    {A : Type ℓ} (k j : ℕ) (x : A) (xs : List (ℕ × A))
    → find j (insert k x xs) ≡ (if k == j then some x else find j xs)
unfolding find insert
find-insert_any k j x xs = elim (Bool-cases (k == j)) [
  | inl same ↦ rw same refl
  | inr other ↦ rw other (find-remove k j xs other)
]

fresh_id_lem :
    (r : TransferRegistry) (draws : List ℕ) (id : ℕ)
    → Has draws id
    → IsFree r id
    → (k : ℕ) × IsFree r k × (fresh_id r draws ≡ some k)
unfolding fresh_id
fresh_id_lem r [] id h f = absurd h
fresh_id_lem r (d ∷ ds) id h f =
    elim (Bool-cases (not (d == 0) && not (has_key d r.senders) && not (has_key d r.receivers))) [
      | inl q ↦ (
        d,
        record { positive = ground arith; unsent = ground arith; unread = ground arith },
        rw q refl,
      )
      | inr q ↦ elim h [
        | inl e ↦ absurd (ground (arith, f.positive, f.unsent, f.unread))
        | inr later ↦ rw q (fresh_id_lem r ds id later f)
      ]
    ]

-- A download starts: if there are fewer than 32 transfers and some drawn number is free, then the
-- download gets a number that is not 0 and that no transfer has, a SEGMENT_REQUEST with it goes to the
-- source, it leads to a new receiver, and every other number `j` to what it led to.
pub start_receiver-Starts :
    (c : Settings) (r : TransferRegistry) (l : Link) (draws : List ℕ) (remote : SocketAddr)
    (filename : List ℕ) (now id j : ℕ)
    → active_count r < 32
    → Has draws id
    → IsFree r id
    → (k : ℕ) × (x : TransferRegistry × Link) × (start_receiver c r l draws remote filename now
        ≡ some (x, some k))
      × Starts c r l remote filename now k j x
unfolding start_receiver
start_receiver-Starts c r l draws remote filename now id j room drawn f =
    let (k, free, e) = fresh_id_lem r draws id drawn f in
    let open_ : leb max_concurrent_transfers (active_count r) ≡ false = ground arith in
    let t = new_receiver c k remote filename now in
    (
      k,
      (
        record r { receivers = insert k t r.receivers },
        send l (encode (Message.segment_request k filename), remote) now,
      ),
      rw (open_, e) refl,
      record {
        free = free;
        request = refl;
        receivers = find-insert_any k j t r.receivers;
        senders = refl;
        events = refl;
      },
    )
