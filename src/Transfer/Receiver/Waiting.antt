-- ===== src/Transfer/Receiver/Waiting.antt =====
-- A download of src/transfer.rs before its first packet.
use qstream.Base.{
  ℕ, ◌+◌, ◌/◌, ◌≤◌, ◌<◌, not, leb, ◌&&◌, Bool-cases, inl, inr, ◌≡◌, refl, ◌∙◌, false, none, List,
  [], length, min, arith,
}
use qstream.Net.{SocketAddr}
use qstream.Transfer.Timing.{Settings}
use qstream.Transfer.Packets.{packet_count}
use qstream.Transfer.Sender.Safety.{packet_count_bounds}
use qstream.Transfer.Receiver.{
  ReceiverTransfer, World, new_receiver, first_contact, post, recompute_deadline,
}
use qstream.Transfer.Receiver.Timer.{
  is_empty, resend_request, retry_missing, quiet_tick, first_response_tick, on_tick,
}
use qstream.Clock.{ms}
use qstream.Transfer.Receiver.NextPacket.{pieces, Reached}

-- A receiver that has heard nothing yet and waits until `limit` at least.
pub record Waiting (c : Settings) (name : List ℕ) (limit : ℕ) (r : ReceiverTransfer) : Type 0 where
  pub open_still : r.outcome ≡ none
  pub named : r.filename ≡ name
  pub total : r.total ≡ none
  pub held : r.packets ≡ []
  pub range : r.range ≡ none
  pub deadline : limit ≤ r.first_response_deadline
  pub start : limit ≤ r.started_at + ms c.first_timeout_ms

pub new_receiver-Waiting :
    (c : Settings) (id : ℕ) (remote : SocketAddr) (name : List ℕ) (started : ℕ)
    → Waiting c name (started + ms c.first_timeout_ms) (new_receiver c id remote name started)
unfolding new_receiver
new_receiver-Waiting c id remote name started = record {
  open_still = refl;
  named = refl;
  total = refl;
  held = refl;
  range = refl;
  deadline = omega arith;
  start = omega arith;
}

module _ {c : Settings} {name : List ℕ} {limit : ℕ} where
  resend-Waiting :
      (r : ReceiverTransfer) (w : World) (t : ℕ)
      → Waiting c name limit r
      → let x = resend_request c r w t in Waiting c name limit x.0 × (x.1.disk ≡ w.disk)
  unfolding resend_request post
  resend-Waiting r w t h =
      elim (Bool-cases (
        is_empty r.packets
        && not r.request_resent
        && leb (r.started_at + ms c.first_timeout_ms / 2) t)) [
          | inr not_yet ↦ rw not_yet (h, refl)
          | inl again ↦ rw again (
            record {
              open_still = h.open_still;
              named = h.named;
              total = h.total;
              held = h.held;
              range = h.range;
              deadline = ground (arith, h.start);
              start = h.start;
            },
            refl,
          )
        ]

  quiet_tick-Waiting :
      (r : ReceiverTransfer) (w : World) (t : ℕ)
      → Waiting c name limit r
      → t < limit
      → let x = first_response_tick c r w t in Waiting c name limit x.0 × (x.1.disk ≡ w.disk)
  unfolding first_response_tick quiet_tick retry_missing recompute_deadline
  quiet_tick-Waiting r w t h before =
      let early : leb r.first_response_deadline t ≡ false = ground (arith, h.deadline) in
      rw early (elim (Bool-cases (leb r.quiet_deadline t)) [
        | inr busy ↦ rw busy (h, refl)
        | inl quiet ↦
            rw (quiet, h.range, retry_missing)
              (
                record {
                  open_still = h.open_still;
                  named = h.named;
                  total = h.total;
                  held = h.held;
                  range = h.range;
                  deadline = h.deadline;
                  start = h.start;
                },
                refl,
              )
      ])

  pub tick-Waiting :
      (r : ReceiverTransfer) (w : World) (t : ℕ)
      → Waiting c name limit r
      → t < limit
      → let x = on_tick c r w t in Waiting c name limit x.0 × (x.1.disk ≡ w.disk)
  unfolding on_tick
  tick-Waiting r w t h before =
      let x = resend_request c r w t in
      let (h', d) = resend-Waiting r w t h in
      let (h'', d') = quiet_tick-Waiting x.0 x.1 t h' before in
      rw (h.open_still, on_tick) (h'', d' ∙ d)

-- The first packet opens the first window.
pub first-Reached :
    (c : Settings) (file name : List ℕ) (limit : ℕ) (r : ReceiverTransfer) (now : ℕ)
    → Waiting c name limit r
    → let n = packet_count (length file) in Reached file name n 0 (first_contact c r n now)
unfolding first_contact pieces
first-Reached c file name limit r now h =
    let b = packet_count_bounds (length file) in
    rw (h.total, first_contact)
      (record {
        open_still = h.open_still;
        named = h.named;
        total = refl;
        held = h.held;
        start = 1;
        count = min 5 (packet_count (length file));
        range = refl;
        lo = omega arith;
        near = omega arith;
        inside = omega (arith, b.0);
        last = omega arith;
      })
