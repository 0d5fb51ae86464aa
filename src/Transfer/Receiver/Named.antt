-- ===== src/Transfer/Receiver/Named.antt =====
-- No step of a receiver of src/transfer.rs changes the name of its file.
use qstream.Base.{
  ℕ, ◌≡◌, refl, ◌∙◌, leb, ◌&&◌, Bool-cases, Option-cases, inl, inr, Option, none, some, List, arith,
}
use qstream.Transfer.Timing.{Settings}
use qstream.Transfer.Receiver.{
  ReceiverTransfer, World, fail, fail_unresponsive, recompute_deadline, complete, advance,
  first_contact, insert_packet, after_insert, accept, dispatch, on_stray, on_content,
}
use qstream.Transfer.Receiver.Timer.{
  resend_request, retry_range, retry_missing, quiet_tick, first_response_tick, is_empty, on_tick,
}

complete-filename :
    (r : ReceiverTransfer) (w : World) (now : ℕ) → (complete r w now).0.filename ≡ r.filename
unfolding complete fail
complete-filename r w now = ground arith

after_insert-filename :
    (c : Settings) (r : ReceiverTransfer) (w : World) (range : ℕ × ℕ) (total now : ℕ)
    → (after_insert c r w range total now).0.filename ≡ r.filename
unfolding after_insert advance
after_insert-filename c r w (start, count) total now = ground (arith, complete-filename r w now)

dispatch-filename :
    (c : Settings) (r : ReceiverTransfer) (w : World) (total : Option ℕ) (range : Option (ℕ × ℕ))
    (pn : ℕ) (p : List ℕ) (now : ℕ)
    → (dispatch c r w total range pn p now).0.filename ≡ r.filename
unfolding dispatch accept insert_packet
dispatch-filename c r w none range pn p now = refl
dispatch-filename c r w (some n) none pn p now = refl
dispatch-filename c r w (some n) (some range) pn p now =
    ground (arith, after_insert-filename c (insert_packet c r pn p now) w range n now)

first_contact-filename :
    (c : Settings) (r : ReceiverTransfer) (n now : ℕ)
    → (first_contact c r n now).filename ≡ r.filename
unfolding first_contact
first_contact-filename c r n now = ground arith

pub on_content-filename :
    (c : Settings) (r : ReceiverTransfer) (w : World) (pn n : ℕ) (p : List ℕ) (now : ℕ)
    → (on_content c r w pn n p now).0.filename ≡ r.filename
unfolding on_content on_stray
on_content-filename c r w pn n p now =
    let r' = first_contact c r n now in
    ground
      (arith, dispatch-filename c r' w r'.total r'.range pn p now, first_contact-filename c r n now)

retry_missing-filename :
    (r : ReceiverTransfer) (w : World) (range : Option (ℕ × ℕ)) (now : ℕ)
    → (retry_missing r w range now).0.filename ≡ r.filename
unfolding retry_missing retry_range recompute_deadline fail
retry_missing-filename r w none now = refl
retry_missing-filename r w (some (start, count)) now = ground arith

first_response_tick-filename :
    (c : Settings) (r : ReceiverTransfer) (w : World) (now : ℕ)
    → (first_response_tick c r w now).0.filename ≡ r.filename
unfolding first_response_tick quiet_tick fail_unresponsive fail
first_response_tick-filename c r w now =
    elim (Bool-cases (leb r.first_response_deadline now && is_empty r.packets)) [
      | inl dead ↦ rw dead refl
      | inr heard ↦ rw heard (elim (Bool-cases (leb r.quiet_deadline now)) [
        | inl quiet ↦ rw quiet (retry_missing-filename _ w r.range now)
        | inr busy ↦ rw busy refl
      ])
    ]

resend_request-filename :
    (c : Settings) (r : ReceiverTransfer) (w : World) (now : ℕ)
    → (resend_request c r w now).0.filename ≡ r.filename
unfolding resend_request
resend_request-filename c r w now = ground arith

pub on_tick-filename :
    (c : Settings) (r : ReceiverTransfer) (w : World) (now : ℕ)
    → (on_tick c r w now).0.filename ≡ r.filename
unfolding on_tick
on_tick-filename c r w now = elim (Option-cases r.outcome) [
  | inr (o, e) ↦ rw (e, on_tick) refl
  | inl e ↦
      let (q, v) = resend_request c r w now in
      rw (e, on_tick) (first_response_tick-filename c q v now ∙ resend_request-filename c r w now)
]
