-- ===== src/Transfer/Receiver/Pull.antt =====
-- Whole downloads of src/transfer.rs: content packets and timer ticks in any order.
use qstream.Base.{
  ℕ, ◌+◌, ◌*◌, ◌/◌, ◌≤◌, ◌≡◌, refl, sym, subst, leb, ltb, not, ◌&&◌, Bool-cases, inl, inr, Option,
  none, some, List, ◌∙◌, [], ◌∷◌, length,
}
use qstream.Clock.{ms}
use qstream.Net.{SocketAddr}
use qstream.Transfer.Timing.{Settings}
use qstream.Transfer.Packets.{packet_count}
use qstream.Transfer.Sender.Safety.{piece}
use qstream.Transfer.Receiver.{
  ReceiverTransfer, World, Outcome, saved, new_receiver, fail, fail_unresponsive,
  recompute_deadline, on_content, range_complete,
}
use qstream.Transfer.Receiver.Timer.{
  is_empty, resend_request, retry_range, retry_missing, quiet_tick, first_response_tick, on_tick,
}
use qstream.Transfer.Receiver.Named.{on_content-filename, on_tick-filename}
use qstream.Transfer.Receiver.Saves.{Running, Holds, IsPulling, on_content-IsPulling}

module _ (file : List ℕ) (small : length file ≤ 65535 * 1400) where
  abbrev IsRunning : ReceiverTransfer → Type 0
  IsRunning r = (r.outcome ≡ none) × Running file small r.total r.range r.packets

  running : (r : ReceiverTransfer) (w : World) → IsRunning r → IsPulling file small r w
  running r w (o, h) = subst (λ x. Holds file small x r w) (sym o) h

  abbrev Pulls : ReceiverTransfer × World → Type 0
  Pulls x = IsPulling file small x.0 x.1

  retry_missing-Pulls :
      (r : ReceiverTransfer) (w : World) (range : Option (ℕ × ℕ)) (now : ℕ)
      → IsRunning r
      → Pulls (retry_missing r w range now)
  unfolding retry_missing retry_range recompute_deadline fail
  retry_missing-Pulls r w none now h = running _ w h
  retry_missing-Pulls r w (some (start, count)) now h =
      elim (Bool-cases (range_complete r start count)) [
        | inl done ↦ rw done (running _ w h)
        | inr open_range ↦ rw open_range (elim (Bool-cases (ltb 8 (r.retry_count + 1))) [
          | inl over ↦ rw over tt
          | inr again ↦ rw again (running _ _ h)
        ])
      ]

  first_response_tick-Pulls :
      (c : Settings) (r : ReceiverTransfer) (w : World) (now : ℕ)
      → IsRunning r
      → Pulls (first_response_tick c r w now)
  unfolding first_response_tick quiet_tick fail_unresponsive fail
  first_response_tick-Pulls c r w now h =
      elim (Bool-cases (leb r.first_response_deadline now && is_empty r.packets)) [
        | inl dead ↦ rw dead tt
        | inr heard ↦ rw heard (elim (Bool-cases (leb r.quiet_deadline now)) [
          | inl quiet ↦ rw quiet (retry_missing-Pulls _ w r.range now h)
          | inr busy ↦ rw busy (running r w h)
        ])
      ]

  resend_request-IsRunning :
      (c : Settings) (r : ReceiverTransfer) (w : World) (now : ℕ)
      → IsRunning r
      → IsRunning (resend_request c r w now).0
  unfolding resend_request
  resend_request-IsRunning c r w now h =
      elim (Bool-cases (
        is_empty r.packets
        && not r.request_resent
        && leb (r.started_at + ms c.first_timeout_ms / 2) now)) [
          | inl again ↦ rw again h
          | inr not_yet ↦ rw not_yet h
        ]

  on_tick-Holds :
      (c : Settings) (r : ReceiverTransfer) (w : World) (o : Option Outcome) (now : ℕ)
      → r.outcome ≡ o
      → Holds file small o r w
      → Pulls (on_tick c r w now)
  unfolding on_tick
  on_tick-Holds c r w none now e h =
      rw (e, on_tick)
        (first_response_tick-Pulls c _ _ now (resend_request-IsRunning c r w now (e, h)))
  on_tick-Holds c r w (some o) now e h =
      rw (e, on_tick) (subst (λ x. Holds file small x r w) (sym e) h)

-- What a receiver meets: a content packet of the file, or a tick of the event loop.
pub data Step : Type 0 where
  arrives : (packet_number now : ℕ) → Step
  ticks : (now : ℕ) → Step

unfoldable pub pull_step :
    Settings → List ℕ → ReceiverTransfer × World → Step → ReceiverTransfer × World
pull_step c file (r, w) (arrives pn now) =
    on_content c r w pn (packet_count (length file)) (piece file pn) now
pull_step c file (r, w) (ticks now) = on_tick c r w now

unfoldable pub pull :
    Settings → List ℕ → ReceiverTransfer × World → List Step → ReceiverTransfer × World
unfolding pull_step
pull c file s [] = s
pull c file s (x ∷ xs) = pull c file (pull_step c file s x) xs

pull-IsPulling :
    (c : Settings) (file : List ℕ) (small : length file ≤ 65535 * 1400)
    (s : ReceiverTransfer × World) (xs : List Step)
    → IsPulling file small s.0 s.1
    → IsPulling file small (pull c file s xs).0 (pull c file s xs).1
unfolding pull pull_step
pull-IsPulling c file small s [] h = h
pull-IsPulling c file small (r, w) (arrives pn now ∷ xs) h =
    pull-IsPulling c file small (pull_step c file (r, w) (arrives pn now)) xs
      (on_content-IsPulling file small c r w pn now h)
pull-IsPulling c file small (r, w) (ticks now ∷ xs) h =
    pull-IsPulling c file small (pull_step c file (r, w) (ticks now)) xs
      (on_tick-Holds file small c r w r.outcome now refl h)

pull-filename :
    (c : Settings) (file : List ℕ) (s : ReceiverTransfer × World) (xs : List Step)
    → (pull c file s xs).0.filename ≡ s.0.filename
unfolding pull pull_step
pull-filename c file s [] = refl
pull-filename c file (r, w) (arrives pn now ∷ xs) =
    pull-filename c file (pull_step c file (r, w) (arrives pn now)) xs
    ∙ on_content-filename c r w pn (packet_count (length file)) (piece file pn) now
pull-filename c file (r, w) (ticks now ∷ xs) =
    pull-filename c file (pull_step c file (r, w) (ticks now)) xs ∙ on_tick-filename c r w now

-- A download is right whenever it is reported: after any sequence of packets of a file of at most
-- 65,535 packets, repeated, reordered or missing, and of timer ticks, a receiver whose outcome is
-- success has left exactly the file in its directory under the name that it asked for.
pub pull-saves :
    (c : Settings) (file : List ℕ) (id : ℕ) (remote : SocketAddr) (name : List ℕ) (started : ℕ)
    (w : World) (xs : List Step)
    → length file ≤ 65535 * 1400
    → (pull c file (new_receiver c id remote name started, w) xs).0.outcome ≡ some saved
    → (pull c file (new_receiver c id remote name started, w) xs).1.disk.files name ≡ some file
unfolding new_receiver
pull-saves c file id remote name started w xs small e =
    let s = pull c file (new_receiver c id remote name started, w) xs in
    let named : s.0.filename ≡ name =
      pull-filename c file (new_receiver c id remote name started, w) xs in
    subst (λ n. s.1.disk.files n ≡ some file) named
      (subst (λ x. Holds file small x s.0 s.1) e
        (pull-IsPulling c file small (new_receiver c id remote name started, w) xs refl))
