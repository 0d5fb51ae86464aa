-- ===== src/Transfer/Receiver/Saves.antt =====
-- What a receiver of src/transfer.rs saves is the file that was sent.
use qstream.Base.{
  ℕ, ◌+◌, ◌-◌, ◌*◌, ◌≤◌, ◌<◌, ◌≡◌, refl, sym, ap, subst, ◌∙◌, leb→le, true, false, leb, ltb, ◌==◌,
  ◌||◌, Bool-cases, inl, inr, Option, none, some, List, [], ◌++◌, length, min, arith,
}
use mathlib.Core.Option
use qstream.Disk.{Disk, write, rename, bytes_eq_refl}
use qstream.Transfer.Timing.{Settings}
use qstream.Transfer.Packets.{packet_count}
use qstream.Transfer.Sender.Safety.{piece, packet_count_bounds}
use qstream.Transfer.Assembly.{contains_key, all_received, assemble, save, tmp_suffix}
use qstream.Transfer.Assembly.Keys.{AreKeys, AreKeys-mono}
use qstream.Transfer.Assembly.Place.{ArePieces, assemble-pieces}
use qstream.Transfer.Receiver.{
  ReceiverTransfer, World, Outcome, saved, failed, fail, post, send_complete, complete, advance,
  remaining, first_contact, insert_packet, after_insert, accept, dispatch, on_stray, on_content,
  range_complete,
}
use qstream.Transfer.Receiver.Windows.{IsWindow, first-IsWindow, insert-IsWindow, next-IsWindow}

-- A successful `save` leaves the bytes under the file's name.
save-files :
    (d : Disk) (name bytes : List ℕ)
    → (save d name bytes).1 ≡ true
    → (save d name bytes).0.files name ≡ some bytes
unfolding save write rename
save-files d name bytes e = ground (arith, bytes_eq_refl name, bytes_eq_refl (name ++ tmp_suffix))

module _ (file : List ℕ) (small : length file ≤ 65535 * 1400) where
  -- The state of a transfer of `file` that has not ended.
  abbrev pub Running : Option ℕ → Option (ℕ × ℕ) → List (ℕ × List ℕ) → Type 0
  Running none none ps = ps ≡ []
  Running none (some range) ps = ⊥
  Running (some total) none ps = ⊥
  Running (some total) (some (start, count)) ps =
      (total ≡ packet_count (length file)) × IsWindow total start count ps × ArePieces file ps

  -- What holds of a receiver of `file` and its directory.
  abbrev pub Holds : Option Outcome → ReceiverTransfer → World → Type 0
  Holds none r w = Running r.total r.range r.packets
  Holds (some saved) r w = w.disk.files r.filename ≡ some file
  Holds (some (failed reason)) r w = Unit

  abbrev pub IsPulling : ReceiverTransfer → World → Type 0
  IsPulling r w = Holds r.outcome r w

  -- `complete`, once every packet is there.
  complete-Holds :
      (r : ReceiverTransfer) (w : World) (now : ℕ) (total : ℕ)
      → r.total ≡ some total
      → total ≡ packet_count (length file)
      → AreKeys total r.packets
      → total ≤ length r.packets
      → ArePieces file r.packets
      → IsPulling (complete r w now).0 (complete r w now).1
  unfolding complete fail send_complete post
  complete-Holds r w now total t e keys full g =
      let bytes = assemble (Option.get_or r.total 0) r.packets in
      let whole : bytes ≡ file =
        ap (λ o. assemble (Option.get_or o 0) r.packets) t
        ∙ ap (λ n. assemble n r.packets) e
        ∙ assemble-pieces file r.packets small (subst (λ n. AreKeys n r.packets) e keys)
            (omega (arith, full, e)) g in
      elim (Bool-cases (save w.disk r.filename bytes).1) [
        | inl q ↦ rw (q, complete) (save-files w.disk r.filename bytes q ∙ ap some whole)
        | inr q ↦ rw (q, complete) tt
      ]

  pulling :
      (r : ReceiverTransfer) (w : World) (total : ℕ) (range : ℕ × ℕ)
      → r.outcome ≡ none
      → r.total ≡ some total
      → r.range ≡ some range
      → Running (some total) (some range) r.packets
      → IsPulling r w
  pulling r w total range o t q h =
      subst (λ x. Holds x r w) (sym o)
        (subst (λ x. Running x r.range r.packets) (sym t)
          (subst (λ y. Running (some total) y r.packets) (sym q) h))

  advance-Holds :
      (c : Settings) (r : ReceiverTransfer) (w : World) (total start count now : ℕ)
      → r.outcome ≡ none
      → r.total ≡ some total
      → total ≡ packet_count (length file)
      → IsWindow total start count r.packets
      → ArePieces file r.packets
      → all_received r.packets start count ≡ true
      → length r.packets < total
      → IsPulling (advance c r w start count total now).0 (advance c r w start count total now).1
  unfolding advance
  advance-Holds c r w total start count now o t e win g done short =
      let (some_left, next) = next-IsWindow win done short in
      let left : (remaining total (start + count) == 0) ≡ false = ground (arith, some_left) in
      rw (left, advance) (pulling _ _ total _ o t refl (e, next, g))

  after_insert-Holds :
      (c : Settings) (r : ReceiverTransfer) (w : World) (total start count now : ℕ)
      → r.outcome ≡ none
      → r.total ≡ some total
      → r.range ≡ some (start, count)
      → Running (some total) (some (start, count)) r.packets
      → let x = after_insert c r w (start, count) total now in IsPulling x.0 x.1
  unfolding after_insert range_complete
  after_insert-Holds c r w total start count now o t q (e, win, g) =
      elim (Bool-cases (leb total (length r.packets))) [
        | inl full ↦ rw full (
            complete-Holds r w now total t e
              (AreKeys-mono (start + count - 1) total r.packets (omega (arith, win.last)) win.keys)
              (leb→le total (length r.packets) full) g)
        | inr short ↦ rw short (elim (Bool-cases (all_received r.packets start count)) [
          | inl done ↦
              rw done (advance-Holds c r w total start count now o t e win g done (ground arith))
          | inr missing ↦ rw missing (pulling r w total (start, count) o t q (e, win, g))
        ])
      ]

  accept-Holds :
      (c : Settings) (r : ReceiverTransfer) (w : World) (total start count pn now : ℕ)
      → r.outcome ≡ none
      → r.total ≡ some total
      → r.range ≡ some (start, count)
      → Running (some total) (some (start, count)) r.packets
      → let x = accept c r w total (start, count) pn (piece file pn) now in IsPulling x.0 x.1
  unfolding accept insert_packet
  accept-Holds c r w total start count pn now o t q (e, win, g) =
      elim (Bool-cases (ltb pn start || leb (start + count) pn)) [
        | inl stray ↦ rw stray (pulling r _ total (start, count) o t q (e, win, g))
        | inr inside ↦ rw inside (elim (Bool-cases (contains_key pn r.packets)) [
          | inl dup ↦ rw dup (pulling r w total (start, count) o t q (e, win, g))
          | inr new ↦ rw new (
              after_insert-Holds c (insert_packet c r pn (piece file pn) now) w total start count
                now o t q
                (
                  e,
                  insert-IsWindow pn (piece file pn) win (ground arith) (ground arith) new,
                  (refl, g),
                ))
        ])
      ]

  dispatch-Holds :
      (c : Settings) (r : ReceiverTransfer) (w : World) (total : Option ℕ) (range : Option (ℕ × ℕ))
      (pn now : ℕ)
      → r.outcome ≡ none
      → r.total ≡ total
      → r.range ≡ range
      → Running total range r.packets
      → let x = dispatch c r w total range pn (piece file pn) now in IsPulling x.0 x.1
  unfolding dispatch
  dispatch-Holds c r w none none pn now o t q h =
      subst (λ x. Holds x r w) (sym o)
        (subst (λ x. Running x r.range r.packets) (sym t)
          (subst (λ y. Running none y r.packets) (sym q) h))
  dispatch-Holds c r w none (some range) pn now o t q h = absurd h
  dispatch-Holds c r w (some total) none pn now o t q h = absurd h
  dispatch-Holds c r w (some total) (some (start, count)) pn now o t q h =
      elim (Bool-cases (pn == 0 || ltb total pn)) [
        | inl wrong ↦ rw wrong (pulling r w total (start, count) o t q h)
        | inr number ↦ rw number (accept-Holds c r w total start count pn now o t q h)
      ]

  nothing_held : (range : Option (ℕ × ℕ)) (ps : List (ℕ × List ℕ)) → Running none range ps → ps ≡ []
  nothing_held none ps h = h
  nothing_held (some range) ps h = absurd h

  -- The first packet opens the first window; at a later one nothing changes.
  contact-Running :
      (c : Settings) (r : ReceiverTransfer) (now : ℕ) (total : Option ℕ)
      → r.total ≡ total
      → Running total r.range r.packets
      → let r' = first_contact c r (packet_count (length file)) now in
        Running r'.total r'.range r'.packets × (r'.outcome ≡ r.outcome) × (r'.filename ≡ r.filename)
  unfolding first_contact
  contact-Running c r now none t h =
      let n = packet_count (length file) in
      let b = packet_count_bounds (length file) in
      rw (t, first_contact)
        (
          subst (λ ps. Running (some n) (some (1, min 5 n)) ps)
              (sym (nothing_held r.range r.packets h)) (refl, first-IsWindow n b.0 b.1, tt),
          refl,
          refl,
        )
  contact-Running c r now (some total) t h =
      rw (t, first_contact) (subst (λ x. Running x r.range r.packets) (sym t) h, refl, refl)

  on_content-Holds :
      (c : Settings) (r : ReceiverTransfer) (w : World) (o : Option Outcome) (pn now : ℕ)
      → r.outcome ≡ o
      → Holds o r w
      → let x = on_content c r w pn (packet_count (length file)) (piece file pn) now in
        IsPulling x.0 x.1
  unfolding on_content on_stray send_complete post
  on_content-Holds c r w none pn now e h =
      let r' = first_contact c r (packet_count (length file)) now in
      let (run, out, _) = contact-Running c r now r.total refl h in
      rw (e, on_content) (dispatch-Holds c r' w r'.total r'.range pn now (out ∙ e) refl refl run)
  on_content-Holds c r w (some saved) pn now e h =
      rw (e, on_content) (subst (λ x. Holds x r (send_complete r w now)) (sym e) h)
  on_content-Holds c r w (some (failed reason)) pn now e h =
      rw (e, on_content) (subst (λ x. Holds x r w) (sym e) tt)

  -- A content packet of the file, with any number, whenever it comes, keeps what is held sound; if
  -- the transfer ends by it, the file is saved under its name, or the transfer has failed.
  pub on_content-IsPulling :
      (c : Settings) (r : ReceiverTransfer) (w : World) (pn now : ℕ)
      → IsPulling r w
      → let x = on_content c r w pn (packet_count (length file)) (piece file pn) now in
        IsPulling x.0 x.1
  on_content-IsPulling c r w pn now h = on_content-Holds c r w r.outcome pn now refl h
