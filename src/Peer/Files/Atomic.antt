-- ===== src/Peer/Files/Atomic.antt =====
-- The manifest of src/peer.rs is replaced as a whole.
use qstream.Base.{
  ℕ, ◌≡◌, refl, ap, ◌∙◌, ◌≢◌, ◌⊎◌, true, false, Bool-cases, Option-cases, inl, inr, none, some,
  List, arith,
}
use qstream.Disk.{Disk, bytes_eq, bytes_eq_refl, write, rename}
use qstream.Names.{bytes_eq-eq}
use qstream.Peer.Files.{live_name, live_tmp, holds, replace, write_manifest}

-- A file is replaced as a whole, or is left as it was.
replace_lem :
    (d : Disk) (tmp name bytes : List ℕ)
    → bytes_eq name tmp ≡ false
    → (((replace d tmp name bytes).1 ≡ true)
        × ((replace d tmp name bytes).0.files name ≡ some bytes))
      ⊎ (((replace d tmp name bytes).1 ≡ false)
          × ((replace d tmp name bytes).0.files name ≡ d.files name))
unfolding replace write rename
replace_lem d tmp name bytes apart = ground (arith, bytes_eq_refl tmp, bytes_eq_refl name)

-- A name that is neither of the two keeps its file.
replace_other :
    (d : Disk) (tmp name bytes m : List ℕ)
    → bytes_eq m tmp ≡ false
    → bytes_eq m name ≡ false
    → (replace d tmp name bytes).0.files m ≡ d.files m
unfolding replace write rename
replace_other d tmp name bytes m p q = ground arith

holds_eq : (d : Disk) (name bytes : List ℕ) → holds d name bytes ≡ true → d.files name ≡ some bytes
unfolding holds
holds_eq d name bytes e = elim (Option-cases (d.files name)) [
  | inl q ↦ absurd (let c = rw (q, holds) at e in cc)
  | inr (old, q) ↦ q ∙ ap some (bytes_eq-eq old bytes (rw (q, holds) at e))
]

-- After `write_manifest` the live manifest is the one that was received, whether it was new or not,
-- or, after an error, the one that was there before, whatever a failed write leaves of the file it
-- writes; and no other file has changed but the one it is written to first.
pub write_manifest_live :
    (d : Disk) (bytes m : List ℕ)
    → bytes_eq m live_tmp ≡ false
    → bytes_eq m live_name ≡ false
    → (((write_manifest d bytes).1 ≢ none
          × ((write_manifest d bytes).0.files live_name ≡ some bytes))
        ⊎ (((write_manifest d bytes).1 ≡ none)
            × ((write_manifest d bytes).0.files live_name ≡ d.files live_name)))
      × ((write_manifest d bytes).0.files m ≡ d.files m)
unfolding write_manifest
write_manifest_live d bytes m p q = elim (Bool-cases (holds d live_name bytes)) [
  | inl same ↦ rw same (inl (λ e. cc, holds_eq d live_name bytes same), refl)
  | inr new ↦ rw new (
    elim (replace_lem d live_tmp live_name bytes refl) [
      | inl (done, now) ↦ rw done (inl (λ e. cc, now))
      | inr (undone, before) ↦ rw undone (inr (refl, before))
    ],
    replace_other d live_tmp live_name bytes m p q,
  )
]
