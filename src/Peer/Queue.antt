-- ===== src/Peer/Queue.antt =====
-- `sync_queue` of src/peer.rs: the segments of a new manifest that are to be downloaded.
pub mod Window
use qstream.Base.{
  ℕ, Bool, true, false, not, ltb, ◌&&◌, ◌||◌, if◌then◌else◌, Option, none, some, List, [], ◌∷◌,
}
use qstream.Clock.{secs, duration_since}
use qstream.Disk.{Disk}
use qstream.Names.{find_name, has_name, add_name, only_names}
use qstream.Transfer.Packets.{valid_filename}
use qstream.Transfer.Manifest.{parse_manifest}

-- The names to download, the next one first, and the set `queued`.
pub record Wanted : Type 0 where
  pub queue : List (List ℕ)
  pub queued : List (List ℕ)

-- `FAIL_RETRY_COOLDOWN`.
abbrev pub fail_retry_cooldown : ℕ
fail_retry_cooldown = secs 5

unfoldable pub failed_lately : Option ℕ → ℕ → Bool
failed_lately none now = false
failed_lately (some t) now = ltb (duration_since now t) fail_retry_cooldown

-- `data_dir.join(name).exists()`, which holds of a directory too.
unfoldable pub exists : Disk → List ℕ → Bool
exists d name = d.is_dir name || elim (d.files name) [ none ↦ false | some bytes ↦ true ]

-- The tests of the loop that pass over a name, less the one for `queued`.
unfoldable pub is_fetchable : Disk → List (List ℕ × ℕ) → ℕ → List ℕ → Bool
unfolding exists failed_lately
is_fetchable d failed_at now name =
    valid_filename name && not (exists d name) && not (failed_lately (find_name name failed_at) now)

unfoldable pub sync_one : Disk → List (List ℕ × ℕ) → ℕ → Wanted → List ℕ → Wanted
sync_one d failed_at now w name =
    if is_fetchable d failed_at now name && not (has_name name w.queued)
    then record { queue = name ∷ w.queue; queued = add_name name w.queued }
    else w

unfoldable pub sync_all : Disk → List (List ℕ × ℕ) → ℕ → Wanted → List (List ℕ) → Wanted
unfolding sync_one
sync_all d failed_at now w [] = w
sync_all d failed_at now w (name ∷ rest) =
    sync_all d failed_at now (sync_one d failed_at now w name) rest

-- `sync_queue`: what has left the manifest is forgotten first.
unfoldable pub sync_queue : Disk → List ℕ → Wanted → List (List ℕ × ℕ) → ℕ → Wanted
unfolding sync_all
sync_queue d manifest w failed_at now =
    let segments = parse_manifest manifest in
    sync_all d failed_at now
      (record { queue = only_names segments w.queue; queued = only_names segments w.queued })
      segments
