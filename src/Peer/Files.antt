-- ===== src/Peer/Files.antt =====
-- `write_manifest` and `refresh_playback_manifest` of src/peer.rs: each writes beside the file, and renames.
pub mod Atomic
use qstream.Base.{ℕ, Bool, true, false, if◌then◌else◌, Option, none, some, List}
use qstream.Disk.{Disk, bytes_eq, write, rename, remove_file}
use qstream.Text.{codes}
use qstream.Http.Playlist.{playback_playlist}

-- The manifest as the origin gave it, and the playlist for the player.
abbrev pub live_name : List ℕ
live_name = codes "live.m3u8"

abbrev pub live_tmp : List ℕ
live_tmp = codes "live.m3u8.tmp"

abbrev pub playback_name : List ℕ
playback_name = codes "playback.m3u8"

abbrev pub playback_tmp : List ℕ
playback_tmp = codes "playback.m3u8.tmp"

-- `fs::read(name).map(|old| old == bytes).unwrap_or(false)`.
unfoldable pub holds : Disk → List ℕ → List ℕ → Bool
holds d name bytes = elim (d.files name) [ none ↦ false | some old ↦ bytes_eq old bytes ]

-- `fs::write(tmp, bytes)?; fs::rename(tmp, name)?`, and whether both succeed.
unfoldable pub replace : Disk → List ℕ → List ℕ → List ℕ → Disk × Bool
replace d tmp name bytes =
    let (d', written) = write d tmp bytes in
    if written
    then elim (rename d' tmp name) [ none ↦ (d', false) | some d'' ↦ (d'', true) ]
    else (d', false)

-- `write_manifest`: whether the manifest is new; `none` is an error.
unfoldable pub write_manifest : Disk → List ℕ → Disk × Option Bool
unfolding holds replace
write_manifest d bytes =
    let (d', done) = replace d live_tmp live_name bytes in
    if holds d live_name bytes then (d, some false) else (d', if done then some true else none)

-- `refresh_playback_manifest`, with whether it succeeds. The removal of a playlist may be refused.
unfoldable pub refresh_playback_manifest : (List ℕ → List ℕ) → Disk → Bool → ℕ → Disk × Bool
unfolding holds replace
refresh_playback_manifest lossy d can_remove holdback = elim (d.files live_name) [
  | none ↦ (d, false)
  | some manifest ↦ elim (playback_playlist lossy d manifest holdback) [
    | none ↦ (if can_remove then remove_file d playback_name else d, true)
    | some bytes ↦
        if holds d playback_name bytes
        then (d, true)
        else replace d playback_tmp playback_name bytes
  ]
]
