-- ===== src/Http/Playlist.antt =====
-- `playback_playlist` and `filter_playlist` of src/http.rs: the playlist that a player sees.
-- `lossy` is `String::from_utf8_lossy`.
use qstream.Base.{
  ℕ, ◌+◌, ◌-◌, ◌^◌, ◌%◌, Bool, true, false, not, ◌==◌, ◌&&◌, ◌||◌, if◌then◌else◌, Option, none,
  some, List, [], ◌∷◌, ◌++◌, length, take,
}
use mathlib.Core.Option
use qstream.Disk.{Disk}
use qstream.Text.{codes, starts_with, decimal}
use qstream.Transfer.Manifest.{trim, lines_from}
use qstream.Transfer.Registry.Availability.{parse_u64, strip_prefix}

abbrev pub sequence_tag : List ℕ
sequence_tag = codes "#EXT-X-MEDIA-SEQUENCE:"

-- The first loop of `playback_playlist`: the last media sequence, or 0.
unfoldable pub media_sequence : ℕ → List (List ℕ) → ℕ
media_sequence seq [] = seq
media_sequence seq (line ∷ rest) = elim (strip_prefix sequence_tag line) [
  | none ↦ media_sequence seq rest
  | some value ↦ media_sequence (Option.get_or (parse_u64 (trim value)) 0) rest
]

-- A segment of the playlist: its number, its tags and its name.
pub record Piece : Type 0 where
  pub seq : ℕ
  pub tags : List (List ℕ)
  pub name : List ℕ

-- The variables of the second loop; the lists are in the order of the text.
pub record Scan : Type 0 where
  pub header : List (List ℕ)
  pub pending : List (List ℕ)
  pub kept : List Piece
  pub saw_m3u : Bool
  pub saw_segment_tag : Bool
  pub seq : ℕ

-- A line with `#`.
unfoldable pub scan_tag : Scan → List ℕ → Scan
scan_tag s line =
    let tagged = s.saw_segment_tag || starts_with (codes "#EXTINF:") line in
    if starts_with sequence_tag line then s else record s {
      header = if tagged then s.header else s.header ++ line ∷ [];
      pending = if tagged then s.pending ++ line ∷ [] else s.pending;
      saw_m3u = s.saw_m3u || starts_with (codes "#EXTM3U") line;
      saw_segment_tag = tagged;
    }

unfoldable pub is_file : Disk → List ℕ → Bool
is_file d name = elim (d.files name) [ none ↦ false | some bytes ↦ true ]

-- A line that names a segment.
unfoldable pub scan_name : Disk → Scan → List ℕ → Scan
unfolding is_file
scan_name d s name =
    if is_file d name
    then record s {
      kept = s.kept ++ record { seq = s.seq; tags = s.pending; name = name } ∷ [];
      pending = [];
      seq = (s.seq + 1) % 2 ^ 64;
    }
    else record s { pending = []; seq = (s.seq + 1) % 2 ^ 64 }

unfoldable pub scan_line : Disk → Scan → List ℕ → Scan
unfolding scan_tag scan_name
scan_line d s line =
    if starts_with (b'#' ∷ []) line
    then scan_tag s line
    else if length (trim line) == 0
    then s
    else scan_name d s (trim line)

unfoldable pub scan : Disk → Scan → List (List ℕ) → Scan
unfolding scan_line
scan d s [] = s
scan d s (line ∷ rest) = scan d (scan_line d s line) rest

unfoldable pub put_lines : List (List ℕ) → List ℕ
put_lines [] = []
put_lines (line ∷ rest) = line ++ (10 ∷ put_lines rest)

unfoldable pub put_pieces : List Piece → List ℕ
unfolding put_lines
put_pieces [] = []
put_pieces (p ∷ rest) = put_lines p.tags ++ (p.name ++ (10 ∷ put_pieces rest))

abbrev pub sequence_line : ℕ → List ℕ
sequence_line first = sequence_tag ++ (decimal first ++ (10 ∷ []))

-- The last loop: the sequence goes behind the first line that may stand in front of it.
unfoldable pub with_sequence : List ℕ → Bool → List (List ℕ) → List ℕ
with_sequence insert inserted [] = if inserted then [] else insert
with_sequence insert inserted (line ∷ rest) =
    let here =
      not inserted
      && (starts_with (codes "#EXTM3U") line || starts_with (codes "#EXT-X-VERSION:") line) in
    line ++ (10 ∷ ((if here then insert else []) ++ with_sequence insert (inserted || here) rest))

abbrev pub first_seq : List Piece → ℕ
first_seq [] = 0
first_seq (p ∷ rest) = p.seq

abbrev pub start_scan : ℕ → Scan
start_scan seq = record {
  header = [];
  pending = [];
  kept = [];
  saw_m3u = false;
  saw_segment_tag = false;
  seq = seq;
}

-- What the second loop leaves of a manifest.
unfoldable pub scanned : (List ℕ → List ℕ) → Disk → List ℕ → Scan
unfolding media_sequence scan
scanned lossy d bytes =
    let lines = lines_from [] (lossy bytes) in scan d (start_scan (media_sequence 0 lines)) lines

-- `playback_playlist`.
unfoldable pub playback_playlist : (List ℕ → List ℕ) → Disk → List ℕ → ℕ → Option (List ℕ)
unfolding scanned put_lines put_pieces with_sequence
playback_playlist lossy d bytes holdback =
    let s = scanned lossy d bytes in
    let keep_count = length s.kept - holdback in
    if not s.saw_m3u || keep_count == 0
    then none
    else some (
        with_sequence (sequence_line (first_seq s.kept)) false
          (lines_from [] (lossy (put_lines s.header ++ put_pieces (take keep_count s.kept)))))

-- `filter_playlist`.
unfoldable pub filter_playlist : (List ℕ → List ℕ) → Disk → List ℕ → List ℕ
unfolding playback_playlist
filter_playlist lossy d bytes = Option.get_or (playback_playlist lossy d bytes 0) bytes
