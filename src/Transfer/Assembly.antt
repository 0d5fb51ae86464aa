-- ===== src/Transfer/Assembly.antt =====
-- The packet map of a receiver of src/transfer.rs, and how `complete` turns it into a file.
pub mod Access
pub mod Place
pub mod Keys
use qstream.Base.{
  ℕ, zero, suc, ◌+◌, ◌-◌, ◌*◌, Bool, true, false, leb, ◌==◌, ◌&&◌, ◌||◌, if◌then◌else◌, Option,
  none, some, List, [], ◌∷◌, ◌++◌, length, take, drop, replicate, min,
}
use qstream.Net.{as_u16}
use qstream.Disk.{Disk, write, rename}
use qstream.Transfer.Timing.{segment_packet_size}

-- `packets.contains_key`.
unfoldable pub contains_key : ℕ → List (ℕ × List ℕ) → Bool
contains_key pn [] = false
contains_key pn ((k, v) ∷ ps) = k == pn || contains_key pn ps

-- `(start..start + count).all(..)`.
unfoldable pub all_received : List (ℕ × List ℕ) → ℕ → ℕ → Bool
all_received ps start zero = true
all_received ps start (suc count) =
    contains_key (as_u16 start) ps && all_received ps (start + 1) count

-- `buffer[pos..pos + payload.len()].copy_from_slice(payload)`.
unfoldable pub splice : List ℕ → ℕ → List ℕ → List ℕ
splice buffer pos payload = take pos buffer ++ (payload ++ drop (pos + length payload) buffer)

-- One round of the loop of `complete` over the packets: the buffer and `final_size`.
unfoldable pub place : ℕ → ℕ × List ℕ → List ℕ × ℕ → List ℕ × ℕ
place total (pn, payload) (buffer, final_size) =
    let pos = (pn - 1) * segment_packet_size in
    (
      (if leb (pos + length payload) (length buffer) then splice buffer pos payload else buffer),
      (if pn == total then pos + length payload else final_size),
    )

unfoldable pub place_all : ℕ → List (ℕ × List ℕ) → List ℕ × ℕ → List ℕ × ℕ
place_all total [] acc = acc
place_all total (p ∷ ps) acc = place_all total ps (place total p acc)

-- The bytes that `complete` writes: the buffer up to `final_size`.
unfoldable pub assemble : ℕ → List (ℕ × List ℕ) → List ℕ
assemble total ps =
    let (buffer, final_size) = place_all total ps (replicate (total * segment_packet_size) 0, 0) in
    take (min final_size (length buffer)) buffer

abbrev pub tmp_suffix : List ℕ
tmp_suffix = b'.' ∷ b't' ∷ b'm' ∷ b'p' ∷ []

-- `fs::write(tmp, ..)?; fs::rename(tmp, real)?`, and whether both succeed.
unfoldable pub save : Disk → List ℕ → List ℕ → Disk × Bool
save d filename bytes =
    let (d', written) = write d (filename ++ tmp_suffix) bytes in
    if written
    then elim (rename d' (filename ++ tmp_suffix) filename) [
      | none ↦ (d', false)
      | some d'' ↦ (d'', true)
    ]
    else (d', false)
