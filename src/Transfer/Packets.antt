-- ===== src/Transfer/Packets.antt =====
-- How src/transfer.rs cuts a file into packets, and which names it serves.
use qstream.Base.{
  ℕ, ◌+◌, ◌-◌, ◌*◌, ◌/◌, Bool, true, false, not, leb, ◌==◌, ◌&&◌, ◌||◌, if◌then◌else◌, Option, none,
  some, List, [], ◌∷◌, length, take, drop, min, max,
}
use qstream.Transfer.Timing.{segment_packet_size}

-- `packet_count`: 1 to 65,535.
unfoldable pub packet_count : ℕ → ℕ
packet_count size = min (max ((size + 1399) / segment_packet_size) 1) 65535

-- `bytes[from..to]`; `none` is the panic of a slice out of range.
unfoldable pub slice : List ℕ → ℕ → ℕ → Option (List ℕ)
slice bytes from to =
    if leb from to && leb to (length bytes) then some (take (to - from) (drop from bytes)) else none

-- The part of the file that packet `number` carries, as `send_packets` cuts it. Packet 0 is the
-- overflow of `packet_number as usize - 1`.
unfoldable pub chunk : List ℕ → ℕ → Option (List ℕ)
unfolding slice
chunk file number =
    if number == 0
    then none
    else (let seek = (number - 1) * segment_packet_size in
        slice file seek (min (seek + segment_packet_size) (length file)))

is_graphic : ℕ → Bool
is_graphic c = leb 0x21 c && leb c 0x7e

all_graphic : List ℕ → Bool
unfolding is_graphic
all_graphic [] = true
all_graphic (c ∷ cs) = is_graphic c && all_graphic cs

has_byte : ℕ → List ℕ → Bool
has_byte b [] = false
has_byte b (c ∷ cs) = c == b || has_byte b cs

starts_with_dot : List ℕ → Bool
starts_with_dot [] = false
starts_with_dot (c ∷ cs) = c == b'.'

-- `valid_filename`. A character of more than one byte is no ASCII graphic character, nor is a byte
-- of one.
unfoldable pub valid_filename : List ℕ → Bool
unfolding all_graphic has_byte starts_with_dot
valid_filename name =
    not (length name == 0)
    && leb (length name) 255
    && not (has_byte b'/' name)
    && not (has_byte 0x5c name)
    && not (starts_with_dot name)
    && all_graphic name
