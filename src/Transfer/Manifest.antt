-- ===== src/Transfer/Manifest.antt =====
-- `parse_manifest` of src/transfer.rs: the segment names of an m3u8 playlist, over the bytes of its text.
use qstream.Base.{
  ℕ, Bool, true, false, not, leb, ◌==◌, ◌&&◌, ◌||◌, if◌then◌else◌, List, [], ◌∷◌, ◌++◌,
}
use mathlib.Core.List.{reverse}
use qstream.Protocol.Utf8.{is_utf8}

-- `char::is_whitespace`, of a character of one, two and three bytes.
unfoldable pub is_white1 : ℕ → Bool
is_white1 a = (leb 9 a && leb a 13) || a == 32

unfoldable pub is_white2 : ℕ → ℕ → Bool
is_white2 a b = a == 0xc2 && (b == 0x85 || b == 0xa0)

unfoldable pub is_white3 : ℕ → ℕ → ℕ → Bool
is_white3 a b c =
    (a == 0xe1 && b == 0x9a && c == 0x80)
    || (a == 0xe2
        && b == 0x80
        && ((leb 0x80 c && leb c 0x8a) || c == 0xa8 || c == 0xa9 || c == 0xaf))
    || (a == 0xe2 && b == 0x81 && c == 0x9f)
    || (a == 0xe3 && b == 0x80 && c == 0x80)

unfoldable pub trim_start : List ℕ → List ℕ
unfolding is_white1 is_white2 is_white3
trim_start [] = []
trim_start (a ∷ []) = if is_white1 a then [] else a ∷ []
trim_start (a ∷ b ∷ []) =
    let one = trim_start (b ∷ []) in
    if is_white1 a then one else if is_white2 a b then [] else a ∷ b ∷ []
trim_start (a ∷ b ∷ c ∷ cs) =
    let one = trim_start (b ∷ c ∷ cs) in
    let two = trim_start (c ∷ cs) in
    let three = trim_start cs in
    if is_white1 a
    then one
    else if is_white2 a b
    then two
    else if is_white3 a b c
    then three
    else a ∷ b ∷ c ∷ cs

-- The same at the end of a text, whose bytes come in reverse order.
unfoldable pub trim_back : List ℕ → List ℕ
unfolding is_white1 is_white2 is_white3
trim_back [] = []
trim_back (c ∷ []) = if is_white1 c then [] else c ∷ []
trim_back (c ∷ b ∷ []) =
    let one = trim_back (b ∷ []) in
    if is_white1 c then one else if is_white2 b c then [] else c ∷ b ∷ []
trim_back (c ∷ b ∷ a ∷ cs) =
    let one = trim_back (b ∷ a ∷ cs) in
    let two = trim_back (a ∷ cs) in
    let three = trim_back cs in
    if is_white1 c
    then one
    else if is_white2 b c
    then two
    else if is_white3 a b c
    then three
    else c ∷ b ∷ a ∷ cs

-- `str::trim`.
unfoldable pub trim : List ℕ → List ℕ
unfolding trim_start trim_back
trim text = reverse (trim_back (reverse (trim_start text)))

unfoldable pub strip_cr : List ℕ → List ℕ
strip_cr [] = []
strip_cr (c ∷ []) = if c == 13 then [] else c ∷ []
strip_cr (c ∷ d ∷ cs) = c ∷ strip_cr (d ∷ cs)

is_nil : List ℕ → Bool
is_nil [] = true
is_nil (c ∷ cs) = false

-- `str::lines`, with the part of the current line before the rest of the text.
unfoldable pub lines_from : List ℕ → List ℕ → List (List ℕ)
unfolding strip_cr is_nil
lines_from line [] = if is_nil line then [] else line ∷ []
lines_from line (c ∷ cs) =
    let ended = strip_cr line ∷ lines_from [] cs in
    let longer = lines_from (line ++ c ∷ []) cs in if c == 10 then ended else longer

-- A line that is not empty and no comment.
unfoldable pub is_entry : List ℕ → Bool
is_entry [] = false
is_entry (c ∷ cs) = not (c == b'#')

unfoldable pub entries : List (List ℕ) → List (List ℕ)
unfolding is_entry trim
entries [] = []
entries (l ∷ ls) = let rest = entries ls in if is_entry l then trim l ∷ rest else rest

-- `parse_manifest`; what is no text has no names.
unfoldable pub parse_manifest : List ℕ → List (List ℕ)
unfolding lines_from entries
parse_manifest bytes = if is_utf8 bytes then entries (lines_from [] bytes) else []
