-- ===== src/Protocol/Utf8.antt =====
-- `String::from_utf8`: the well-formed byte sequences of the Unicode standard, table 3-7, as a
-- machine that reads one byte at a time.
use qstream.Base.{ℕ, Bool, true, false, ◌&&◌, leb, if◌then◌else◌, Option, none, some, List, [], ◌∷◌}

-- What may follow: a new character, one to three trailing bytes, or the restricted second bytes
-- behind E0, ED, F0 and F4.
pub data Expect : Type 0 where
  start one two three after_e0 after_ed after_f0 after_f4 : Expect

abbrev between : ℕ → ℕ → ℕ → Bool
between lo hi b = leb lo b && leb b hi

trailing : Expect → ℕ → ℕ → ℕ → Option Expect
trailing next lo hi b = if between lo hi b then some next else none

lead : ℕ → Option Expect
lead b =
    if leb b 0x7f
    then some start
    else if between 0xc2 0xdf b
    then some one
    else if b_is 0xe0
    then some after_e0
    else if b_is 0xed
    then some after_ed
    else if between 0xe1 0xef b
    then some two
    else if b_is 0xf0
    then some after_f0
    else if between 0xf1 0xf3 b
    then some three
    else if b_is 0xf4
    then some after_f4
    else none
  where
    b_is : ℕ → Bool
    b_is k = between k k b

next : Expect → ℕ → Option Expect
unfolding lead trailing
next start b = lead b
next one b = trailing start 0x80 0xbf b
next two b = trailing one 0x80 0xbf b
next three b = trailing two 0x80 0xbf b
next after_e0 b = trailing one 0xa0 0xbf b
next after_ed b = trailing one 0x80 0x9f b
next after_f0 b = trailing two 0x90 0xbf b
next after_f4 b = trailing two 0x80 0x8f b

scan : Expect → List ℕ → Bool
unfolding next
scan start [] = true
scan s [] = false
scan s (b ∷ bs) = elim (next s b) [ none ↦ false | some t ↦ scan t bs ]

unfoldable pub is_utf8 : List ℕ → Bool
unfolding scan
is_utf8 bytes = scan start bytes
