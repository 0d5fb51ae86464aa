-- ===== src/Text.antt =====
-- Operations of std on texts, over their UTF-8 bytes.
use qstream.Base.{
  ℕ, zero, suc, ◌+◌, ◌-◌, ◌/◌, ◌%◌, Bool, leb, ltb, ◌&&◌, if◌then◌else◌, List, [], ◌∷◌, length,
  take, drop,
}
use Prim.Native.String.{String}
use Prim.Native.Char.{code}
use qstream.Disk.{bytes_eq}

-- The bytes of an ASCII text.
abbrev pub codes : String → List ℕ
codes String.[] = []
codes (String.◌∷◌ c s) = code c ∷ codes s

unfoldable pub starts_with : List ℕ → List ℕ → Bool
starts_with prefix bs = leb (length prefix) (length bs) && bytes_eq (take (length prefix) bs) prefix

unfoldable pub ends_with : List ℕ → List ℕ → Bool
ends_with suffix bs =
    leb (length suffix) (length bs) && bytes_eq (drop (length bs - length suffix) bs) suffix

-- The decimal digits of a number below 10 ^ fuel, in front of `rest`.
unfoldable pub digits_before : ℕ → ℕ → List ℕ → List ℕ
digits_before zero n rest = rest
digits_before (suc fuel) n rest =
    let more = digits_before fuel (n / 10) ((b'0' + n % 10) ∷ rest) in
    if ltb n 10 then (b'0' + n) ∷ rest else more

-- `format!("{n}")` of a `u64`, which has twenty digits at most.
unfoldable pub decimal : ℕ → List ℕ
unfolding digits_before
decimal n = digits_before 20 n []
