-- ===== src/Fault/Rng.antt =====
-- `Rng` of src/fault.rs, SplitMix64 on 64-bit words.
use qstream.Base.{
  ℕ, ◌+◌, ◌*◌, ◌/◌, ◌%◌, ◌^◌, Bool, true, false, ltb, leb, ◌==◌, if◌then◌else◌, bit_xor,
}

abbrev pub word : ℕ
word = 2 ^ 64

-- The one field of the struct is the 64-bit state.
pub record Rng : Type 0 where
  pub state : ℕ

-- `Rng::new`; `clock` is the time of day in nanoseconds, read when the seed is 0.
pub new : ℕ → ℕ → Rng
new seed clock = record { state = if seed == 0 then clock % word else seed }

mix : ℕ → ℕ → ℕ → ℕ
mix z shift factor = bit_xor z (z / 2 ^ shift) * factor % word

-- `Rng::next`: the drawn word and the generator after it.
unfoldable pub next : Rng → ℕ × Rng
unfolding mix
next r =
    let state = (r.state + 0x9E37_79B9_7F4A_7C15) % word in
    let z = mix (mix state 30 0xBF58_476D_1CE4_E5B9) 27 0x94D0_49BB_1331_11EB in
    (bit_xor z (z / 2 ^ 31), record { state = state })

-- `Rng::roll`: true with probability `pct` percent. The edges draw no word.
unfoldable pub roll : Rng → ℕ → Bool × Rng
roll r pct =
    if leb 100 pct
    then (true, r)
    else if pct == 0
    then (false, r)
    else (let (drawn, r') = next r in (ltb (drawn % 100) pct, r'))
