-- ===== src/Fault/Injector.antt =====
-- `FaultInjector` of src/fault.rs, and the socket behind it.
use qstream.Base.{
  ℕ, ◌+◌, ◌%◌, Bool, false, ltb, leb, ◌==◌, ◌||◌, if◌then◌else◌, Option, none, some, List, [], ◌∷◌,
  ◌++◌,
}
use qstream.Net.{SocketAddr}
use qstream.Clock.{ms, as_millis, duration_since}
use qstream.Fault.Rng.{Rng, roll}

-- The bytes of a datagram and its destination.
abbrev pub Datagram : Type 0
Datagram = List ℕ × SocketAddr

-- A UDP socket: what the system takes (`send_to(..).is_ok()`), and what it has taken, oldest first.
pub record Socket : Type 0 where
  pub accepts : Datagram → Bool
  pub sent : List Datagram

pub record FaultStats : Type 0 where
  pub dropped : ℕ
  pub emitted : ℕ

pub record FaultInjector : Type 0 where
  pub rng : Rng
  pub started : ℕ
  pub drop_pct : ℕ
  pub dup_pct : ℕ
  pub reorder_pct : ℕ
  pub delay_ms : ℕ
  pub burst_every_ms : ℕ
  pub burst_dur_ms : ℕ
  pub held : Option (ℕ × Datagram)
  pub delayed : List (ℕ × Datagram)
  pub stats : FaultStats

-- The pair `socket`, `fault` that the transfer code hands from call to call.
pub record Link : Type 0 where
  pub fault : FaultInjector
  pub socket : Socket

abbrev pub hold_max : ℕ
hold_max = ms 50

unfoldable pub enabled : FaultInjector → Bool
enabled f =
    ltb 0 f.drop_pct
    || ltb 0 f.dup_pct
    || ltb 0 f.reorder_pct
    || ltb 0 f.delay_ms
    || ltb 0 f.burst_every_ms

unfoldable pub in_burst : FaultInjector → ℕ → Bool
in_burst f now =
    if f.burst_every_ms == 0
    then false
    else ltb (as_millis (duration_since now f.started) % f.burst_every_ms) f.burst_dur_ms

-- `stats.dropped += 1`.
unfoldable pub drop_one : Link → Link
drop_one l = record l { fault = record f { stats = record s { dropped = s.dropped + 1 } } }
  where
    open l use {fault as f}
    open f use {stats as s}

-- `if socket.send_to(&bytes, dst).is_ok() { stats.emitted += 1 }`.
unfoldable pub transmit : Link → Datagram → Link
transmit l d =
    if l.socket.accepts d
    then record {
      fault = record f { stats = record s { emitted = s.emitted + 1 } };
      socket = record k { sent = k.sent ++ d ∷ [] };
    }
    else l
  where
    open l use {fault as f, socket as k}
    open f use {stats as s}

-- A roll that is made only if the rate is positive: `pct > 0 && rng.roll(pct)`.
unfoldable pub roll_if : FaultInjector → ℕ → Bool × FaultInjector
roll_if f pct =
    if ltb 0 pct
    then (let (hit, rng) = roll f.rng pct in (hit, record f { rng = rng }))
    else (false, f)

-- `delayed.push_back((now + delay, bytes.clone(), dst))`.
unfoldable pub put_off : Link → Datagram → ℕ → Link
put_off l d now = record l {
  fault = record f { delayed = f.delayed ++ (now + ms f.delay_ms, d) ∷ [] };
}
  where
    open l use {fault as f}

-- One copy of a datagram: dropped, put off, or sent.
unfoldable pub pipeline_copy : Link → Datagram → ℕ → Link
pipeline_copy l d now =
    let (hit, f) = roll_if l.fault l.fault.drop_pct in
    let rolled = record l { fault = f } in
    if hit
    then drop_one rolled
    else if ltb 0 f.delay_ms
    then put_off rolled d now
    else transmit rolled d

-- `pipeline`: one copy, or two.
unfoldable pub pipeline : Link → Datagram → ℕ → Link
pipeline l d now =
    let (twice, f) = roll_if l.fault l.fault.dup_pct in
    let once = pipeline_copy (record l { fault = f }) d now in
    if twice then pipeline_copy once d now else once

-- What `send` does with `self.held.take()`, when datagrams are reordered.
unfoldable pub reordered : Option (ℕ × Datagram) → Link → Datagram → ℕ → Link
reordered (some (since, h)) l d now =
    pipeline (pipeline (record l { fault = record (l.fault) { held = none } }) d now) h now
reordered none l d now =
    let (hit, rng) = roll l.fault.rng l.fault.reorder_pct in
    let f = record (l.fault) { rng = rng } in
    if hit
    then record l { fault = record f { held = some (now, d) } }
    else pipeline (record l { fault = f }) d now

unfoldable pub send_reordered : Link → Datagram → ℕ → Link
send_reordered l d now = reordered l.fault.held l d now

-- `FaultInjector::send`.
unfoldable pub send : Link → Datagram → ℕ → Link
send l d now =
    if in_burst l.fault now
    then drop_one l
    else if ltb 0 l.fault.reorder_pct
    then send_reordered l d now
    else pipeline l d now

-- The `while` loop of `drain`: the queue in front of the first datagram that is not due.
unfoldable pub release_due : List (ℕ × Datagram) → Link → ℕ → Link
release_due [] l now = record l { fault = record (l.fault) { delayed = [] } }
release_due ((due, d) ∷ queue) l now =
    let rest = release_due queue (transmit l d) now in
    if ltb now due
    then record l { fault = record (l.fault) { delayed = (due, d) ∷ queue } }
    else rest

-- What `drain` does with `self.held.take()`.
unfoldable pub release_since : Option (ℕ × Datagram) → Link → ℕ → Link
release_since none l now = l
release_since (some (since, d)) l now =
    if leb hold_max (duration_since now since)
    then transmit (record l { fault = record (l.fault) { held = none } }) d
    else l

unfoldable pub release_held : Link → ℕ → Link
release_held l now = release_since l.fault.held l now

-- `FaultInjector::drain`.
unfoldable pub drain : Link → ℕ → Link
drain l now = release_held (release_due l.fault.delayed l now) now

-- `FaultInjector::next_deadline`.
unfoldable pub next_deadline : FaultInjector → ℕ → Option ℕ
next_deadline f now = elim f.delayed [
  | (due, d) ∷ queue ↦ some (if ltb now due then due else now + 1)
  | [] ↦ elim f.held [
    | some (since, d) ↦ some (if ltb now (since + hold_max) then since + hold_max else now + 1)
    | none ↦ none
  ]
]
