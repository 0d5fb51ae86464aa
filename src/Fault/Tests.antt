-- ===== src/Fault/Tests.antt =====
-- The theorems on src/fault.rs at small links.
use qstream.Base.{ℕ, ◌≡◌, refl, true, Option, none, some, List, [], ◌∷◌, arith}
use qstream.Net.{SocketAddr, v4}
use qstream.Fault.Injector.{Datagram, FaultInjector, Link, in_burst, send, drain, next_deadline}
use qstream.Fault.Order.{send_swaps, drain_in_order}
use qstream.Fault.Runs.{sends, drains, run, IsBalanced, run-IsBalanced}

abbrev host : SocketAddr
host = v4 10 0 0 1 20000

abbrev first : Datagram
first = (1 ∷ [], host)

abbrev second : Datagram
second = (2 ∷ [], host)

-- An injector with the given rates of loss, duplication and reordering, a delay, and what waits.
abbrev injector : ℕ → ℕ → ℕ → ℕ → Option (ℕ × Datagram) → List (ℕ × Datagram) → FaultInjector
injector drop dup reorder delay held delayed = record {
  rng = record { state = 42 };
  started = 0;
  drop_pct = drop;
  dup_pct = dup;
  reorder_pct = reorder;
  delay_ms = delay;
  burst_every_ms = 0;
  burst_dur_ms = 0;
  held = held;
  delayed = delayed;
  stats = record { dropped = 0; emitted = 0 };
}

abbrev linked : FaultInjector → Link
linked f = record { fault = f; socket = record { accepts = λ d. true; sent = [] } }

abbrev lossy : Link
lossy = linked (injector 30 20 10 5 none [])

lossy-IsBalanced : IsBalanced [] [] lossy
lossy-IsBalanced = record {
  takes = λ d. refl;
  counted = (refl, refl);
  at_least = λ p. omega arith;
  at_most = λ p. omega arith;
  exact = λ e p. refl;
}

run-IsBalanced_example :
    (gone : List Datagram) × IsBalanced
      (second ∷ first ∷ [])
      gone
      (run lossy (sends first 0 ∷ drains 60 ∷ sends second 70 ∷ []))
run-IsBalanced_example =
    run-IsBalanced (sends first 0 ∷ drains 60 ∷ sends second 70 ∷ []) [] [] lossy lossy-IsBalanced

abbrev faultless : Link
faultless = linked (injector 0 0 0 0 none [])

abbrev holding : Link
holding = linked (injector 0 0 50 0 (some (1, first)) [])

send_swaps_example :
    ((send holding second 7).socket.sent ≡ second ∷ first ∷ [])
    × ((send holding second 7).fault.held ≡ none)
unfolding in_burst
send_swaps_example =
    send_swaps holding second first 1 7 (λ d. refl) (refl, refl, refl) refl (omega arith) refl

abbrev queued : Link
queued = linked (injector 0 0 0 5 none ((3, first) ∷ (9, second) ∷ []))

drain_in_order_example :
    ((drain queued 4).socket.sent ≡ first ∷ [])
    × ((drain queued 4).fault.delayed ≡ (9, second) ∷ [])
drain_in_order_example = drain_in_order queued 4 (λ d. refl) refl

queued-next_deadline : next_deadline queued.fault 4 ≡ some 5
unfolding next_deadline
queued-next_deadline = refl
